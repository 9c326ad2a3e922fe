-- ===== src/EventStore/Replay/Menu/Rows.antt =====
-- What the handlers of Component_1/event_store.py that write menu items do to the rows.
use mathlib.Core.Path.{sym}
use restaurant_ops_copilot.Prelude.{
  ℕ, Option, none, ◌≡◌, refl, ap, ◌∙◌, String, false, some, List, ok, arith, ◌⊎◌, inl, inr,
  Option-cases, eq_iff, find, find_passes, find-update-some, update,
}
use restaurant_ops_copilot.Values.{
  Numbers, Value, null, bool, num, text, arr, obj, entry, get, menu_item_removed, menu_price_change,
}
use restaurant_ops_copilot.EventStore.Tables.{Tables, Event, MenuItem, is_menu_item}
use restaurant_ops_copilot.EventStore.Handlers.Menu.{
  apply_menu_price_change, apply_menu_item_removed,
}
use restaurant_ops_copilot.EventStore.Replay.{MenuItemState}
use restaurant_ops_copilot.EventStore.Replay.Step.{replay_menu}

module _ (N : Numbers) where
  open N use {Num, hundredths, decimal, lt, cents}

  -- what a row of the menu holds of a price
  abbrev pub stored_price : Value Num → Option Num
  stored_price v = elim (decimal v) [ none ↦ none | some x ↦ some (cents x) ]

  -- An event writes one item's row, to the price that its replay has for the item, and no other.
  pub record Rewritten (e : Event Num) (before after : List (MenuItem Num)) : Type 0 where
    pub id : String
    pub row : MenuItem Num
    pub id_is : get "menu_item_id" e.payload ≡ text id
    pub row_is : find (is_menu_item e.tenant_id id) after ≡ some row
    pub others :
        (u : ℕ) (j : String) (r : MenuItem Num)
        → find (is_menu_item u j) before ≡ some r
        → is_menu_item e.tenant_id id r ≡ false
        → find (is_menu_item u j) after ≡ some r
    pub price :
        (m : MenuItemState Num) (v : Value Num)
        → (replay_menu e.event_type e.payload m).current_price ≡ some v
        → (stored_price v ≡ some row.current_price)
          ⊎ ((m.current_price ≡ some v)
              × ((r : MenuItem Num)
                  → find (is_menu_item e.tenant_id id) before ≡ some r
                  → r.current_price ≡ row.current_price))

  -- a row that an update passes by, where the update keeps tenants and ids
  pub other_row :
      (t : ℕ) (i : String) (u : ℕ) (j : String) (f : MenuItem Num → MenuItem Num)
      (rows : List (MenuItem Num)) (r : MenuItem Num)
      → ((q : MenuItem Num) → is_menu_item u j (f q) ≡ is_menu_item u j q)
      → find (is_menu_item u j) rows ≡ some r
      → is_menu_item t i r ≡ false
      → find (is_menu_item u j) (update (is_menu_item t i) f rows) ≡ some r
  other_row t i u j f rows r keeps h missed =
      find-update-some (is_menu_item t i) (is_menu_item u j) f rows r keeps h ∙ rw missed refl

  pub own_row :
      (t : ℕ) (i : String) (f : MenuItem Num → MenuItem Num) (rows : List (MenuItem Num))
      (r : MenuItem Num)
      → ((q : MenuItem Num) → is_menu_item t i (f q) ≡ is_menu_item t i q)
      → find (is_menu_item t i) rows ≡ some r
      → find (is_menu_item t i) (update (is_menu_item t i) f rows) ≡ some (f r)
  own_row t i f rows r keeps h =
      find-update-some (is_menu_item t i) (is_menu_item t i) f rows r keeps h
      ∙ rw (find_passes (is_menu_item t i) rows r h) refl

  -- What a successful price change has read, and what it has written.
  pub price-inverts :
      (v : Value Num) (e : Event Num) (s : Tables Num)
      → get "menu_item_id" e.payload ≡ v
      → (apply_menu_price_change N e s).0 ≡ ok tt
      → (i : String) × (p : Value Num) × (x : Num) × (r : MenuItem Num) × (get "menu_item_id"
            e.payload
          ≡ text i)
        × (entry "new_price" e.payload ≡ some p)
        × (decimal p ≡ some x)
        × (lt x (hundredths 0) ≡ false)
        × (find (is_menu_item e.tenant_id i) s.menu_items ≡ some r)
        × ((apply_menu_price_change N e s).1.menu_items
            ≡ update
                (is_menu_item e.tenant_id i)
                (λ q. record q { current_price = cents x })
                s.menu_items)
  unfolding apply_menu_price_change
  price-inverts (text i) e s k h = elim (Option-cases (entry "new_price" e.payload)) [
    | inl missing ↦ absurd (ground arith)
    | inr (p, price_is) ↦ elim (Option-cases (decimal p)) [
      | inl malformed ↦ absurd (ground arith)
      | inr (x, amount_is) ↦ elim (Option-cases (find (is_menu_item e.tenant_id i) s.menu_items)) [
        | inl missing ↦ absurd (ground arith)
        | inr (r, row_is) ↦
            let passes = find_passes (is_menu_item e.tenant_id i) s.menu_items r row_is in
            let same_id : r.id ≡ i = ground (arith, eq_iff r.id i, passes) in
            (i, p, x, r, k, price_is, amount_is, ground arith, row_is, ground arith)
      ]
    ]
  ]
  price-inverts null e s k h = absurd (ground arith)
  price-inverts (bool b) e s k h = absurd (ground arith)
  price-inverts (num x) e s k h = absurd (ground arith)
  price-inverts (arr xs) e s k h = absurd (ground arith)
  price-inverts (obj fs) e s k h = absurd (ground arith)

  pub price-Rewritten :
      (e : Event Num) (s : Tables Num)
      → e.event_type ≡ menu_price_change
      → (apply_menu_price_change N e s).0 ≡ ok tt
      → Rewritten e s.menu_items (apply_menu_price_change N e s).1.menu_items
  unfolding replay_menu
  price-Rewritten e s k h =
      let (i, p, x, r, item_is, price_is, amount_is, fine, row_is, menu) =
        price-inverts (get "menu_item_id" e.payload) e s refl h in
      record {
        id = i;
        row = record r { current_price = cents x };
        id_is = item_is;
        row_is = rw menu (
            own_row e.tenant_id i (λ q. record q { current_price = cents x }) s.menu_items r
              (λ q. refl) row_is);
        others = λ u j q found differs. rw menu (
            other_row e.tenant_id i u j (λ q. record q { current_price = cents x }) s.menu_items q
              (λ q. refl) found differs);
        price = λ m v g. inl (ground (arith, price_is, amount_is, k));
      }

  removed-inverts :
      (v : Value Num) (e : Event Num) (s : Tables Num)
      → get "menu_item_id" e.payload ≡ v
      → (apply_menu_item_removed N e s).0 ≡ ok tt
      → (i : String) × (r : MenuItem Num) × (get "menu_item_id" e.payload ≡ text i)
        × (find (is_menu_item e.tenant_id i) s.menu_items ≡ some r)
        × ((apply_menu_item_removed N e s).1.menu_items
            ≡ update (is_menu_item e.tenant_id i) (λ q. record q { active = false }) s.menu_items)
  unfolding apply_menu_item_removed
  removed-inverts (text i) e s k h =
      elim (Option-cases (find (is_menu_item e.tenant_id i) s.menu_items)) [
        | inl missing ↦ absurd (ground arith)
        | inr (r, row_is) ↦
            let passes = find_passes (is_menu_item e.tenant_id i) s.menu_items r row_is in
            let same_id : r.id ≡ i = ground (arith, eq_iff r.id i, passes) in
            (i, r, k, row_is, ground arith)
      ]
  removed-inverts null e s k h = absurd (ground arith)
  removed-inverts (bool b) e s k h = absurd (ground arith)
  removed-inverts (num x) e s k h = absurd (ground arith)
  removed-inverts (arr xs) e s k h = absurd (ground arith)
  removed-inverts (obj fs) e s k h = absurd (ground arith)

  pub removed-Rewritten :
      (e : Event Num) (s : Tables Num)
      → e.event_type ≡ menu_item_removed
      → (apply_menu_item_removed N e s).0 ≡ ok tt
      → Rewritten e s.menu_items (apply_menu_item_removed N e s).1.menu_items
  unfolding replay_menu
  removed-Rewritten e s k h =
      let (i, r, item_is, row_is, menu) =
        removed-inverts (get "menu_item_id" e.payload) e s refl h in
      record {
        id = i;
        row = record r { active = false };
        id_is = item_is;
        row_is = rw menu (
            own_row e.tenant_id i (λ q. record q { active = false }) s.menu_items r (λ q. refl)
              row_is);
        others = λ u j q found differs. rw menu (
            other_row e.tenant_id i u j (λ q. record q { active = false }) s.menu_items q
              (λ q. refl) found differs);
        price = λ m v g. inr (
          ground (arith, k),
          λ q found.
              let same : r ≡ q = ground (arith, row_is, found) in
              ap (λ z. z.current_price) (sym same),
        );
      }
