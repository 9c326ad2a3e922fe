-- ===== src/EventStore/Append/Repriced.antt =====
-- What an accepted MENU_PRICE_CHANGE does to the menu (Component_1/event_store.py).
use mathlib.Core.Path.{subst}
use restaurant_ops_copilot.Prelude.{
  ℕ, String, ◌≡◌, refl, ◌∙◌, false, some, List, [], ◌∷◌, ◌++◌, ok, arith, Result-cases,
  Option-cases, inl, inr, find, find_passes, find-update-some, update,
}
use restaurant_ops_copilot.Values.{Numbers, Value, text, Payload, entry, get, menu_price_change}
use restaurant_ops_copilot.EventStore.Tables.{Tables, Event, MenuItem, is_menu_item}
use restaurant_ops_copilot.EventStore.Handlers.{apply_to_current_state}
use restaurant_ops_copilot.EventStore.Handlers.Menu.{apply_menu_price_change}
use restaurant_ops_copilot.EventStore.Replay.Menu.Rows.{price-inverts}
use restaurant_ops_copilot.EventStore.Append.{
  Digest, new_event, head_hash, tenant_events, append_event,
}

module _ (N : Numbers) where
  open N use {Num, hundredths, decimal, lt, cents}

  -- The tenant's item `i` is repriced to `price` in cents, and every other item keeps its row.
  pub record Repriced (t : ℕ) (item : Value Num) (price : Value Num)
      (before after : List (MenuItem Num)) : Type 0 where
    pub id : String
    pub row : MenuItem Num
    pub amount : Num
    pub item_is : item ≡ text id
    pub amount_is : decimal price ≡ some amount
    pub not_negative : lt amount (hundredths 0) ≡ false
    pub row_is : find (is_menu_item t id) before ≡ some row
    pub repriced :
        find (is_menu_item t id) after ≡ some (record row { current_price = cents amount })
    pub others :
        (u : ℕ) (j : String)
        → (r : MenuItem Num) → find (is_menu_item u j) before ≡ some r
        → is_menu_item t id r ≡ false
        → find (is_menu_item u j) after ≡ some r

  abbrev at_price : Num → MenuItem Num → MenuItem Num
  at_price x q = record q { current_price = cents x }

  given :
      (p : Payload Num) (i : String)
      → get "menu_item_id" p ≡ text i
      → entry "menu_item_id" p ≡ some (text i)
  given p i h = elim (Option-cases (entry "menu_item_id" p)) [
    | inl missing ↦ absurd (ground arith)
    | inr (v, found) ↦ ground arith
  ]

  repriced_row :
      (t : ℕ) (i : String) (x : Num) (rows after : List (MenuItem Num)) (r : MenuItem Num)
      → after ≡ update (is_menu_item t i) (at_price x) rows
      → find (is_menu_item t i) rows ≡ some r
      → find (is_menu_item t i) after ≡ some (at_price x r)
  repriced_row t i x rows after r e h = rw e (
      find-update-some (is_menu_item t i) (is_menu_item t i) (at_price x) rows r (λ q. refl) h
      ∙ rw (find_passes (is_menu_item t i) rows r h) refl)

  other_row :
      (t : ℕ) (i : String) (x : Num) (u : ℕ) (j : String) (rows after : List (MenuItem Num))
      (r : MenuItem Num)
      → after ≡ update (is_menu_item t i) (at_price x) rows
      → find (is_menu_item u j) rows ≡ some r
      → is_menu_item t i r ≡ false
      → find (is_menu_item u j) after ≡ some r
  other_row t i x u j rows after r e h other = rw e (
      find-update-some (is_menu_item t i) (is_menu_item u j) (at_price x) rows r (λ q. refl) h
      ∙ rw other refl)

  pub handler-Repriced :
      (e : Event Num) (s : Tables Num)
      → (apply_menu_price_change N e s).0 ≡ ok tt
      → (item : Value Num) × (price : Value Num) × (entry "menu_item_id" e.payload ≡ some item)
        × (entry "new_price" e.payload ≡ some price)
        × Repriced e.tenant_id item price s.menu_items (apply_menu_price_change N e s).1.menu_items
  handler-Repriced e s done =
      let (i, p, x, r, item_is, price_is, amount_is, fine, row_is, menu) =
        price-inverts N (get "menu_item_id" e.payload) e s refl done in
      (
        text i,
        p,
        given e.payload i item_is,
        price_is,
        record {
          id = i;
          row = r;
          amount = x;
          item_is = refl;
          amount_is = amount_is;
          not_negative = fine;
          row_is = row_is;
          repriced = repriced_row e.tenant_id i x s.menu_items _ r menu row_is;
          others =
              λ u j q found other. other_row e.tenant_id i x u j s.menu_items _ q menu found other;
        },
      )

module _ (N : Numbers) (d : Digest N.Num) where
  open N use {Num}

  -- An accepted MENU_PRICE_CHANGE, whatever its payload, names an item of the tenant and a decimal
  -- price that is not negative; in the same transaction as the event, that item's current price has
  -- become that price as its column rounds it to cents, nothing else of its row has changed, and every
  -- other row is found as before.
  pub price_event_reprices :
      (id now t : ℕ) (p : Payload Num) (source : String) (s s' : Tables Num) (ev : Event Num)
      → append_event N d id now t menu_price_change p source s ≡ (ok ev, s')
      → (item : Value Num) × (price : Value Num) × (entry "menu_item_id" p ≡ some item)
        × (entry "new_price" p ≡ some price)
        × Repriced N t item price s.menu_items s'.menu_items
  unfolding append_event apply_to_current_state
  price_event_reprices id now t p source s s' ev h =
      let e : Event Num =
        new_event N d id now t menu_price_change p source (head_hash (tenant_events t s)) in
      let s1 : Tables Num = record s { events = s.events ++ e ∷ [] } in
      elim (Result-cases (apply_menu_price_change N e s1).0) [
        | inr (x, refused) ↦ absurd (ground arith)
        | inl (tt, ran) ↦
            let same : (apply_menu_price_change N e s1).1.menu_items ≡ s'.menu_items =
              ground arith in
            let (item, price, item_is, price_is, written) = handler-Repriced N e s1 ran in
            (
              item,
              price,
              item_is,
              price_is,
              subst (Repriced N t item price s.menu_items) same written,
            )
      ]
