-- ===== src/EventStore/Replay/Menu/Refines.antt =====
-- The menu rows refine the replay of the log (`reconstruct_state_at` of Component_1/event_store.py).
use mathlib.Core.Path.{subst, sym}
use restaurant_ops_copilot.Prelude.{
  ℕ, ◌≡◌, refl, ap, ◌∙◌, String, true, false, some, List, ok, arith, inl, inr, Bool-cases, eq_iff,
  str_eq, find, find_passes, ◌==◌,
}
use restaurant_ops_copilot.Values.{
  Numbers, Value, text, get, EventType, menu_item_added, menu_item_removed, menu_price_change,
}
use restaurant_ops_copilot.EventStore.Tables.{Tables, Event, MenuItem, is_menu_item}
use restaurant_ops_copilot.EventStore.Handlers.{apply_to_current_state}
use restaurant_ops_copilot.EventStore.Handlers.Frame.{
  is_menu_event, apply_to_current_state-menu_items,
}
use restaurant_ops_copilot.EventStore.Handlers.Menu.{
  apply_menu_price_change, apply_menu_item_added, apply_menu_item_removed,
}
use restaurant_ops_copilot.EventStore.Replay.{
  Dict, look_up, change_at, MenuItemState, new_menu_item,
}
use restaurant_ops_copilot.EventStore.Replay.Step.{replay_menu}
use restaurant_ops_copilot.EventStore.Replay.Menu.{look_up-same, look_up-other, menu_step}
use restaurant_ops_copilot.EventStore.Replay.Menu.Rows.{
  Rewritten, stored_price, price-Rewritten, removed-Rewritten,
}
use restaurant_ops_copilot.EventStore.Replay.Menu.Added.{added-Rewritten}

module _ (N : Numbers) where
  open N use {Num}

  -- Every price of a replayed menu is the price of the tenant's row, once rounded as the row's
  -- column rounds it.
  abbrev pub Priced : ℕ → List (MenuItem Num) → Dict (MenuItemState Num) → Type 0
  Priced t rows d =
      (i : String) (m : MenuItemState Num)
      → look_up (some i) d ≡ some m
      → (v : Value Num) → m.current_price ≡ some v
      → (row : MenuItem Num) × (find (is_menu_item t i) rows ≡ some row)
        × (stored_price N v ≡ some row.current_price)

  -- a row of another id
  unlike_row :
      (t : ℕ) (i j : String) (rows : List (MenuItem Num)) (r : MenuItem Num)
      → find (is_menu_item t j) rows ≡ some r
      → str_eq i j ≡ false
      → is_menu_item t i r ≡ false
  unlike_row t i j rows r h differs =
      let passes = find_passes (is_menu_item t j) rows r h in
      let named : r.id ≡ j = ground (arith, eq_iff r.id j, passes) in
      let other : str_eq j i ≡ false = ground (arith, eq_iff i j, eq_iff j i, differs) in
      let unlike : str_eq r.id i ≡ false = rw named other in ground (arith, unlike)

  menu_step-item :
      (e : Event Num) (i : String) (d : Dict (MenuItemState Num))
      → is_menu_event e.event_type ≡ true
      → get "menu_item_id" e.payload ≡ text i
      → menu_step e d ≡ change_at (some i) new_menu_item (replay_menu e.event_type e.payload) d
  menu_step-item e i d h k = rw (h, k) refl

  own_item-Priced :
      (e : Event Num) (d : Dict (MenuItemState Num)) (rows after : List (MenuItem Num))
      (w : Rewritten N e rows after) (m : MenuItemState Num)
      → Priced e.tenant_id rows d
      → look_up
          (some w.id)
          (change_at (some w.id) new_menu_item (replay_menu e.event_type e.payload) d)
        ≡ some m
      → (v : Value Num) → m.current_price ≡ some v
      → (row : MenuItem Num) × (find (is_menu_item e.tenant_id w.id) after ≡ some row)
        × (stored_price N v ≡ some row.current_price)
  own_item-Priced e d rows after w m priced h v g =
      let (a, new, old) = look_up-same w.id new_menu_item (replay_menu e.event_type e.payload) d in
      let same : replay_menu e.event_type e.payload a ≡ m = ground (arith, new, h) in
      elim (w.price a v (ap (λ z. z.current_price) same ∙ g)) [
        | inl amount ↦ (w.row, w.row_is, amount)
        | inr (kept, price) ↦ elim old [
          | inl fresh ↦ absurd (ground (arith, kept, fresh))
          | inr present ↦
              let (r, r_is, amount) = priced w.id a present v kept in
              (w.row, w.row_is, amount ∙ ap some (price r r_is))
        ]
      ]

  menu_step-Priced :
      (e : Event Num) (d : Dict (MenuItemState Num)) (rows after : List (MenuItem Num))
      → is_menu_event e.event_type ≡ true
      → Rewritten N e rows after
      → Priced e.tenant_id rows d
      → Priced e.tenant_id after (menu_step e d)
  menu_step-Priced e d rows after h w priced j m found v g =
      let f = replay_menu e.event_type e.payload in
      let there : look_up (some j) (change_at (some w.id) new_menu_item f d) ≡ some m =
        sym (ap (look_up (some j)) (menu_step-item e w.id d h w.id_is)) ∙ found in
      elim (Bool-cases (str_eq w.id j)) [
        | inl named ↦
            let same : w.id ≡ j = ground (arith, eq_iff w.id j, named) in
            subst
              (λ i.
                (row : MenuItem Num) × (find (is_menu_item e.tenant_id i) after ≡ some row)
                × (stored_price N v ≡ some row.current_price))
              same
              (own_item-Priced e d rows after w m priced
                (subst (λ i. look_up (some i) (change_at (some w.id) new_menu_item f d) ≡ some m)
                  (sym same) there)
                v g)
        | inr differs ↦
            let (r, r_is, amount) =
              priced j m (sym (look_up-other w.id j new_menu_item f d differs) ∙ there) v g in
            (
              r,
              w.others e.tenant_id j r r_is (unlike_row e.tenant_id w.id j rows r r_is differs),
              amount,
            )
      ]

  -- An event of another tenant leaves the prices alone.
  foreign-Priced :
      (t : ℕ) (e : Event Num) (d : Dict (MenuItemState Num)) (rows after : List (MenuItem Num))
      → (e.tenant_id == t) ≡ false
      → Rewritten N e rows after
      → Priced t rows d
      → Priced t after d
  foreign-Priced t e d rows after h w priced j m found v g =
      let (r, r_is, amount) = priced j m found v g in
      let passes = find_passes (is_menu_item t j) rows r r_is in
      let missed : is_menu_item e.tenant_id w.id r ≡ false = ground (arith, passes) in
      (r, w.others t j r r_is missed, amount)

  applied-Rewritten :
      (k : EventType) (e : Event Num) (s : Tables Num)
      → e.event_type ≡ k
      → is_menu_event k ≡ true
      → (apply_to_current_state N e s).0 ≡ ok tt
      → Rewritten N e s.menu_items (apply_to_current_state N e s).1.menu_items
  unfolding apply_to_current_state
  applied-Rewritten menu_price_change e s h m done =
      let same : apply_to_current_state N e s ≡ apply_menu_price_change N e s = rw h refl in
      subst (λ r. Rewritten N e s.menu_items r.1.menu_items) (sym same)
        (price-Rewritten N e s h (sym (ap (λ r. r.0) same) ∙ done))
  applied-Rewritten menu_item_added e s h m done =
      let same : apply_to_current_state N e s ≡ apply_menu_item_added N e s = rw h refl in
      subst (λ r. Rewritten N e s.menu_items r.1.menu_items) (sym same)
        (added-Rewritten N e s h (sym (ap (λ r. r.0) same) ∙ done))
  applied-Rewritten menu_item_removed e s h m done =
      let same : apply_to_current_state N e s ≡ apply_menu_item_removed N e s = rw h refl in
      subst (λ r. Rewritten N e s.menu_items r.1.menu_items) (sym same)
        (removed-Rewritten N e s h (sym (ap (λ r. r.0) same) ∙ done))
  applied-Rewritten _ e s h m done = absurd (ground arith)

  -- Applying an event keeps the prices, where the event is the tenant's own and replayed as well.
  pub applied-Priced :
      (t : ℕ) (e : Event Num) (d : Dict (MenuItemState Num)) (s : Tables Num)
      → (apply_to_current_state N e s).0 ≡ ok tt
      → Priced t s.menu_items d
      → ((e.tenant_id ≡ t) → Priced t (apply_to_current_state N e s).1.menu_items (menu_step e d))
        × ((e.tenant_id == t) ≡ false → Priced t (apply_to_current_state N e s).1.menu_items d)
  applied-Priced t e d s done priced = elim (Bool-cases (is_menu_event e.event_type)) [
    | inl menu ↦
        let w = applied-Rewritten e.event_type e s refl menu done in
        (
          λ own.
              subst (λ u. Priced u (apply_to_current_state N e s).1.menu_items (menu_step e d)) own
                (menu_step-Priced e d s.menu_items (apply_to_current_state N e s).1.menu_items menu
                  w (subst (λ u. Priced u s.menu_items d) (sym own) priced)),
          λ foreign.
              foreign-Priced t e d s.menu_items (apply_to_current_state N e s).1.menu_items foreign
                w priced,
        )
    | inr other ↦
        let rows = apply_to_current_state-menu_items N e s other in
        let same : menu_step e d ≡ d = rw other refl in
        let still : Priced t (apply_to_current_state N e s).1.menu_items d =
          subst (λ r. Priced t r d) (sym rows) priced in
        (
          λ own. subst (Priced t (apply_to_current_state N e s).1.menu_items) (sym same) still,
          λ foreign. still,
        )
  ]
