-- ===== src/EventStore/Replay/Menu.antt =====
-- The menu that a replay of Component_1/event_store.py finds, as a fold over the events, and what
-- the handlers write.
pub mod Rows
pub mod Added
pub mod Refines
pub mod Reachable
use mathlib.Core.Path.{subst, sym}
use restaurant_ops_copilot.Prelude.{
  ℕ, ◌≡◌, refl, ap, ◌∙◌, String, Bool, true, false, Option, none, some, List, [], ◌∷◌, ◌++◌, Result,
  ok, err, arith, ◌⊎◌, inl, inr, Result-cases, Option-cases, Bool-cases, eq_iff, str_eq,
  if◌then◌else◌,
}
use restaurant_ops_copilot.Prelude.Fallible.{◌>>=◌}
use restaurant_ops_copilot.Values.{
  Numbers, Value, null, bool, num, text, arr, obj, Payload, get, EventType, supplier_price_change,
  supplier_switch_event, stockout, restock, inventory_adjustment, waste_recorded, demand_spike,
  order_recorded, menu_item_added, menu_item_removed, menu_price_change, staffing_change_event,
  invoice_recorded,
}
use restaurant_ops_copilot.EventStore.Tables.{Event, SupplierSku}
use restaurant_ops_copilot.EventStore.Handlers.Frame.{is_menu_event}
use restaurant_ops_copilot.EventStore.Replay.{
  Dict, same_id, look_up, change_at, key_of, MenuItemState, ReplayState, new_menu_item,
}
use restaurant_ops_copilot.EventStore.Replay.Step.{
  price_ingredient, replay_supplier_price, replay_supplier_switch, replay_menu, replay_item,
  replay_staffing, replay_waste, write_level, replay_inventory, replay_as, replay_all,
}

module _ {A : Type 0} where
  pub look_up-same :
      (i : String) (default : A) (f : A → A) (d : Dict A)
      → (a : A) × (look_up (some i) (change_at (some i) default f d) ≡ some (f a))
        × ((a ≡ default) ⊎ (look_up (some i) d ≡ some a))
  unfolding look_up change_at
  look_up-same i default f [] = (default, ground (arith, eq_iff i i), inl refl)
  look_up-same i default f ((j, b) ∷ d) = elim (Bool-cases (same_id j (some i))) [
    | inl found ↦ (b, rw found (ground (arith, found)), inr (rw found refl))
    | inr other ↦
        let (a, new, old) = look_up-same i default f d in
        (a, ground (arith, other, new), elim old [ inl e ↦ inl e | inr e ↦ inr (rw other e) ])
  ]

  pub look_up-other :
      (i j : String) (default : A) (f : A → A) (d : Dict A)
      → str_eq i j ≡ false
      → look_up (some j) (change_at (some i) default f d) ≡ look_up (some j) d
  unfolding look_up change_at
  look_up-other i j default f [] h = ground arith
  look_up-other i j default f ((none, b) ∷ d) h = ground (arith, look_up-other i j default f d h)
  look_up-other i j default f ((some k, b) ∷ d) h = elim (Bool-cases (str_eq k i)) [
    | inl found ↦
        let same : k ≡ i = ground (arith, eq_iff k i) in
        let differs : str_eq k j ≡ false = rw same h in ground (arith, found, differs)
    | inr other ↦ ground (arith, other, look_up-other i j default f d h)
  ]

module _ {Num : Type 0} where
  -- the menu after an event for an item
  abbrev change_item :
      Event Num → Option String → Dict (MenuItemState Num) → Dict (MenuItemState Num)
  change_item e none d = d
  change_item e (some i) d = change_at (some i) new_menu_item (replay_menu e.event_type e.payload) d

  abbrev item_key : Value Num → Option String
  item_key (text i) = some i
  item_key _ = none

  -- the menu after one event
  abbrev pub menu_step : Event Num → Dict (MenuItemState Num) → Dict (MenuItemState Num)
  menu_step e d =
      if is_menu_event e.event_type
      then change_item e (item_key (get "menu_item_id" e.payload)) d
      else d

  abbrev pub menu_after : List (Event Num) → Dict (MenuItemState Num) → Dict (MenuItemState Num)
  menu_after [] d = d
  menu_after (e ∷ es) d = menu_after es (menu_step e d)

  pub menu_after-append :
      (es : List (Event Num)) (e : Event Num) (d : Dict (MenuItemState Num))
      → menu_after (es ++ e ∷ []) d ≡ menu_step e (menu_after es d)
  menu_after-append [] e d = refl
  menu_after-append (x ∷ es) e d = menu_after-append es e (menu_step x d)

module _ (N : Numbers) where
  open N use {Num}

  replay_item-menu_items :
      (e : Event Num) (v : Value Num) (k : Option String) (s : ReplayState Num)
      → key_of v ≡ ok k
      → (replay_item e k s).menu_items ≡ change_item e (item_key v) s.menu_items
  unfolding replay_item
  replay_item-menu_items e null k s h =
      let same : none ≡ k = ground arith in
      subst (λ x. (replay_item e x s).menu_items ≡ s.menu_items) same refl
  replay_item-menu_items e (text i) k s h =
      let same : some i ≡ k = ground arith in
      subst (λ x. (replay_item e x s).menu_items ≡ change_item e (some i) s.menu_items) same refl
  replay_item-menu_items e (bool b) k s h = absurd (ground arith)
  replay_item-menu_items e (num x) k s h = absurd (ground arith)
  replay_item-menu_items e (arr vs) k s h = absurd (ground arith)
  replay_item-menu_items e (obj fs) k s h = absurd (ground arith)

  menu_event-menu_items :
      (e : Event Num) (s s' : ReplayState Num)
      → is_menu_event e.event_type ≡ true
      → key_of (get "menu_item_id" e.payload) >>= (λ k. ok (replay_item e k s)) ≡ ok s'
      → s'.menu_items ≡ menu_step e s.menu_items
  menu_event-menu_items e s s' m h = elim (Result-cases (key_of (get "menu_item_id" e.payload))) [
    | inr (x, broken) ↦ absurd (ground arith)
    | inl (k, keyed) ↦
        let same : replay_item e k s ≡ s' = ground arith in
        rw m (
          sym (ap (λ x. x.menu_items) same)
          ∙ replay_item-menu_items e (get "menu_item_id" e.payload) k s keyed)
  ]

  other_event-menu_items :
      (e : Event Num) (s s' : ReplayState Num)
      → is_menu_event e.event_type ≡ false
      → s'.menu_items ≡ s.menu_items
      → s'.menu_items ≡ menu_step e s.menu_items
  other_event-menu_items e s s' m h = rw m h

  supplier-menu_items :
      (t : ℕ) (skus : List SupplierSku) (e : Event Num) (k : Option String) (s : ReplayState Num)
      → (replay_supplier_price t skus e k s).menu_items ≡ s.menu_items
  unfolding replay_supplier_price price_ingredient
  supplier-menu_items t skus e k s = ground arith

  staffing-menu_items :
      (x y : Value Num) (e : Event Num) (s : ReplayState Num)
      → (replay_staffing N x y e s).menu_items ≡ s.menu_items
  unfolding replay_staffing
  staffing-menu_items x y e s = ground arith

  inventory-menu_items :
      (e : Event Num) (k : Option String) (s s' : ReplayState Num)
      → replay_inventory N e k s ≡ ok s'
      → s'.menu_items ≡ s.menu_items
  unfolding replay_inventory write_level replay_waste
  inventory-menu_items e none s s' h = ground arith
  inventory-menu_items e (some i) s s' h = ground arith

  keyed-menu_items :
      (e : Event Num) (s s' : ReplayState Num)
      → key_of (get "ingredient_id" e.payload) >>= (λ k. replay_inventory N e k s) ≡ ok s'
      → s'.menu_items ≡ s.menu_items
  keyed-menu_items e s s' h = elim (Result-cases (key_of (get "ingredient_id" e.payload))) [
    | inr (x, broken) ↦ absurd (ground arith)
    | inl (k, keyed) ↦ inventory-menu_items e k s s' (ground arith)
  ]

  replay_as-kind :
      (k : EventType) (t : ℕ) (skus : List SupplierSku) (e : Event Num) (s s' : ReplayState Num)
      → e.event_type ≡ k
      → replay_as N k t skus e s ≡ ok s'
      → s'.menu_items ≡ menu_step e s.menu_items
  unfolding replay_as replay_supplier_switch
  replay_as-kind menu_price_change t skus e s s' m h = menu_event-menu_items e s s' (rw m refl) h
  replay_as-kind menu_item_added t skus e s s' m h = menu_event-menu_items e s s' (rw m refl) h
  replay_as-kind menu_item_removed t skus e s s' m h = menu_event-menu_items e s s' (rw m refl) h
  replay_as-kind order_recorded t skus e s s' m h =
      other_event-menu_items e s s' (rw m refl) (ground arith)
  replay_as-kind invoice_recorded t skus e s s' m h =
      other_event-menu_items e s s' (rw m refl) (ground arith)
  replay_as-kind demand_spike t skus e s s' m h =
      other_event-menu_items e s s' (rw m refl) (ground arith)
  replay_as-kind staffing_change_event t skus e s s' m h =
      other_event-menu_items e s s' (rw m refl) (
        ground
          (arith, staffing-menu_items (get "role" e.payload) (get "day_of_week" e.payload) e s))
  replay_as-kind supplier_price_change t skus e s s' m h =
      elim (Result-cases (key_of (get "supplier_sku_id" e.payload))) [
        | inr (x, broken) ↦ absurd (ground arith)
        | inl (k, keyed) ↦
            other_event-menu_items e s s' (rw m refl)
              (ground (arith, supplier-menu_items t skus e k s))
      ]
  replay_as-kind supplier_switch_event t skus e s s' m h =
      other_event-menu_items e s s' (rw m refl) (ground arith)
  replay_as-kind stockout t skus e s s' m h =
      other_event-menu_items e s s' (rw m refl) (keyed-menu_items e s s' h)
  replay_as-kind restock t skus e s s' m h =
      other_event-menu_items e s s' (rw m refl) (keyed-menu_items e s s' h)
  replay_as-kind inventory_adjustment t skus e s s' m h =
      other_event-menu_items e s s' (rw m refl) (keyed-menu_items e s s' h)
  replay_as-kind waste_recorded t skus e s s' m h =
      other_event-menu_items e s s' (rw m refl) (keyed-menu_items e s s' h)

  -- One event replayed changes the menu as the fold does.
  replay_as-menu_items :
      (t : ℕ) (skus : List SupplierSku) (e : Event Num) (s s' : ReplayState Num)
      → replay_as N e.event_type t skus e s ≡ ok s'
      → s'.menu_items ≡ menu_step e s.menu_items
  replay_as-menu_items t skus e s s' h = replay_as-kind e.event_type t skus e s s' refl h

  pub replay_all-menu_items :
      (t : ℕ) (skus : List SupplierSku) (es : List (Event Num)) (s s' : ReplayState Num)
      → replay_all N t skus es s ≡ ok s'
      → s'.menu_items ≡ menu_after es s.menu_items
  unfolding replay_all
  replay_all-menu_items t skus [] s s' h = ground arith
  replay_all-menu_items t skus (e ∷ es) s s' h =
      elim (Result-cases (replay_as N e.event_type t skus e s)) [
        | inr (x, failed) ↦ absurd (ground arith)
        | inl (next, replayed) ↦
            replay_all-menu_items t skus es next s' (ground arith)
            ∙ ap (menu_after es) (replay_as-menu_items t skus e s next replayed)
      ]
