-- ===== src/EventStore/Handlers/Menu.antt =====
-- Menu items: added, removed, repriced.
use restaurant_ops_copilot.Prelude.{
  ℕ, String, Bool, true, false, none, some, ◌∷◌, [], ◌++◌, Exec, lift, gets, modify, ◌>>=◌, ◌>>◌,
  event_store, raise_if, str_eq, find, update,
}
use restaurant_ops_copilot.Values.{Numbers}
use restaurant_ops_copilot.EventStore.Handlers.MenuFields.{item_fields}
use restaurant_ops_copilot.EventStore.Tables.{
  Tables, Event, MenuItem, require_payload_field, is_menu_item, get_menu_item, to_decimal,
  reject_negative,
}

module _ (N : Numbers) where
  open N use {Num, str_of, cents}

  abbrev rewrite_item : ℕ → String → (MenuItem Num → MenuItem Num) → Tables Num → Tables Num
  rewrite_item t i f s = record s { menu_items = update (is_menu_item t i) f s.menu_items }

  -- `_apply_menu_price_change`
  unfoldable pub apply_menu_price_change : Event Num → Exec (Tables Num) (Unit {0})
  unfolding require_payload_field to_decimal reject_negative get_menu_item
  apply_menu_price_change e = do
    i ← lift (require_payload_field e.payload "menu_item_id")
    v ← lift (require_payload_field e.payload "new_price")
    price ← lift (to_decimal N v)
    lift (reject_negative N price)
    item ← get_menu_item e.tenant_id i
    modify (rewrite_item e.tenant_id item.id (λ r. record r { current_price = cents price }))

  abbrev add_item : ℕ → String → String → Num → Bool → Tables Num → Tables Num
  add_item t i name price active s = elim (find (is_menu_item t i) s.menu_items) [
    | none ↦ record s {
      menu_items =
          s.menu_items
          ++ record {
            tenant_id = t;
            id = i;
            name = name;
            current_price = cents price;
            active = active;
          }
            ∷ [];
    }
    | some r ↦
        rewrite_item t i
          (λ r. record r { name = name; current_price = cents price; active = active }) s
  ]

  -- `id` is the primary key of the table: a row of another tenant with that id refuses the insert
  taken_elsewhere : ℕ → String → Tables Num → Bool
  taken_elsewhere t i s = elim (find (is_menu_item t i) s.menu_items) [
    | some r ↦ false
    | none ↦ elim (find (λ r. str_eq r.id i) s.menu_items) [ none ↦ false | some r ↦ true ]
  ]

  -- the query for the existing row, and the insert or the update
  unfoldable pub put_item : ℕ → String × String × Num × Bool → Exec (Tables Num) (Unit {0})
  unfolding taken_elsewhere
  put_item t f = do
    clash ← gets (taken_elsewhere t f.0)
    raise_if clash event_store
    modify (add_item t f.0 f.1 f.2 f.3)

  -- `_apply_menu_item_added`
  unfoldable pub apply_menu_item_added : Event Num → Exec (Tables Num) (Unit {0})
  apply_menu_item_added e = do f ← lift (item_fields N e.payload); put_item e.tenant_id f

  -- `_apply_menu_item_removed`
  unfoldable pub apply_menu_item_removed : Event Num → Exec (Tables Num) (Unit {0})
  unfolding require_payload_field get_menu_item
  apply_menu_item_removed e = do
    i ← lift (require_payload_field e.payload "menu_item_id")
    item ← get_menu_item e.tenant_id i
    modify (rewrite_item e.tenant_id item.id (λ r. record r { active = false }))
