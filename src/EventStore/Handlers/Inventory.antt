-- ===== src/EventStore/Handlers/Inventory.antt =====
-- Stockouts, restocks, adjustments and waste.
use restaurant_ops_copilot.Prelude.{
  ℕ, String, none, some, Result, ok, err, ◌∷◌, [], ◌++◌, Exec, lift, gets, modify, or_raise, ◌>>=◌,
  ◌>>◌, invalid_event, invalid_operation, find, update,
}
use restaurant_ops_copilot.Values.{Numbers, Value, Payload, entry}
use restaurant_ops_copilot.EventStore.Tables.{
  Tables, Event, Ingredient, waste, id_of, require_payload_field, is_ingredient, is_inventory,
  get_ingredient, to_decimal, reject_negative, reject_not_positive,
}

module _ (N : Numbers) where
  open N use {Num, hundredths, add, sub, str_of, ten_thousandths}

  abbrev write_inventory : ℕ → String → Num → ℕ → Tables Num → Tables Num
  write_inventory t i q now s = record s {
    inventory = elim (find (is_inventory t i) s.inventory) [
      | none ↦
          s.inventory
          ++ record {
            tenant_id = t;
            ingredient_id = i;
            quantity = ten_thousandths q;
            updated_at = now;
          }
            ∷ []
      | some r ↦
          update (is_inventory t i)
            (λ r. record r { quantity = ten_thousandths q; updated_at = now }) s.inventory
    ];
  }

  -- `_update_inventory_projection`
  update_inventory_projection : ℕ → Value Num → Num → ℕ → Exec (Tables Num) (Unit {0})
  unfolding get_ingredient
  update_inventory_projection t v q now = do
    get_ingredient t v
    i ← lift (id_of v)
    modify (write_inventory t i q now)

  -- `ingredient.current_stock_level = q`
  abbrev write_stock : ℕ → Ingredient Num → Num → Tables Num → Tables Num
  write_stock t r q s = record s {
    ingredients =
        update (is_ingredient t r.id) (λ x. record x { current_stock_level = ten_thousandths q })
          s.ingredients;
  }

  -- the quantity of the projection, or the ingredient's own
  current_quantity : ℕ → Ingredient Num → Tables Num → Num
  current_quantity t r s = elim (find (is_inventory t r.id) s.inventory) [
    | none ↦ r.current_stock_level
    | some level ↦ level.quantity
  ]

  -- `_apply_stockout`
  unfoldable pub apply_stockout : Event Num → Exec (Tables Num) (Unit {0})
  unfolding update_inventory_projection require_payload_field
  apply_stockout e = do
    i ← lift (require_payload_field e.payload "ingredient_id")
    update_inventory_projection e.tenant_id i (hundredths 0) e.timestamp
    r ← get_ingredient e.tenant_id i
    modify (write_stock e.tenant_id r (hundredths 0))

  -- `_apply_restock`
  unfoldable pub apply_restock : Event Num → Exec (Tables Num) (Unit {0})
  unfolding update_inventory_projection require_payload_field to_decimal reject_negative
  apply_restock e = do
    i ← lift (require_payload_field e.payload "ingredient_id")
    v ← lift (require_payload_field e.payload "new_stock_level")
    q ← lift (to_decimal N v)
    lift (reject_negative N q)
    update_inventory_projection e.tenant_id i q e.timestamp
    r ← get_ingredient e.tenant_id i
    modify (write_stock e.tenant_id r q)

  -- the absolute level where it is given, else the delta on the current one
  adjusted : Payload Num → Num → Result Num
  unfolding to_decimal
  adjusted p current = elim (entry "new_stock_level" p) [
    | some v ↦ to_decimal N v
    | none ↦ elim (entry "stock_delta" p) [
      | none ↦ err invalid_event
      | some v ↦ elim (to_decimal N v) [
        | ok d ↦ or_raise (add current d) invalid_operation
        | err x ↦ err x
      ]
    ]
  ]

  -- `_apply_inventory_adjustment`
  unfoldable pub apply_inventory_adjustment : Event Num → Exec (Tables Num) (Unit {0})
  unfolding update_inventory_projection require_payload_field adjusted current_quantity
      reject_negative
  apply_inventory_adjustment e = do
    i ← lift (require_payload_field e.payload "ingredient_id")
    r ← get_ingredient e.tenant_id i
    current ← gets (current_quantity e.tenant_id r)
    q ← lift (adjusted e.payload current)
    lift (reject_negative N q)
    update_inventory_projection e.tenant_id i q e.timestamp
    modify (write_stock e.tenant_id r q)

  -- `_apply_waste`
  unfoldable pub apply_waste : Event Num → Exec (Tables Num) (Unit {0})
  unfolding update_inventory_projection require_payload_field current_quantity to_decimal
      reject_negative reject_not_positive
  apply_waste e = do
    i ← lift (require_payload_field e.payload "ingredient_id")
    v ← lift (require_payload_field e.payload "quantity")
    lost ← lift (to_decimal N v)
    reason ← lift (require_payload_field e.payload "reason")
    lift (reject_not_positive N lost)
    r ← get_ingredient e.tenant_id i
    current ← gets (current_quantity e.tenant_id r)
    q ← lift (or_raise (sub current lost) invalid_operation)
    lift (reject_negative N q)
    modify (λ s. record s {
      history =
          s.history
          ++ waste e.tenant_id r.id (ten_thousandths lost) (str_of reason) e.timestamp ∷ [];
    })
    update_inventory_projection e.tenant_id i q e.timestamp
    modify (write_stock e.tenant_id r q)
