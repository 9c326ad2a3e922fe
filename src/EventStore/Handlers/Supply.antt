-- ===== src/EventStore/Handlers/Supply.antt =====
-- Supplier prices and supplier switches.
use restaurant_ops_copilot.Prelude.{some, ◌∷◌, [], ◌++◌, Exec, lift, modify, ◌>>=◌, ◌>>◌, update}
use restaurant_ops_copilot.Values.{Numbers, text}
use restaurant_ops_copilot.EventStore.Tables.{
  Tables, Event, supplier_price, require_payload_field, is_ingredient, get_ingredient, get_supplier,
  get_supplier_sku, to_decimal, reject_negative,
}

module _ (N : Numbers) where
  open N use {Num, cents}

  -- `_apply_supplier_price_change`
  unfoldable pub apply_supplier_price_change : Event Num → Exec (Tables Num) (Unit {0})
  unfolding require_payload_field to_decimal reject_negative get_supplier_sku get_ingredient
  apply_supplier_price_change e = do
    k ← lift (require_payload_field e.payload "supplier_sku_id")
    v ← lift (require_payload_field e.payload "new_price")
    price ← lift (to_decimal N v)
    lift (reject_negative N price)
    sku ← get_supplier_sku e.tenant_id k
    modify (λ s. record s {
      history = s.history ++ supplier_price e.tenant_id sku.id (cents price) e.timestamp ∷ [];
    })
    r ← get_ingredient e.tenant_id (text sku.ingredient_id)
    modify (λ s. record s {
      ingredients =
          update (is_ingredient e.tenant_id r.id) (λ x. record x { current_price = cents price })
            s.ingredients;
    })

  -- `_apply_supplier_switch`
  unfoldable pub apply_supplier_switch : Event Num → Exec (Tables Num) (Unit {0})
  unfolding require_payload_field get_supplier get_ingredient
  apply_supplier_switch e = do
    i ← lift (require_payload_field e.payload "ingredient_id")
    k ← lift (require_payload_field e.payload "new_supplier_id")
    supplier ← get_supplier e.tenant_id k
    r ← get_ingredient e.tenant_id i
    modify (λ s. record s {
      ingredients =
          update (is_ingredient e.tenant_id r.id)
            (λ x. record x { current_supplier_id = some supplier.id }) s.ingredients;
    })
