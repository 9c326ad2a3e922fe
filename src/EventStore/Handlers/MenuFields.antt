-- ===== src/EventStore/Handlers/MenuFields.antt =====
-- The payload of a new menu item (`_apply_menu_item_added` of Component_1/event_store.py).
use restaurant_ops_copilot.Prelude.{
  String, Bool, true, Option, none, some, Result, ok, err, invalid_event,
}
use restaurant_ops_copilot.Prelude.Fallible.{◌>>=◌}
use restaurant_ops_copilot.Values.{Numbers, Value, bool, Payload, entry}
use restaurant_ops_copilot.EventStore.Tables.{
  id_of, require_payload_field, to_decimal, reject_negative,
}

module _ (N : Numbers) where
  open N use {Num, str_of}

  -- `payload.get("active", True)`, which has to be a bool
  active_field : Option (Value Num) → Result Bool
  active_field none = ok true
  active_field (some (bool b)) = ok b
  active_field (some _) = err invalid_event

  -- the validated fields: id, name, price and whether the item is active
  unfoldable pub item_fields : Payload Num → Result (String × String × Num × Bool)
  unfolding require_payload_field to_decimal reject_negative active_field
  item_fields p = do
    v ← require_payload_field p "menu_item_id"
    name ← require_payload_field p "name"
    x ← require_payload_field p "current_price"
    price ← to_decimal N x
    checked ← elim (reject_negative N price) [ ok u ↦ ok price | err e ↦ err e ]
    active ← active_field (entry "active" p)
    i ← id_of v
    ok (i, str_of name, checked, active)
