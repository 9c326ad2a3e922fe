-- ===== src/Tools/Apply.antt =====
-- The event that an executed action becomes (`_apply_state_change` of Component_4/tool_framework.py).
use restaurant_ops_copilot.Prelude.{
  ℕ, String, Bool, false, [], ◌∷◌, ◌++◌, Result, ok, err, or_raise, str_eq, if◌then◌else◌,
  key_error, unsupported_action,
}
use restaurant_ops_copilot.Prelude.Fallible.{◌>>=◌}
use restaurant_ops_copilot.Values.{
  Numbers, Value, text, Payload, entry, get, ActionType, price_change, supplier_switch, menu_swap,
  staffing_change, EventType, menu_price_change, supplier_price_change, menu_item_removed,
  staffing_change_event,
}
use restaurant_ops_copilot.EventStore.Tables.{Tables}
use restaurant_ops_copilot.Tools.Resolve.{resolve_supplier_sku_id, resolve_staffing_event_payload}

module _ {Num : Type 0} where
  -- `payload[k]`
  abbrev pub required : String → Payload Num → Result (Value Num)
  required k p = or_raise (entry k p) key_error

  -- `payload.get("action") == "remove"`
  unfoldable pub is_text : String → Value Num → Bool
  is_text s (text i) = str_eq i s
  is_text s _ = false

module _ (N : Numbers) where
  open N use {Num}

  -- the event's type and payload
  unfoldable pub state_change_event :
      ℕ → ActionType → Payload Num → Tables Num → Result (EventType × Payload Num)
  unfolding is_text
  state_change_event t price_change p s = do
    i ← required "menu_item_id" p
    x ← required "new_price" p
    ok (menu_price_change, ("menu_item_id", i) ∷ ("new_price", x) ∷ [])
  state_change_event t supplier_switch p s = do
    sku ← resolve_supplier_sku_id t p s
    i ← required "ingredient_id" p
    x ← required "new_supplier_price" p
    ok (
      supplier_price_change,
      ("supplier_sku_id", text sku) ∷ ("ingredient_id", i) ∷ ("new_price", x) ∷ [],
    )
  state_change_event t menu_swap p s =
      if is_text "remove" (get "action" p)
      then (do i ← required "menu_item_id" p; ok (menu_item_removed, ("menu_item_id", i) ∷ []))
      else err unsupported_action
  state_change_event t staffing_change p s = do
    q ← resolve_staffing_event_payload N t p s
    d ← required "headcount_delta" p
    ok (staffing_change_event, q ++ ("headcount_delta", d) ∷ [])
