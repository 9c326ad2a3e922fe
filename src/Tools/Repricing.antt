-- ===== src/Tools/Repricing.antt =====
-- What an executed action of Component_4/tool_framework.py has done to the menu.
use restaurant_ops_copilot.Prelude.{ℕ, ◌≡◌, ◌∙◌, ap, true, some, [], ◌∷◌, arith}
use restaurant_ops_copilot.Values.{Numbers, Value, Payload, entry, ActionType}
use restaurant_ops_copilot.EventStore.Append.{Digest}
use restaurant_ops_copilot.EventStore.Append.Repriced.{Repriced, price_event_reprices}
use restaurant_ops_copilot.Tools.{Store, Surroundings}
use restaurant_ops_copilot.Tools.Calls.{execute_tool_call}
use restaurant_ops_copilot.Tools.Gates.{has_executed}
use restaurant_ops_copilot.Tools.Executed.{executed_through_gates}

module _ (N : Numbers) (digest : Digest N.Num) where
  open N use {Num}

  -- When `execute_tool_call` returns `executed` true, the payload names an item of the tenant and a
  -- non-negative decimal price, that item's current price is now that price as its column rounds it to
  -- cents, with the rest of its row unchanged, and every other menu row is found as before.
  pub executed_reprices :
      (w : Surroundings Num) (t : ℕ) (a : ActionType) (p : Payload Num) (s : Store Num)
      → has_executed (execute_tool_call N digest w t a p s).0 ≡ true
      → (item : Value Num) × (price : Value Num) × (entry "menu_item_id" p ≡ some item)
        × (entry "new_price" p ≡ some price)
        × Repriced N t item price s.world.menu_items
            (execute_tool_call N digest w t a p s).1.world.menu_items
  executed_reprices w t a p s h =
      let c = (executed_through_gates N digest w t a p s h).written in
      let (item, price, item_is, price_is, written) =
        price_event_reprices N digest w.event_id w.now t
          (("menu_item_id", c.item) ∷ ("new_price", c.price) ∷ []) "agent_action" s.world _ c.event
          c.appended in
      let same_item : c.item ≡ item = ground arith in
      let same_price : c.price ≡ price = ground arith in
      (item, price, c.item_is ∙ ap some same_item, c.price_is ∙ ap some same_price, written)
