-- ===== src/ToolResult.antt =====
-- The result dictionaries of Component_4/tool_framework.py and Component_4/idempotency.py.
use restaurant_ops_copilot.Prelude.{ℕ, Bool, true, false, Option, none, some}
use restaurant_ops_copilot.Values.{Numbers}
use restaurant_ops_copilot.Policy.Numeric.{Reason}
use restaurant_ops_copilot.Policy.Risk.{RiskLevel}

-- `ActualOutcome.to_dict()`
pub record ActualOutcome (Num : Type 0) : Type 0 where
  pub margin_change_pct : Num
  pub demand_change_pct : Num

-- One constructor for each `return` of a dictionary, named for its `reason`.
pub data ToolResult (Num : Type 0) : Type 0 where
  unsupported_action : ToolResult Num
  held_low_confidence : ℕ → Num → ToolResult Num
  blocked_by_critic : ℕ → Reason Num → ToolResult Num
  pending_human_approval : ℕ → ℕ → RiskLevel → ToolResult Num
  executed_result : ℕ → Option Num → Option (ActualOutcome Num) → ToolResult Num
  concurrent_change_in_progress : ℕ → ToolResult Num
  request_in_progress previous_attempt_incomplete : ToolResult Num

-- `result["executed"]`
abbrev pub is_executed : {Num : Type 0} → ToolResult Num → Bool
is_executed (executed_result d c a) = true
is_executed _ = false

module _ (N : Numbers) where
  abbrev pub json_option : Option N.Num → Option N.Num
  json_option none = none
  json_option (some x) = some (N.json x)

  abbrev pub json_outcome : Option (ActualOutcome N.Num) → Option (ActualOutcome N.Num)
  json_outcome none = none
  json_outcome (some a) = some (record {
    margin_change_pct = N.json a.margin_change_pct;
    demand_change_pct = N.json a.demand_change_pct;
  })

  -- `_json_safe`: Decimals become floats
  unfoldable pub json_safe : ToolResult N.Num → ToolResult N.Num
  json_safe (held_low_confidence d c) = held_low_confidence d (N.json c)
  json_safe (executed_result d c a) = executed_result d (json_option c) (json_outcome a)
  json_safe r = r
