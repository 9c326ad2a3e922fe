-- ===== src/Tools/Audit.antt =====
-- The action log that Component_4/tool_framework.py writes, against the promises of
-- Component_4/tool_models.py.
use restaurant_ops_copilot.Prelude.{
  ℕ, ◌≡◌, Bool, true, Option, List, [], ◌∷◌, ◌++◌, Result, ok, err,
}
use restaurant_ops_copilot.Values.{Numbers, Payload, ActionType}
use restaurant_ops_copilot.EventStore.Append.{Digest}
use restaurant_ops_copilot.ToolResult.{ToolResult, is_executed}
use restaurant_ops_copilot.Tools.{
  ToolExecutionLog, LogReason, tool_category_by_action, executed_requires_gates,
}

module _ (N : Numbers) (digest : Digest N.Num) where
  open N use {Num}

  -- How the log grows: by one faithful row for a result, by nothing for an exception.
  unfoldable pub Logged :
      ℕ
      → Result (ToolResult Num)
      → List (ToolExecutionLog Num)
      → List (ToolExecutionLog Num)
      → Type 0
  Logged t (ok r) before after =
      (e : ToolExecutionLog Num) × (after ≡ before ++ e ∷ [])
      × (e.tenant_id ≡ t)
      × (e.executed ≡ is_executed r)
      × (executed_requires_gates e ≡ true)
  Logged t (err x) before after = after ≡ before

  abbrev row :
      ℕ
      → ℕ
      → Option ℕ
      → ActionType
      → Bool
      → Option Bool
      → LogReason Num
      → Bool
      → Payload Num
      → ToolExecutionLog Num
  row now t d a passed approved reason executed p = record {
    tenant_id = t;
    decision_id = d;
    tool_category = tool_category_by_action a;
    action_type = a;
    confidence_gate_passed = passed;
    critic_approved = approved;
    critic_reason = reason;
    executed = executed;
    payload = p;
    created_at = now;
  }
