-- ===== src/Tools.antt =====
-- Component_4/tool_framework.py: the one door through which an action reaches the restaurant's state.
-- The store holds every table that a call touches.
pub mod Resolve
pub mod Apply
pub mod Calls
pub mod Gates
pub mod Executed
pub mod Repricing
pub mod Audit
pub mod History
pub mod Approved
pub mod Retry
pub mod Growth
use restaurant_ops_copilot.Prelude.{
  ℕ, String, Bool, true, false, Option, none, some, List, [], ◌∷◌, ◌++◌, Result, Error, Exec,
}
use restaurant_ops_copilot.Values.{
  Payload, ActionType, price_change, supplier_switch, menu_swap, staffing_change,
}
use restaurant_ops_copilot.Policy.Numeric.{Reason}
use restaurant_ops_copilot.EventStore.Tables.{Tables}
use restaurant_ops_copilot.Decisions.{PredictedOutcome, Decision}
use restaurant_ops_copilot.Approval.{ApprovalRequest}
use restaurant_ops_copilot.Idempotency.{KeyRow}
use restaurant_ops_copilot.ToolResult.{ToolResult, ActualOutcome}

-- `critic_reason` of a log row
pub data LogReason (Num : Type 0) : Type 0 where
  no_reason unsupported_reason busy_reason human_approval_recorded : LogReason Num
  because : Reason Num → LogReason Num

-- `ToolExecutionLog` (Component_4/tool_models.py)
pub record ToolExecutionLog (Num : Type 0) : Type 0 where
  pub tenant_id : ℕ
  pub decision_id : Option ℕ
  pub tool_category : String
  pub action_type : ActionType
  pub confidence_gate_passed : Bool
  pub critic_approved : Option Bool
  pub critic_reason : LogReason Num
  pub executed : Bool
  pub payload : Payload Num
  pub created_at : ℕ

pub record Store (Num : Type 0) : Type 0 where
  pub world : Tables Num
  pub decisions : List (Decision Num)
  pub approvals : List (ApprovalRequest (Reason Num))
  pub keys : List (KeyRow (ToolResult Num))
  pub log : List (ToolExecutionLog Num)

-- What a call meets outside this code: fresh ids, the clock, the simulator's answer, the ground truth,
-- and how the wait for the advisory lock ends (an error where it is not granted).
pub record Surroundings (Num : Type 0) : Type 0 where
  pub decision_id : ℕ
  pub approval_id : ℕ
  pub event_id : ℕ
  pub now : ℕ
  pub simulate : Result (PredictedOutcome Num)
  pub observe : Decision Num → Result (ActualOutcome Num)
  pub lock : Option Error

-- `TOOL_CATEGORY_BY_ACTION`
abbrev pub tool_category_by_action : ActionType → String
tool_category_by_action supplier_switch = "procurement"
tool_category_by_action price_change = "pricing"
tool_category_by_action staffing_change = "staffing"
tool_category_by_action menu_swap = "menu"

module _ {Num A : Type 0} where
  -- a component's call on the store
  abbrev pub on_world : Exec (Tables Num) A → Exec (Store Num) A
  on_world m s = ((m s.world).0, record s { world = (m s.world).1 })

  abbrev pub on_decisions : Exec (List (Decision Num)) A → Exec (Store Num) A
  on_decisions m s = ((m s.decisions).0, record s { decisions = (m s.decisions).1 })

  abbrev pub on_approvals : Exec (List (ApprovalRequest (Reason Num))) A → Exec (Store Num) A
  on_approvals m s = ((m s.approvals).0, record s { approvals = (m s.approvals).1 })

  abbrev pub on_keys : Exec (List (KeyRow (ToolResult Num))) A → Exec (Store Num) A
  on_keys m s = ((m s.keys).0, record s { keys = (m s.keys).1 })

module _ {Num : Type 0} where
  -- `_log`
  unfoldable pub write_log :
      ℕ
      → ℕ
      → Option ℕ
      → ActionType
      → Bool
      → Option Bool
      → LogReason Num
      → Bool
      → Payload Num
      → Exec (Store Num) (Unit {0})
  write_log now t d a gate approved reason executed payload s = (
    Result.ok tt,
    record s {
      log =
          s.log
          ++ record {
            tenant_id = t;
            decision_id = d;
            tool_category = tool_category_by_action a;
            action_type = a;
            confidence_gate_passed = gate;
            critic_approved = approved;
            critic_reason = reason;
            executed = executed;
            payload = payload;
            created_at = now;
          }
            ∷ [];
    },
  )

  -- `ck_tool_execution_executed_requires_gates`
  unfoldable pub executed_requires_gates : ToolExecutionLog Num → Bool
  executed_requires_gates e = elim e.executed [
    | false ↦ true
    | true ↦ elim e.critic_approved [
      | none ↦ false
      | some b ↦ elim b [ true ↦ e.confidence_gate_passed | false ↦ false ]
    ]
  ]
