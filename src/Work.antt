-- ===== src/Work.antt =====
-- The way of an action from the API to the tool framework: api/main.py, the queue of shared/queue.py,
-- worker/handler.py, and the table of api/work_request_models.py between them.
pub mod Submit
pub mod Publishing
pub mod Process
pub mod Outcome
pub mod Delivery
use restaurant_ops_copilot.Prelude.{
  ℕ, String, Bool, true, false, Option, none, some, List, Error, str_eq, ◌==◌, ◌&&◌, ◌||◌,
  if◌then◌else◌,
}
use restaurant_ops_copilot.Values.{
  Payload, ActionType, price_change, supplier_switch, menu_swap, staffing_change, entry,
}
use restaurant_ops_copilot.ToolResult.{ToolResult}
use restaurant_ops_copilot.Tools.{Store}

pub data WorkStatus : Type 0 where
  pending processing completed failed : WorkStatus

abbrev pub is_pending : WorkStatus → Bool
is_pending pending = true
is_pending _ = false

-- The column `error`.
pub data WorkError (Num : Type 0) : Type 0 where
  no_error invalid_action_type synthetic_guard_violation : WorkError Num
  tool_framework_error : Error → WorkError Num
  not_executed : ToolResult Num → WorkError Num

pub record WorkRequest (Num : Type 0) : Type 0 where
  pub id : ℕ
  pub tenant_id : ℕ
  pub idempotency_key : String
  pub action_type : String
  pub payload : Payload Num
  pub status : WorkStatus
  pub result : Option (ToolResult Num)
  pub error : WorkError Num
  pub completed_at : Option ℕ

-- The store, the work requests, and the messages that SQS holds: a tenant and a request.
pub record Office (Num : Type 0) : Type 0 where
  pub store : Store Num
  pub requests : List (WorkRequest Num)
  pub queue : List (ℕ × ℕ)

-- `ActionType(s)`, by the values of the enumeration
unfoldable pub parse_action_type : String → Option ActionType
parse_action_type s =
    if str_eq s "price_change"
    then some price_change
    else if str_eq s "supplier_switch"
    then some supplier_switch
    else if str_eq s "menu_swap"
    then some menu_swap
    else if str_eq s "staffing_change"
    then some staffing_change
    else none

module _ {Num : Type 0} where
  abbrev pub has_request : ℕ → ℕ → WorkRequest Num → Bool
  has_request t i r = r.tenant_id == t && r.id == i

  abbrev pub has_work_key : ℕ → String → WorkRequest Num → Bool
  has_work_key t k r = r.tenant_id == t && str_eq r.idempotency_key k
