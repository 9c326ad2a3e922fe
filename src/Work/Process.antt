-- ===== src/Work/Process.antt =====
-- worker/handler.py. What Component 7 records of an outcome does not touch the store. A delivery is
-- one step: the source reads the status without a lock, so two deliveries at one time are outside
-- this model.
use restaurant_ops_copilot.Prelude.{
  ℕ, String, Bool, true, false, Option, none, some, Result, ok, err, Error, Exec, find, update,
  ◌||◌, if◌then◌else◌, tool_framework, tool_busy, unsupported_action,
}
use restaurant_ops_copilot.Values.{Numbers, Payload, entry, ActionType}
use restaurant_ops_copilot.EventStore.Append.{Digest}
use restaurant_ops_copilot.ToolResult.{ToolResult, is_executed}
use restaurant_ops_copilot.Tools.{Surroundings}
use restaurant_ops_copilot.Tools.Calls.{execute_tool_call_idempotent}
use restaurant_ops_copilot.Work.{
  WorkStatus, processing, completed, failed, is_pending, WorkError, no_error, invalid_action_type,
  synthetic_guard_violation, tool_framework_error, not_executed, WorkRequest, Office,
  parse_action_type, has_request,
}

-- `except ToolFrameworkError`: the class and its subclasses
abbrev pub is_tool_framework_error : Error → Bool
is_tool_framework_error tool_framework = true
is_tool_framework_error tool_busy = true
is_tool_framework_error unsupported_action = true
is_tool_framework_error _ = false

-- `status in ("completed", "failed")`
abbrev pub is_final : WorkStatus → Bool
is_final completed = true
is_final failed = true
is_final _ = false

module _ {Num : Type 0} where
  has_entry : String → Payload Num → Bool
  has_entry k p = elim (entry k p) [ none ↦ false | some v ↦ true ]

  -- `_assert_synthetic_safe` raises
  unfoldable pub violates_synthetic_guard : Bool → Payload Num → Bool
  unfolding has_entry
  violates_synthetic_guard synthetic_only p =
      if synthetic_only
      then has_entry "external_connector" p
        || has_entry "vendor_credential_id" p
        || has_entry "webhook_url" p
      else false

  abbrev pub marked :
      WorkStatus → Option (ToolResult Num) → WorkError Num → ℕ → WorkRequest Num → WorkRequest Num
  marked status result error now r = record r {
    status = status;
    result = result;
    error = error;
    completed_at = if is_final status then some now else none;
  }

  -- `_mark_work_request`
  unfoldable pub mark_work_request :
      ℕ → ℕ → WorkStatus → Option (ToolResult Num) → WorkError Num → ℕ → Office Num → Office Num
  mark_work_request t i status result error now o = record o {
    requests = update (has_request t i) (marked status result error now) o.requests;
  }

  abbrev pub start : WorkRequest Num → WorkRequest Num
  start r = record r { status = processing }

  -- step 5, and the handlers of step 4
  unfoldable pub record_outcome :
      ℕ → ℕ → ℕ → Result (ToolResult Num) → Office Num → Result Bool × Office Num
  record_outcome t i now (ok r) o = (
    ok true,
    (if is_executed r
        then mark_work_request t i completed (some r) no_error now o
        else mark_work_request t i failed none (not_executed r) now o),
  )
  record_outcome t i now (err e) o =
      if is_tool_framework_error e
      then (ok true, mark_work_request t i failed none (tool_framework_error e) now o)
      else (ok false, o)

module _ (N : Numbers) (digest : Digest N.Num) (fingerprint : ActionType → Payload N.Num → String)
    (synthetic_only : Bool) where
  open N use {Num}

  -- steps 2 to 5, for a row that is being processed
  unfoldable pub run_request :
      Surroundings Num → ℕ → ℕ → WorkRequest Num → Office Num → Result Bool × Office Num
  run_request w t i r o = elim (parse_action_type r.action_type) [
    | none ↦ (ok true, mark_work_request t i failed none invalid_action_type w.now o)
    | some a ↦
        if violates_synthetic_guard synthetic_only r.payload
        then (ok true, mark_work_request t i failed none synthetic_guard_violation w.now o)
        else (let done =
              execute_tool_call_idempotent N digest fingerprint w t r.idempotency_key a r.payload
                o.store in
            record_outcome t i w.now done.0 (record o { store = done.1 }))
  ]

  -- `process_message`: true where the message is to be deleted
  unfoldable pub process_message : Surroundings Num → ℕ → ℕ → Exec (Office Num) Bool
  process_message w t i o = elim (find (has_request t i) o.requests) [
    | none ↦ (ok true, o)
    | some r ↦
        if is_pending r.status
        then run_request w t i r (record o { requests = update (has_request t i) start o.requests })
        else (ok true, o)
  ]
