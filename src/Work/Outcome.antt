-- ===== src/Work/Outcome.antt =====
-- What worker/handler.py records of an execution that returns.
use restaurant_ops_copilot.Prelude.{
  ℕ, ◌≡◌, refl, ◌∙◌, true, false, none, some, ok, arith, find, find_passes, find-update-some,
  update, if◌then◌else◌,
}
use restaurant_ops_copilot.Prelude.{String, Bool}
use restaurant_ops_copilot.Values.{Numbers, Payload, ActionType}
use restaurant_ops_copilot.EventStore.Append.{Digest}
use restaurant_ops_copilot.Tools.{Surroundings}
use restaurant_ops_copilot.Tools.Calls.{execute_tool_call_idempotent}
use restaurant_ops_copilot.ToolResult.{ToolResult, is_executed}
use restaurant_ops_copilot.Work.{
  completed, failed, is_pending, no_error, not_executed, WorkRequest, Office, parse_action_type,
  has_request,
}
use restaurant_ops_copilot.Work.Process.{
  violates_synthetic_guard, marked, mark_work_request, start, record_outcome, run_request,
  process_message,
}

module _ (N : Numbers) (digest : Digest N.Num) (fingerprint : ActionType → Payload N.Num → String)
    (synthetic_only : Bool) where
  open N use {Num}

  -- the row of a request whose execution returned
  abbrev pub recorded : ℕ → ToolResult Num → WorkRequest Num → WorkRequest Num
  recorded now v r =
      if is_executed v
      then record r {
        status = completed;
        result = some v;
        error = no_error;
        completed_at = some now;
      }
      else record r {
        status = failed;
        result = none;
        error = not_executed v;
        completed_at = some now;
      }

  outcome-row :
      (t i now : ℕ) (v : ToolResult Num) (o : Office Num) (r : WorkRequest Num)
      → find (has_request t i) o.requests ≡ some r
      → find (has_request t i) (record_outcome t i now (ok v) o).1.requests
        ≡ some (recorded now v r)
  unfolding record_outcome mark_work_request
  outcome-row t i now v o r h = ground (
    arith,
    find_passes (has_request t i) o.requests r h,
    find-update-some (has_request t i) (has_request t i) (marked completed (some v) no_error now)
        o.requests r (λ q. refl) h,
    find-update-some (has_request t i) (has_request t i) (marked failed none (not_executed v) now)
        o.requests r (λ q. refl) h,
  )

  process-returns :
      (w : Surroundings Num) (t i : ℕ) (r : WorkRequest Num) (a : ActionType) (v : ToolResult Num)
      (o : Office Num)
      → find (has_request t i) o.requests ≡ some r
      → is_pending r.status ≡ true
      → parse_action_type r.action_type ≡ some a
      → violates_synthetic_guard synthetic_only r.payload ≡ false
      → let done =
          execute_tool_call_idempotent N digest fingerprint w t r.idempotency_key a r.payload
            o.store in
        done.0 ≡ ok v
        → process_message N digest fingerprint synthetic_only w t i o
          ≡ record_outcome t i w.now
              (ok v)
              (record o { store = done.1; requests = update (has_request t i) start o.requests })
  unfolding process_message run_request
  process-returns w t i r a v o h waits known safe returns = ground arith

  -- When the execution of a pending, valid and safe request returns a result, the message is deleted
  -- and the row is final: completed with that result exactly if it was executed, and failed with the
  -- result as its error otherwise, a result that waits for a human's approval included.
  pub outcome_is_recorded :
      (w : Surroundings Num) (t i : ℕ) (r : WorkRequest Num) (a : ActionType) (v : ToolResult Num)
      (o : Office Num)
      → find (has_request t i) o.requests ≡ some r
      → is_pending r.status ≡ true
      → parse_action_type r.action_type ≡ some a
      → violates_synthetic_guard synthetic_only r.payload ≡ false
      → (execute_tool_call_idempotent N digest fingerprint w t r.idempotency_key a r.payload
          o.store).0
        ≡ ok v
      → let after = process_message N digest fingerprint synthetic_only w t i o in
        (after.0 ≡ ok true) × (find (has_request t i) after.1.requests ≡ some (recorded w.now v r))
  unfolding record_outcome
  outcome_is_recorded w t i r a v o h waits known safe returns =
      let begun : find (has_request t i) (update (has_request t i) start o.requests)
          ≡ some (start r) =
        find-update-some (has_request t i) (has_request t i) start o.requests r (λ q. refl) h
        ∙ rw (find_passes (has_request t i) o.requests r h) refl in
      let done =
        execute_tool_call_idempotent N digest fingerprint w t r.idempotency_key a r.payload
          o.store in
      rw (process-returns w t i r a v o h waits known safe returns) (
        refl,
        outcome-row t i w.now v
            (record o { store = done.1; requests = update (has_request t i) start o.requests })
            (start r) begun,
      )
