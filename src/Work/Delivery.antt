-- ===== src/Work/Delivery.antt =====
-- What the queue's at-least-once delivery makes of a work request (api/main.py, worker/handler.py).
use mathlib.Core.Path.{subst, ◌∙◌}
use restaurant_ops_copilot.Prelude.{
  ℕ, ◌≡◌, refl, String, Bool, true, false, none, some, List, Result, ok, err, Error, arith,
  Bool-cases, Option-cases, inl, inr, find, find_passes, find-update-some, update, if◌then◌else◌,
}
use restaurant_ops_copilot.Prelude.Traces.{run_all, run_all-keeps}
use restaurant_ops_copilot.Values.{Numbers, Payload, ActionType}
use restaurant_ops_copilot.EventStore.Append.{Digest}
use restaurant_ops_copilot.Tools.{Store, Surroundings}
use restaurant_ops_copilot.Tools.Calls.{execute_tool_call_idempotent}
use restaurant_ops_copilot.ToolResult.{ToolResult, is_executed}
use restaurant_ops_copilot.Work.{
  completed, failed, is_pending, no_error, invalid_action_type, synthetic_guard_violation,
  tool_framework_error, not_executed, WorkRequest, Office, parse_action_type, has_request,
}
use restaurant_ops_copilot.Work.Process.{
  is_tool_framework_error, violates_synthetic_guard, marked, mark_work_request, start,
  record_outcome, run_request, process_message,
}

module _ (N : Numbers) (digest : Digest N.Num) (fingerprint : ActionType → Payload N.Num → String)
    (synthetic_only : Bool) where
  open N use {Num}

  -- one delivery of a message to a worker
  pub record Delivery : Type 0 where
    pub surroundings : Surroundings Num
    pub tenant : ℕ
    pub request : ℕ

  unfoldable pub deliver : Delivery → Office Num → Office Num
  deliver m o =
      (process_message N digest fingerprint synthetic_only m.surroundings m.tenant m.request o).1

  -- The row is there and is not pending.
  Started : ℕ → ℕ → Office Num → Type 0
  Started t i o =
      (r : WorkRequest Num) × (find (has_request t i) o.requests ≡ some r)
      × (is_pending r.status ≡ false)

  update-Started :
      (t i u j : ℕ) (f : WorkRequest Num → WorkRequest Num) (o o' : Office Num)
      → ((r : WorkRequest Num) → has_request t i (f r) ≡ has_request t i r)
      → ((r : WorkRequest Num) → is_pending (f r).status ≡ false)
      → o'.requests ≡ update (has_request u j) f o.requests
      → Started t i o
      → Started t i o'
  unfolding Started
  update-Started t i u j f o o' same off e (r, h, k) = (
    if has_request u j r then f r else r,
    rw e (find-update-some (has_request u j) (has_request t i) f o.requests r same h),
    ground (arith, off r),
  )

  outcome-Started :
      (t i u j now : ℕ) (result : Result (ToolResult Num)) (o : Office Num)
      → Started t i o
      → Started t i (record_outcome u j now result o).1
  unfolding record_outcome mark_work_request
  outcome-Started t i u j now (ok r) o h = elim (Bool-cases (is_executed r)) [
    | inl done ↦
        update-Started t i u j (marked completed (some r) no_error now) o
          (record_outcome u j now (ok r) o).1 (λ q. refl) (λ q. refl) (ground arith) h
    | inr held ↦
        update-Started t i u j (marked failed none (not_executed r) now) o
          (record_outcome u j now (ok r) o).1 (λ q. refl) (λ q. refl) (ground arith) h
  ]
  outcome-Started t i u j now (err e) o h = elim (Bool-cases (is_tool_framework_error e)) [
    | inl rejected ↦
        update-Started t i u j (marked failed none (tool_framework_error e) now) o
          (record_outcome u j now (err e) o).1 (λ q. refl) (λ q. refl) (ground arith) h
    | inr transient ↦
        let same : o ≡ (record_outcome u j now (err e) o).1 = ground arith in
        subst (Started t i) same h
  ]

  store-Started :
      (t i : ℕ) (o : Office Num) (s : Store Num)
      → Started t i o
      → Started t i (record o { store = s })
  unfolding Started
  store-Started t i o s h = h

  run-Started :
      (t i u j : ℕ) (w : Surroundings Num) (r : WorkRequest Num) (o : Office Num)
      → Started t i o
      → Started t i (run_request N digest fingerprint synthetic_only w u j r o).1
  unfolding run_request mark_work_request
  run-Started t i u j w r o h = elim (Option-cases (parse_action_type r.action_type)) [
    | inl unknown ↦
        update-Started t i u j (marked failed none invalid_action_type w.now) o
          (run_request N digest fingerprint synthetic_only w u j r o).1 (λ q. refl) (λ q. refl)
          (ground arith) h
    | inr (a, known) ↦ elim (Bool-cases (violates_synthetic_guard synthetic_only r.payload)) [
      | inl forbidden ↦
          update-Started t i u j (marked failed none synthetic_guard_violation w.now) o
            (run_request N digest fingerprint synthetic_only w u j r o).1 (λ q. refl) (λ q. refl)
            (ground arith) h
      | inr safe ↦
          let done =
            execute_tool_call_idempotent N digest fingerprint w u r.idempotency_key a r.payload
              o.store in
          let same : (record_outcome u j w.now done.0 (record o { store = done.1 })).1
              ≡ (run_request N digest fingerprint synthetic_only w u j r o).1 =
            ground arith in
          subst (Started t i) same (
            outcome-Started t i u j w.now done.0 (record o { store = done.1 })
              (store-Started t i o done.1 h))
    ]
  ]

  start-Started :
      (t i : ℕ) (o o' : Office Num) (r : WorkRequest Num)
      → find (has_request t i) o.requests ≡ some r
      → o'.requests ≡ update (has_request t i) start o.requests
      → Started t i o'
  unfolding Started
  start-Started t i o o' r h e = (
    start r,
    rw e (
        find-update-some (has_request t i) (has_request t i) start o.requests r (λ q. refl) h
        ∙ rw (find_passes (has_request t i) o.requests r h) refl),
    refl,
  )

  step-Started :
      (t i : ℕ) (m : Delivery) (o : Office Num) → Started t i o → Started t i (deliver m o)
  unfolding deliver process_message
  step-Started t i m o h = elim (Option-cases (find (has_request m.tenant m.request) o.requests)) [
    | inl unknown ↦ let same : o ≡ deliver m o = ground arith in subst (Started t i) same h
    | inr (r, found) ↦ elim (Bool-cases (is_pending r.status)) [
      | inr begun ↦ let same : o ≡ deliver m o = ground arith in subst (Started t i) same h
      | inl waiting ↦
          let o1 : Office Num = record o {
            requests = update (has_request m.tenant m.request) start o.requests;
          } in
          let same : (run_request N digest fingerprint synthetic_only m.surroundings m.tenant
                m.request r o1).1
              ≡ deliver m o =
            ground arith in
          subst (Started t i) same (
            run-Started t i m.tenant m.request m.surroundings r o1
              (update-Started t i m.tenant m.request start o o1 (λ q. refl) (λ q. refl) refl h))
    ]
  ]

  -- A delivery of a known request leaves it started.
  first-Started :
      (w : Surroundings Num) (t i : ℕ) (r : WorkRequest Num) (o : Office Num)
      → find (has_request t i) o.requests ≡ some r
      → Started t i (process_message N digest fingerprint synthetic_only w t i o).1
  unfolding process_message Started
  first-Started w t i r o found = elim (Bool-cases (is_pending r.status)) [
    | inr begun ↦
        let same : o ≡ (process_message N digest fingerprint synthetic_only w t i o).1 =
          ground arith in
        subst (Started t i) same (r, found, begun)
    | inl waiting ↦
        let o1 : Office Num = record o { requests = update (has_request t i) start o.requests } in
        let same : (run_request N digest fingerprint synthetic_only w t i r o1).1
            ≡ (process_message N digest fingerprint synthetic_only w t i o).1 =
          ground arith in
        subst (Started t i) same (run-Started t i t i w r o1 (start-Started t i o o1 r found refl))
  ]

  -- A message of a request that is not pending is skipped.
  skipped :
      (w : Surroundings Num) (t i : ℕ) (r : WorkRequest Num) (o : Office Num)
      → find (has_request t i) o.requests ≡ some r
      → is_pending r.status ≡ false
      → process_message N digest fingerprint synthetic_only w t i o ≡ (ok true, o)
  unfolding process_message
  skipped w t i r o h begun = ground arith

  -- Once a message of a known request has been delivered, and after any further deliveries, to any
  -- workers, for any tenants and one after another, a delivery of that message does nothing: it runs
  -- no tool call, leaves the store, every row and the queue as they are, and lets the message be
  -- deleted. So a request is worked on by its first delivery at most.
  pub request_started_once :
      (w w' : Surroundings Num) (t i : ℕ) (r : WorkRequest Num) (between : List Delivery)
      (o : Office Num)
      → find (has_request t i) o.requests ≡ some r
      → let later =
          run_all deliver between (process_message N digest fingerprint synthetic_only w t i o).1 in
        process_message N digest fingerprint synthetic_only w' t i later ≡ (ok true, later)
  unfolding Started
  request_started_once w w' t i r between o found =
      let (q, here, begun) =
        run_all-keeps deliver (Started t i) (step-Started t i) between
          (process_message N digest fingerprint synthetic_only w t i o).1
          (first-Started w t i r o found) in
      skipped w' t i q _ here begun

  transient-process :
      (w : Surroundings Num) (t i : ℕ) (r : WorkRequest Num) (a : ActionType) (e : Error)
      (o : Office Num)
      → find (has_request t i) o.requests ≡ some r
      → is_pending r.status ≡ true
      → parse_action_type r.action_type ≡ some a
      → violates_synthetic_guard synthetic_only r.payload ≡ false
      → let done =
          execute_tool_call_idempotent N digest fingerprint w t r.idempotency_key a r.payload
            o.store in
        done.0 ≡ err e
        → is_tool_framework_error e ≡ false
        → process_message N digest fingerprint synthetic_only w t i o ≡ (
          ok false,
          record o { store = done.1; requests = update (has_request t i) start o.requests },
        )
  unfolding process_message run_request record_outcome
  transient-process w t i r a e o h waits known safe failing transient = ground arith

  -- A request whose execution raises anything but a `ToolFrameworkError` keeps its message for
  -- another delivery and is left as processing; but the next delivery, whenever it comes, finds the
  -- row not pending, does nothing at all and lets the message be deleted. The retry never happens.
  pub transient_failure_is_dropped :
      (w w' : Surroundings Num) (t i : ℕ) (r : WorkRequest Num) (a : ActionType) (e : Error)
      (o : Office Num)
      → find (has_request t i) o.requests ≡ some r
      → is_pending r.status ≡ true
      → parse_action_type r.action_type ≡ some a
      → violates_synthetic_guard synthetic_only r.payload ≡ false
      → (execute_tool_call_idempotent N digest fingerprint w t r.idempotency_key a r.payload
          o.store).0
        ≡ err e
      → is_tool_framework_error e ≡ false
      → let after = process_message N digest fingerprint synthetic_only w t i o in
        (after.0 ≡ ok false)
        × (find (has_request t i) after.1.requests ≡ some (start r))
        × (process_message N digest fingerprint synthetic_only w' t i after.1 ≡ (ok true, after.1))
  transient_failure_is_dropped w w' t i r a e o h waits known safe failing transient =
      let stuck : find (has_request t i) (update (has_request t i) start o.requests)
          ≡ some (start r) =
        find-update-some (has_request t i) (has_request t i) start o.requests r (λ q. refl) h
        ∙ rw (find_passes (has_request t i) o.requests r h) refl in
      rw (transient-process w t i r a e o h waits known safe failing transient)
        (refl, stuck, skipped w' t i (start r) _ stuck refl)
