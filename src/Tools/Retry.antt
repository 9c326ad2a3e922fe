-- ===== src/Tools/Retry.antt =====
-- `execute_tool_call_idempotent` of Component_4/tool_framework.py, called again with the same key.
use restaurant_ops_copilot.Prelude.{
  ℕ, ◌≡◌, refl, String, false, some, List, [], ◌∷◌, Result, ok, err, Error, arith, Result-cases,
  inl, inr, find, find_passes, find-append_none, find-update-some, eq_iff,
}
use restaurant_ops_copilot.Values.{Numbers, num, Payload, ActionType}
use restaurant_ops_copilot.Tools.Resolve.{current_value_for_critic}
use restaurant_ops_copilot.Policy.Numeric.{Reason}
use restaurant_ops_copilot.Policy.Critic.{critique}
use restaurant_ops_copilot.Policy.Risk.{RiskClassification, classify_risk}
use restaurant_ops_copilot.EventStore.Append.{Digest}
use restaurant_ops_copilot.Decisions.{Decision, propose_and_simulate, execute_and_observe}
use restaurant_ops_copilot.Idempotency.{
  KeyRow, KeyStatus, in_progress, completed, failed, Stored, result, raised, Claim, owned, replay,
  has_key, running, new_key, invalid_key, incomplete, claim, finish, complete, fail,
}
use restaurant_ops_copilot.ToolResult.{ToolResult, previous_attempt_incomplete, json_safe}
use restaurant_ops_copilot.Tools.{Store, Surroundings, on_decisions, on_keys, write_log}
use restaurant_ops_copilot.Tools.Calls.{
  apply_state_change, execute_now, ask_human, block, under_lock, busy, serialized, hold, decline,
  gate, propose_and_gate, execute_tool_call, answer_of, attempt, execute_tool_call_idempotent,
}

module _ {R : Type 0} where
  claim-new :
      (t : ℕ) (k fp : String) (now : ℕ) (rows : List (KeyRow R))
      → (claim t k fp now rows).0 ≡ ok owned
      → (invalid_key k ≡ false)
        × (find (has_key t k) (claim t k fp now rows).1 ≡ some (new_key t k fp now))
  unfolding claim
  claim-new t k fp now rows h = (
    ground arith,
    ground (arith, find-append_none (has_key t k) rows (new_key t k fp now ∷ []), eq_iff k k),
  )

  finish-finds :
      (t : ℕ) (k : String) (status : KeyStatus) (stored : Stored R) (rows : List (KeyRow R))
      (r : KeyRow R)
      → find (has_key t k) rows ≡ some r
      → r.status ≡ in_progress
      → find (has_key t k) (finish t k status stored rows)
        ≡ some (record r { status = status; stored = stored })
  unfolding finish
  finish-finds t k status stored rows r h now = ground (
    arith,
    find-update-some (running t k) (has_key t k)
        (λ r. record r { status = status; stored = stored }) rows r (λ b. refl) h,
    find_passes (has_key t k) rows r h,
  )

  claim-completed :
      (t : ℕ) (k fp : String) (now : ℕ) (rows : List (KeyRow R)) (r : KeyRow R) (v : R)
      → invalid_key k ≡ false
      → find (has_key t k) rows ≡ some r
      → r.request_fingerprint ≡ fp
      → r.status ≡ completed
      → r.stored ≡ result v
      → (claim t k fp now rows).0 ≡ ok (replay (result v))
  unfolding claim
  claim-completed t k fp now rows r v valid h same done stored = ground (arith, eq_iff fp fp)

  claim-failed :
      (t : ℕ) (k fp : String) (now : ℕ) (rows : List (KeyRow R)) (r : KeyRow R)
      → invalid_key k ≡ false
      → find (has_key t k) rows ≡ some r
      → r.request_fingerprint ≡ fp
      → r.status ≡ failed
      → (claim t k fp now rows).0 ≡ ok incomplete
  unfolding claim
  claim-failed t k fp now rows r valid h same done = ground (arith, eq_iff fp fp)

module _ (N : Numbers) (digest : Digest N.Num) where
  open N use {Num}

  apply-keys :
      (w : Surroundings Num) (t : ℕ) (a : ActionType) (p : Payload Num) (s : Store Num)
      → (apply_state_change N digest w t a p s).1.keys ≡ s.keys
  unfolding apply_state_change
  apply-keys w t a p s = ground arith

  execute_now-keys :
      (w : Surroundings Num) (t : ℕ) (a : ActionType) (p : Payload Num) (d : Decision Num)
      (r : Reason Num) (s : Store Num)
      → (execute_now N digest w t a p d r s).1.keys ≡ s.keys
  unfolding execute_now write_log
  execute_now-keys w t a p d r s =
      ground (arith, apply-keys w t a p (on_decisions (execute_and_observe N t d.id w.observe) s).1)

  ask_human-keys :
      (w : Surroundings Num) (t : ℕ) (a : ActionType) (p : Payload Num) (d : Decision Num)
      (r : RiskClassification Num) (s : Store Num)
      → (ask_human N digest w t a p d r s).1.keys ≡ s.keys
  unfolding ask_human write_log
  ask_human-keys w t a p d r s = ground arith

  under_lock-keys :
      (w : Surroundings Num) (t : ℕ) (a : ActionType) (p : Payload Num) (d : Decision Num)
      (s : Store Num)
      → (under_lock N digest w t a p d s).1.keys ≡ s.keys
  unfolding under_lock block write_log
  under_lock-keys w t a p d s = elim (Result-cases (current_value_for_critic N t a p s.world)) [
    | inr (x, lost) ↦ ground arith
    | inl (cur, read) ↦ elim (Result-cases (critique N a p cur)) [
      | inr (x, raises) ↦ ground arith
      | inl (v, judged) ↦ ground (
        arith,
        execute_now-keys w t a p d v.reason s,
        ask_human-keys w t a p d (classify_risk N a p (num d.confidence) cur) s,
      )
    ]
  ]

  propose_and_gate-keys :
      (w : Surroundings Num) (t : ℕ) (a : ActionType) (p : Payload Num) (s : Store Num)
      → (propose_and_gate N digest w t a p s).1.keys ≡ s.keys
  unfolding propose_and_gate gate serialized busy hold write_log
  propose_and_gate-keys w t a p s =
      let made : Result (Decision Num) × List (Decision Num) =
        propose_and_simulate N w.decision_id t a p w.simulate s.decisions in
      elim (Result-cases made.0) [
        | inr (x, raises) ↦ ground arith
        | inl (d, proposed) ↦
            ground (arith, under_lock-keys w t a p d (record s { decisions = made.1 }))
      ]

  execute_tool_call-keys :
      (w : Surroundings Num) (t : ℕ) (a : ActionType) (p : Payload Num) (s : Store Num)
      → (execute_tool_call N digest w t a p s).1.keys ≡ s.keys
  unfolding execute_tool_call decline write_log
  execute_tool_call-keys w t a p s = ground (arith, propose_and_gate-keys w t a p s)

  -- the answer that later calls with this key and request get
  abbrev pub settled_answer : Result (ToolResult Num) → ToolResult Num
  settled_answer (ok r) = r
  settled_answer (err e) = previous_attempt_incomplete

  owned-attempts :
      (fingerprint : ActionType → Payload Num → String) (w : Surroundings Num) (t : ℕ)
      (key : String) (a : ActionType) (p : Payload Num) (s : Store Num)
      → (claim t key (fingerprint a p) w.now s.keys).0 ≡ ok owned
      → execute_tool_call_idempotent N digest fingerprint w t key a p s
        ≡ attempt N digest w t key a p (on_keys (claim t key (fingerprint a p) w.now) s).1
  unfolding execute_tool_call_idempotent answer_of
  owned-attempts fingerprint w t key a p s h = ground arith

  attempt-ok :
      (w : Surroundings Num) (t : ℕ) (key : String) (a : ActionType) (p : Payload Num)
      (s : Store Num) (v : ToolResult Num)
      → invalid_key key ≡ false
      → let done = execute_tool_call N digest w t a p s in
        done.0 ≡ ok v
        → attempt N digest w t key a p s ≡ (
          ok (json_safe N v),
          record done.1 { keys = finish t key completed (result (json_safe N v)) done.1.keys },
        )
  unfolding attempt complete
  attempt-ok w t key a p s v valid h = ground arith

  attempt-err :
      (w : Surroundings Num) (t : ℕ) (key : String) (a : ActionType) (p : Payload Num)
      (s : Store Num) (e : Error)
      → invalid_key key ≡ false
      → let done = execute_tool_call N digest w t a p s in
        done.0 ≡ err e
        → attempt N digest w t key a p s
          ≡ (err e, record done.1 { keys = finish t key failed raised done.1.keys })
  unfolding attempt fail
  attempt-err w t key a p s e valid h = ground arith

  attempt-claim :
      (w : Surroundings Num) (t : ℕ) (key fp : String) (now : ℕ) (a : ActionType) (p : Payload Num)
      (s : Store Num) (r : KeyRow (ToolResult Num))
      → invalid_key key ≡ false
      → find (has_key t key) s.keys ≡ some r
      → r.status ≡ in_progress
      → r.request_fingerprint ≡ fp
      → let after = attempt N digest w t key a p s in
        (answer : Claim (ToolResult Num)) × ((claim t key fp now after.1.keys).0 ≡ ok answer)
        × (answer_of N digest answer ≡ ok (some (settled_answer after.0)))
  unfolding answer_of
  attempt-claim w t key fp now a p s r valid h running_now same =
      let done = execute_tool_call N digest w t a p s in
      let here : find (has_key t key) done.1.keys ≡ some r =
        rw (execute_tool_call-keys w t a p s) h in
      elim (Result-cases done.0) [
        | inl (v, returned) ↦ (
          replay (result (json_safe N v)),
          rw (attempt-ok w t key a p s v valid returned) (
              claim-completed t key fp now _ _ (json_safe N v) valid
                (finish-finds t key completed (result (json_safe N v)) done.1.keys r here
                  running_now)
                same refl refl),
          rw (attempt-ok w t key a p s v valid returned) refl,
        )
        | inr (e, raising) ↦ (
          incomplete,
          rw (attempt-err w t key a p s e valid raising) (
              claim-failed t key fp now _ _ valid
                (finish-finds t key failed raised done.1.keys r here running_now) same refl),
          rw (attempt-err w t key a p s e valid raising) refl,
        )
      ]

  -- A claim that is not owned settles the call.
  settled-returns :
      (fingerprint : ActionType → Payload Num → String) (w : Surroundings Num) (t : ℕ)
      (key : String) (a : ActionType) (p : Payload Num) (s : Store Num)
      (answer : Claim (ToolResult Num)) (r : ToolResult Num)
      → (claim t key (fingerprint a p) w.now s.keys).0 ≡ ok answer
      → answer_of N digest answer ≡ ok (some r)
      → execute_tool_call_idempotent N digest fingerprint w t key a p s
        ≡ (ok r, (on_keys (claim t key (fingerprint a p) w.now) s).1)
  unfolding execute_tool_call_idempotent
  settled-returns fingerprint w t key a p s answer r h k = ground arith

  -- After the call that owned a key has ended, by a result or by an exception, a second call with the
  -- same key and request, whatever surrounds it, runs nothing: it returns the first call's result, or
  -- `previous_attempt_incomplete` if that raised, and leaves the restaurant's tables, the decisions,
  -- the approvals and the action log as they were.
  pub retry_never_reexecutes :
      (fingerprint : ActionType → Payload Num → String) (w w' : Surroundings Num) (t : ℕ)
      (key : String) (a : ActionType) (p : Payload Num) (s : Store Num)
      → (claim t key (fingerprint a p) w.now s.keys).0 ≡ ok owned
      → let first = execute_tool_call_idempotent N digest fingerprint w t key a p s in
        let second = execute_tool_call_idempotent N digest fingerprint w' t key a p first.1 in
        (second.0 ≡ ok (settled_answer first.0))
        × (second.1.world ≡ first.1.world)
        × (second.1.decisions ≡ first.1.decisions)
        × (second.1.approvals ≡ first.1.approvals)
        × (second.1.log ≡ first.1.log)
  retry_never_reexecutes fingerprint w w' t key a p s h =
      let (valid, here) = claim-new t key (fingerprint a p) w.now s.keys h in
      let s1 : Store Num = (on_keys (claim t key (fingerprint a p) w.now) s).1 in
      let (answer, claimed, answers) =
        attempt-claim w t key (fingerprint a p) w'.now a p s1 _ valid here refl refl in
      rw (owned-attempts fingerprint w t key a p s h) (
        rw
          (settled-returns fingerprint w' t key a p (attempt N digest w t key a p s1).1 answer _
            claimed answers)
          (refl, refl, refl, refl, refl))
