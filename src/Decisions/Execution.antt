-- ===== src/Decisions/Execution.antt =====
-- What `execute_and_observe` (Component_2/decision_engine.py) does on each of its branches, and
-- what it leaves for a caller who tries again.
use mathlib.Core.Path.{◌∙◌}
use restaurant_ops_copilot.Prelude.{
  lift, ◌>>=◌, Result-cases, inl, inr, ℕ, ◌≡◌, refl, none, some, List, Result, ok, err, Error,
  decision_not_found, decision_state, arith, find, update, find_passes, find-update-some,
  find_narrow, not, if◌then◌else◌,
}
use restaurant_ops_copilot.Values.{Numbers, evaluated}
use restaurant_ops_copilot.ToolResult.{ActualOutcome}
use restaurant_ops_copilot.Decisions.{
  Decision, is_simulated, is_decision, awaits_evaluation, mark_executed, mark_evaluated,
  validate_prediction, calibration_error, claim_decision, persist_evaluation, execute_and_observe,
}

module _ (N : Numbers) where
  open N use {Num}

  -- the guards of the claim, in the order of the code
  unfoldable pub may_execute : Decision Num → Result (Unit {0})
  may_execute d =
      if not d.confidence_threshold_cleared
      then err decision_state
      else if not (is_simulated d.status)
      then err decision_state
      else validate_prediction N d.predicted_outcome

  claim-refused :
      (t i : ℕ) (ds : List (Decision Num)) (d : Decision Num) (e : Error)
      → find (is_decision t i) ds ≡ some d
      → may_execute d ≡ err e
      → claim_decision N t i ds ≡ (err e, ds)
  unfolding claim_decision may_execute
  claim-refused t i ds d e h refused = ground arith

  claim-granted :
      (t i : ℕ) (ds : List (Decision Num)) (d : Decision Num)
      → find (is_decision t i) ds ≡ some d
      → may_execute d ≡ ok tt
      → claim_decision N t i ds ≡ (ok d, update (is_decision t i) mark_executed ds)
  unfolding claim_decision may_execute
  claim-granted t i ds d h granted = ground arith

  stuck_lem : (d : Decision Num) → may_execute (mark_executed d) ≡ err decision_state
  unfolding may_execute
  stuck_lem d = ground arith

  claimed_row :
      (t i : ℕ) (ds : List (Decision Num)) (d : Decision Num)
      → find (is_decision t i) ds ≡ some d
      → find (is_decision t i) (update (is_decision t i) mark_executed ds) ≡ some (mark_executed d)
  claimed_row t i ds d h =
      find-update-some (is_decision t i) (is_decision t i) mark_executed ds d (λ b. refl) h
      ∙ rw (find_passes (is_decision t i) ds d h) refl

  persist_claimed :
      (t i : ℕ) (a : ActualOutcome Num) (x : Num) (ds : List (Decision Num)) (d : Decision Num)
      → find (is_decision t i) ds ≡ some (mark_executed d)
      → persist_evaluation N t i a x ds ≡ (
        ok (mark_evaluated a x (mark_executed d)),
        update (awaits_evaluation t i) (mark_evaluated a x) ds,
      )
  unfolding persist_evaluation
  persist_claimed t i a x ds d h =
      let waits : find (awaits_evaluation t i) ds ≡ some (mark_executed d) =
        find_narrow (is_decision t i) (awaits_evaluation t i) ds (mark_executed d)
          (λ b k. ground arith)
          (ground (arith, find_passes (is_decision t i) ds (mark_executed d) h)) h in
      ground arith

  execute-granted :
      (t i : ℕ) (observe : Decision Num → Result (ActualOutcome Num)) (ds : List (Decision Num))
      (d : Decision Num)
      → find (is_decision t i) ds ≡ some d
      → may_execute d ≡ ok tt
      → execute_and_observe N t i observe ds
        ≡ (do
          a ← lift (observe d)
          x ← lift (calibration_error N d.predicted_outcome a)
          persist_evaluation N t i a x)
            (update (is_decision t i) mark_executed ds)
  unfolding execute_and_observe
  execute-granted t i observe ds d h granted = ground (arith, claim-granted t i ds d h granted)

  pub execution_evaluates :
      (t i : ℕ) (observe : Decision Num → Result (ActualOutcome Num)) (ds : List (Decision Num))
      (d : Decision Num) (a : ActualOutcome Num) (x : Num)
      → find (is_decision t i) ds ≡ some d
      → may_execute d ≡ ok tt
      → observe d ≡ ok a
      → calibration_error N d.predicted_outcome a ≡ ok x
      → let after = execute_and_observe N t i observe ds in
        (after.0
          ≡ ok (record d {
            status = evaluated;
            actual_outcome = some a;
            calibration_error = some x;
          }))
        × (find (is_decision t i) after.1
            ≡ some (record d {
              status = evaluated;
              actual_outcome = some a;
              calibration_error = some x;
            }))
  execution_evaluates t i observe ds d a x h granted seen scored =
      rw
        (
          execute-granted t i observe ds d h granted,
          seen,
          scored,
          persist_claimed t i a x (update (is_decision t i) mark_executed ds) d
              (claimed_row t i ds d h),
        )
        (
          refl,
          find-update-some (awaits_evaluation t i) (is_decision t i) (mark_evaluated a x)
                (update (is_decision t i) mark_executed ds) (mark_executed d) (λ b. refl)
                (claimed_row t i ds d h)
              ∙ rw (find_passes (is_decision t i) ds d h) refl,
        )

  -- A decision that is missing, was not cleared, is not simulated or holds a malformed prediction is
  -- refused with the guard's error, nothing is observed and no row changes.
  pub execution_refused :
      (t i : ℕ) (observe : Decision Num → Result (ActualOutcome Num)) (ds : List (Decision Num))
      (e : Error)
      → elim (find (is_decision t i) ds) [ none ↦ err decision_not_found | some d ↦ may_execute d ]
        ≡ err e
      → execute_and_observe N t i observe ds ≡ (err e, ds)
  unfolding execute_and_observe claim_decision may_execute
  execution_refused t i observe ds e refused = ground arith

  -- If the observation raises, or its calibration error cannot be computed, the caller sees that
  -- error while the row has been committed as executed; every later attempt, whatever it would
  -- observe, raises `DecisionStateError` and leaves the table as it is. So such a decision is never
  -- evaluated by this function.
  pub interrupted_execution_strands :
      (t i : ℕ) (observe observe' : Decision Num → Result (ActualOutcome Num))
      (ds : List (Decision Num)) (d : Decision Num) (e : Error)
      → find (is_decision t i) ds ≡ some d
      → may_execute d ≡ ok tt
      → elim (observe d) as (λ _. Result Num) [
        | err x ↦ err x
        | ok a ↦ calibration_error N d.predicted_outcome a
      ]
        ≡ err e
      → let after = execute_and_observe N t i observe ds in
        (after.0 ≡ err e)
        × (find (is_decision t i) after.1 ≡ some (mark_executed d))
        × (execute_and_observe N t i observe' after.1 ≡ (err decision_state, after.1))
  interrupted_execution_strands t i observe observe' ds d e h granted interrupted =
      let same : execute_and_observe N t i observe ds
          ≡ (err e, update (is_decision t i) mark_executed ds) =
        rw (execute-granted t i observe ds d h granted) (ground arith) in
      let stuck : may_execute (mark_executed d) ≡ err decision_state = stuck_lem d in
      rw same (
        refl,
        claimed_row t i ds d h,
        execution_refused t i observe' _ decision_state (rw (claimed_row t i ds d h) stuck),
      )

  -- What a returned decision went through.
  pub record Executed (d : Decision Num) (observe : Decision Num → Result (ActualOutcome Num))
      : Type 0 where
    pub actual : ActualOutcome Num
    pub error : Num
    pub allowed : may_execute d ≡ ok tt
    pub observed : observe d ≡ ok actual
    pub scored : calibration_error N d.predicted_outcome actual ≡ ok error

  -- A call that returns ran every phase.
  pub execution_inverts :
      (t i : ℕ) (observe : Decision Num → Result (ActualOutcome Num)) (ds : List (Decision Num))
      (d done : Decision Num)
      → find (is_decision t i) ds ≡ some d
      → (execute_and_observe N t i observe ds).0 ≡ ok done
      → Executed d observe
  execution_inverts t i observe ds d done h ends = elim (Result-cases (may_execute d)) [
    | inr (e, refused) ↦ absurd (ground (arith, execution_refused t i observe ds e (rw h refused)))
    | inl (tt, granted) ↦
        let runs = execute-granted t i observe ds d h granted in
        elim (Result-cases (observe d)) [
          | inr (e, unseen) ↦ absurd (ground arith)
          | inl (a, seen) ↦ elim (Result-cases (calibration_error N d.predicted_outcome a)) [
            | inr (e, unscored) ↦ absurd (ground arith)
            | inl (x, scored) ↦ record {
              actual = a;
              error = x;
              allowed = granted;
              observed = seen;
              scored = scored;
            }
          ]
        ]
  ]
