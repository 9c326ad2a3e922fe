-- ===== src/Decisions.antt =====
-- Component_2/decision_engine.py over the table of decisions (Component_1/models.py). The simulator
-- and the observation of the outcome are functions that the caller gives.
pub mod Calibration
pub mod Lifecycle
pub mod Execution
use restaurant_ops_copilot.Prelude.{
  ℕ, Bool, true, false, Option, none, some, List, [], ◌∷◌, ◌++◌, Result, ok, err, Exec, raise_if,
  gets, lift, modify, pure, or_raise, transaction, ◌>>=◌, ◌>>◌, invalid_prediction,
  decision_not_found, decision_state, integrity, find, update, ◌==◌, ◌&&◌, not, if◌then◌else◌,
}
use restaurant_ops_copilot.Values.{
  Numbers, Payload, ActionType, DecisionStatus, simulated, held_low_confidence, executed, evaluated,
}
use restaurant_ops_copilot.ToolResult.{ActualOutcome}

pub record PredictedOutcome (Num : Type 0) : Type 0 where
  pub margin_change_pct : Num
  pub demand_change_pct : Num
  pub stockout_risk : Num
  pub confidence : Num

pub record Decision (Num : Type 0) : Type 0 where
  pub id : ℕ
  pub tenant_id : ℕ
  pub action_type : ActionType
  pub action_payload : Payload Num
  pub predicted_outcome : PredictedOutcome Num
  pub confidence : Num
  pub confidence_threshold_cleared : Bool
  pub status : DecisionStatus
  pub actual_outcome : Option (ActualOutcome Num)
  pub calibration_error : Option Num

abbrev pub is_simulated : DecisionStatus → Bool
is_simulated simulated = true
is_simulated _ = false

abbrev pub is_executed_status : DecisionStatus → Bool
is_executed_status executed = true
is_executed_status _ = false

module _ {Num : Type 0} where
  abbrev pub is_decision : ℕ → ℕ → Decision Num → Bool
  is_decision t i d = d.tenant_id == t && d.id == i

  -- `Decision.status == EXECUTED` on top of it, as in the third phase
  abbrev pub awaits_evaluation : ℕ → ℕ → Decision Num → Bool
  awaits_evaluation t i d = is_decision t i d && is_executed_status d.status

  abbrev pub mark_executed : Decision Num → Decision Num
  mark_executed d = record d { status = executed }

  abbrev pub mark_evaluated : ActualOutcome Num → Num → Decision Num → Decision Num
  mark_evaluated actual e d = record d {
    status = evaluated;
    actual_outcome = some actual;
    calibration_error = some e;
  }

module _ (N : Numbers) where
  open N use {Num, hundredths, is_finite, add, sub, div, abs, le, column}

  -- `_validate_prediction`
  unfoldable pub validate_prediction : PredictedOutcome Num → Result (Unit {0})
  validate_prediction p =
      if is_finite p.confidence
        && is_finite p.margin_change_pct
        && is_finite p.demand_change_pct
        && le (hundredths 0) p.confidence
        && le p.confidence (hundredths 100)
      then ok tt
      else err invalid_prediction

  -- `_calibration_error`, before the rounding of `round(error, 4)`, which `column` stands for
  calibration_error_of : PredictedOutcome Num → ActualOutcome Num → Option Num
  calibration_error_of p a = elim (sub p.margin_change_pct a.margin_change_pct) [
    | none ↦ none
    | some m ↦ elim (sub p.demand_change_pct a.demand_change_pct) [
      | none ↦ none
      | some d ↦ elim (add (abs m) (abs d)) [
        | none ↦ none
        | some total ↦ div total (hundredths 200)
      ]
    ]
  ]

  -- `_calibration_error`
  unfoldable pub calibration_error : PredictedOutcome Num → ActualOutcome Num → Result Num
  unfolding calibration_error_of
  calibration_error p a =
      if is_finite p.margin_change_pct
        && is_finite p.demand_change_pct
        && is_finite a.margin_change_pct
        && is_finite a.demand_change_pct
      then (elim (calibration_error_of p a) [
        | none ↦ err invalid_prediction
        | some e ↦ if is_finite e then ok (column e) else err invalid_prediction
      ])
      else err invalid_prediction

  -- `cleared = confidence >= CONFIDENCE_THRESHOLD`
  abbrev pub clears : PredictedOutcome Num → Bool
  clears p = le (hundredths 50) p.confidence

  -- the row of `propose_and_simulate`, as it comes back from the database
  abbrev pub new_decision : ℕ → ℕ → ActionType → Payload Num → PredictedOutcome Num → Decision Num
  new_decision id t a payload p = record {
    id = id;
    tenant_id = t;
    action_type = a;
    action_payload = payload;
    predicted_outcome = p;
    confidence = column p.confidence;
    confidence_threshold_cleared = clears p;
    status = if clears p then simulated else held_low_confidence;
    actual_outcome = none;
    calibration_error = none;
  }

  -- `propose_and_simulate`, given the simulator's answer
  unfoldable pub propose_and_simulate :
      ℕ
      → ℕ
      → ActionType
      → Payload Num
      → Result (PredictedOutcome Num)
      → Exec (List (Decision Num)) (Decision Num)
  unfolding validate_prediction
  propose_and_simulate id t a payload simulate = do
    p ← lift simulate
    lift (validate_prediction p)
    taken ← gets (find (λ d. d.id == id))
    raise_if (elim taken [ none ↦ false | some d ↦ true ]) integrity
    modify (λ ds. ds ++ new_decision id t a payload p ∷ [])
    pure (new_decision id t a payload p)

  -- phase 1 of `execute_and_observe`: the claim under the row lock
  unfoldable pub claim_decision : ℕ → ℕ → Exec (List (Decision Num)) (Decision Num)
  unfolding validate_prediction
  claim_decision t i = transaction (do
    row ← gets (find (is_decision t i))
    d ← lift (or_raise row decision_not_found)
    raise_if (not d.confidence_threshold_cleared) decision_state
    raise_if (not (is_simulated d.status)) decision_state
    lift (validate_prediction d.predicted_outcome)
    modify (update (is_decision t i) mark_executed)
    pure d)

  -- phase 3: the evaluation
  unfoldable pub persist_evaluation :
      ℕ → ℕ → ActualOutcome Num → Num → Exec (List (Decision Num)) (Decision Num)
  persist_evaluation t i actual e = transaction (do
    row ← gets (find (awaits_evaluation t i))
    d ← lift (or_raise row decision_state)
    modify (update (awaits_evaluation t i) (mark_evaluated actual e))
    pure (mark_evaluated actual e d))

  -- `execute_and_observe`; `observe` is the ground truth, which may raise
  unfoldable pub execute_and_observe :
      ℕ
      → ℕ
      → (Decision Num → Result (ActualOutcome Num))
      → Exec (List (Decision Num)) (Decision Num)
  execute_and_observe t i observe = do
    d ← claim_decision t i
    actual ← lift (observe d)
    e ← lift (calibration_error d.predicted_outcome actual)
    persist_evaluation t i actual e
