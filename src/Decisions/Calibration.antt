-- ===== src/Decisions/Calibration.antt =====
-- Component_2/calibration.py: what the evaluated decisions of a tenant say of the predictions. A
-- prediction is a record here, so `rationale` is left out; `round(x, 4)` is an argument.
pub mod Worst
pub mod Grouped
use restaurant_ops_copilot.Prelude.{
  ℕ, ◌*◌, ◌≡◌, Bool, true, false, Option, none, some, List, [], ◌∷◌, map, Result, ok, err, any,
  length, take, value_error, invalid_operation, or_raise, if◌then◌else◌, ◌==◌, ◌&&◌, ◌||◌, ltb,
}
use restaurant_ops_copilot.Prelude.Fallible.{◌>>=◌}
use restaurant_ops_copilot.Prelude.Sorting.{sort_by}
use restaurant_ops_copilot.Values.{Numbers, ActionType, DecisionStatus, evaluated}
use restaurant_ops_copilot.ToolResult.{ActualOutcome}
use restaurant_ops_copilot.Decisions.{Decision, PredictedOutcome}

pub record OverallCalibration (Num : Type 0) : Type 0 where
  pub error_count : ℕ
  pub mean_calibration_error : Option Num
  pub min_error : Option Num
  pub max_error : Option Num

pub record WorstPrediction (Num : Type 0) : Type 0 where
  pub decision_id : ℕ
  pub action_type : ActionType
  pub predicted_outcome : PredictedOutcome Num
  pub actual_outcome : Option (ActualOutcome Num)
  pub calibration_error : Num

abbrev pub is_evaluated : DecisionStatus → Bool
is_evaluated evaluated = true
is_evaluated _ = false

-- `_MAX_WORST_PREDICTIONS_LIMIT`
abbrev pub max_worst_predictions_limit : ℕ
max_worst_predictions_limit = 100

-- `_validate_limit`
unfoldable pub validate_limit : ℕ → Result ℕ
validate_limit limit =
    if limit == 0 || ltb max_worst_predictions_limit limit then err value_error else ok limit

module _ (N : Numbers) (round_4 : N.Num → N.Num) where
  open N use {Num, hundredths, is_finite, add, div, lt, eq}

  -- the decisions of `_calibration_query` whose error is valid, with the error (`_valid_error`)
  unfoldable pub errors_of : ℕ → List (Decision Num) → List (Decision Num × Num)
  errors_of t [] = []
  errors_of t (d ∷ ds) =
      let rest = errors_of t ds in
      elim d.calibration_error [
        | none ↦ rest
        | some e ↦
            if d.tenant_id == t && is_evaluated d.status && is_finite e then (d, e) ∷ rest else rest
      ]

  abbrev pub sum_errors : Num → List (Decision Num × Num) → Result Num
  sum_errors total [] = ok total
  sum_errors total (x ∷ xs) = do
    next ← or_raise (add total x.1) invalid_operation
    sum_errors next xs

  -- `min` and `max`: the first among equals
  abbrev least : Num → List (Decision Num × Num) → Num
  least m [] = m
  least m (x ∷ xs) = least (if lt x.1 m then x.1 else m) xs

  abbrev greatest : Num → List (Decision Num × Num) → Num
  greatest m [] = m
  greatest m (x ∷ xs) = greatest (if lt m x.1 then x.1 else m) xs

  abbrev pub calibration_of : List (Decision Num × Num) → Result (OverallCalibration Num)
  calibration_of [] =
      ok record {
        error_count = 0;
        mean_calibration_error = none;
        min_error = none;
        max_error = none;
      }
  calibration_of (x ∷ xs) = do
    total ← sum_errors (hundredths 0) (x ∷ xs)
    mean ← or_raise (div total (hundredths (length (x ∷ xs) * 100))) invalid_operation
    ok record {
      error_count = length (x ∷ xs);
      mean_calibration_error = some (round_4 mean);
      min_error = some (round_4 (least x.1 xs));
      max_error = some (round_4 (greatest x.1 xs));
    }

  unfoldable pub overall_calibration : ℕ → List (Decision Num) → Result (OverallCalibration Num)
  overall_calibration t ds = calibration_of (errors_of t ds)

  abbrev pub worst_prediction : Decision Num × Num → WorstPrediction Num
  worst_prediction x = record {
    decision_id = x.0.id;
    action_type = x.0.action_type;
    predicted_outcome = x.0.predicted_outcome;
    actual_outcome = x.0.actual_outcome;
    calibration_error = round_4 x.1;
  }

  -- the key `(-error, decision_id)`
  abbrev pub worse : WorstPrediction Num → WorstPrediction Num → Bool
  worse a b =
      lt b.calibration_error a.calibration_error
      || eq a.calibration_error b.calibration_error && ltb a.decision_id b.decision_id

  unfoldable pub worst_predictions :
      ℕ → ℕ → List (Decision Num) → Result (List (WorstPrediction Num))
  worst_predictions t limit ds = do
    n ← validate_limit limit
    ok (take n (sort_by worse (map worst_prediction (errors_of t ds))))

  -- The prediction is that of an evaluated decision of the tenant.
  abbrev pub Evaluated : ℕ → List (Decision Num) → WorstPrediction Num → Type 0
  Evaluated t ds p =
      any (λ d. d.id == p.decision_id && d.tenant_id == t && is_evaluated d.status) ds ≡ true
