-- ===== src/Ledger/Metrics.antt =====
-- `_rate`, `evaluate` and `EvaluationLedger.metrics` of Component_7/observability.py. Python's
-- `round(x, 4)` is an argument; the check that records are records has no counterpart.
use restaurant_ops_copilot.Prelude.{
  ℕ, ◌*◌, Bool, false, not, Option, none, some, List, [], ◌∷◌, Result, ok, err, any, count, length,
  value_error, invalid_operation, or_raise, if◌then◌else◌, ◌==◌,
}
use restaurant_ops_copilot.Prelude.Fallible.{◌>>=◌}
use restaurant_ops_copilot.Values.{Numbers}
use restaurant_ops_copilot.Ledger.{
  EvaluationRecord, EvaluationRecordRow, ℤ, pos, negsuc, list_for_tenant,
}

pub record EvaluationMetrics (Num : Type 0) : Type 0 where
  pub record_count : ℕ
  pub opportunity_detection_accuracy : Option Num
  pub candidate_action_validity : Option Num
  pub decision_success_rate : Option Num
  pub autonomous_action_rate : Option Num
  pub human_override_rate : Option Num
  pub policy_violation_rate : Option Num
  pub isolation_breach_count : ℕ
  pub execution_failure_rate : Option Num
  pub retry_rate : Option Num
  pub mean_decision_latency_ms : Option Num
  pub mean_cost_per_decision_usd : Option Num
  pub mean_absolute_prediction_error : Option Num
  pub mean_relative_prediction_error : Option Num

module _ {ℓ κ} {A : Type ℓ} {B : Type κ} where
  -- `[f(x) for x in xs if f(x) is not None]`
  abbrev pub present : (A → Option B) → List A → List B
  present f [] = []
  present f (x ∷ xs) = elim (f x) [ some y ↦ y ∷ present f xs | none ↦ present f xs ]

-- `retry > 0`
abbrev pub positive : ℤ → Bool
positive (pos n) = not (n == 0)
positive (negsuc n) = false

-- `value is True`
abbrev pub is_set : Option Bool → Bool
is_set none = false
is_set (some b) = b

module _ (N : Numbers) (round_4 : N.Num → N.Num) where
  open N use {Num, hundredths, add, sub, div, abs, eq}

  -- `round(x / n, 4)`
  abbrev rounded_share : Num → ℕ → Result (Option Num)
  rounded_share x n = do
    q ← or_raise (div x (hundredths (n * 100))) invalid_operation
    ok (some (round_4 q))

  -- the share of values that pass, `None` of no values
  abbrev share {ℓ} : {A : Type ℓ} → (A → Bool) → List A → Result (Option Num)
  share p [] = ok none
  share p (x ∷ xs) = rounded_share (hundredths (count p (x ∷ xs) * 100)) (length (x ∷ xs))

  unfoldable pub rate :
      List (EvaluationRecord Num) → (EvaluationRecord Num → Option Bool) → Result (Option Num)
  rate records field = share (λ value. value) (present field records)

  -- `sum(values)`, from the left
  abbrev sum_from : Num → List Num → Result Num
  sum_from total [] = ok total
  sum_from total (x ∷ xs) = do next ← or_raise (add total x) invalid_operation; sum_from next xs

  unfoldable pub average : List Num → Result (Option Num)
  average [] = ok none
  average (x ∷ xs) = do
    total ← sum_from (hundredths 0) (x ∷ xs)
    rounded_share total (length (x ∷ xs))

  abbrev paired : EvaluationRecord Num → Option (Num × Num)
  paired r = elim r.predicted_economic_impact [
    | none ↦ none
    | some predicted ↦ elim r.actual_economic_impact [
      | none ↦ none
      | some actual ↦ some (predicted, actual)
    ]
  ]

  abbrev absolute_errors : List (Num × Num) → Result (List Num)
  absolute_errors [] = ok []
  absolute_errors (x ∷ xs) = do
    difference ← or_raise (sub x.0 x.1) invalid_operation
    rest ← absolute_errors xs
    ok (abs difference ∷ rest)

  abbrev relative_errors : List (Num × Num) → Result (List Num)
  relative_errors [] = ok []
  relative_errors (x ∷ xs) =
      let rest = relative_errors xs in
      if eq x.1 (hundredths 0) then rest else do
        difference ← or_raise (sub x.0 x.1) invalid_operation
        relative ← or_raise (div (abs difference) (abs x.1)) invalid_operation
        others ← rest
        ok (relative ∷ others)

  -- the tenant's records only
  abbrev pub foreign : ℕ → EvaluationRecord Num → Bool
  foreign t r = not (r.tenant_id == t)

  abbrev pub aggregate : List (EvaluationRecord Num) → Result (EvaluationMetrics Num)
  aggregate selected = do
    absolute ← absolute_errors (present paired selected)
    relative ← relative_errors (present paired selected)
    accuracy ← rate selected (λ r. r.opportunity_was_correct)
    validity ← rate selected (λ r. r.candidate_was_valid)
    success ← rate selected (λ r. r.decision_succeeded)
    autonomy ← rate selected (λ r. r.autonomous)
    overrides ← rate selected (λ r. r.human_overrode)
    violations ← rate selected (λ r. r.policy_violation)
    failures ← rate selected (λ r. r.execution_failed)
    retries ← share positive (present (λ r. r.retry_count) selected)
    latency ← average (present (λ r. r.latency_ms) selected)
    cost ← average (present (λ r. r.cost_usd) selected)
    absolute_error ← average absolute
    relative_error ← average relative
    ok record {
      record_count = length selected;
      opportunity_detection_accuracy = accuracy;
      candidate_action_validity = validity;
      decision_success_rate = success;
      autonomous_action_rate = autonomy;
      human_override_rate = overrides;
      policy_violation_rate = violations;
      isolation_breach_count = count (λ r. is_set r.isolation_breach) selected;
      execution_failure_rate = failures;
      retry_rate = retries;
      mean_decision_latency_ms = latency;
      mean_cost_per_decision_usd = cost;
      mean_absolute_prediction_error = absolute_error;
      mean_relative_prediction_error = relative_error;
    }

  unfoldable pub evaluate : ℕ → List (EvaluationRecord Num) → Result (EvaluationMetrics Num)
  evaluate t selected = if any (foreign t) selected then err value_error else aggregate selected

  unfoldable pub metrics : ℕ → List (EvaluationRecordRow Num) → Result (EvaluationMetrics Num)
  metrics t rows = do records ← list_for_tenant N t rows; evaluate t records
