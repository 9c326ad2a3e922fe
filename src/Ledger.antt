-- ===== src/Ledger.antt =====
-- The evaluation ledger of Component_7: models.py and observability.py. A tenant's id is canonical
-- and that of a known tenant; the type guards of bools and texts have no counterpart.
pub mod Listing
pub mod Metrics
pub mod Isolation
use restaurant_ops_copilot.Prelude.{
  ℕ, String, Bool, true, false, Option, none, some, List, [], ◌∷◌, ◌++◌, Result, ok, err, Exec, any,
  filter_rows, str_eq, ltb, ◌==◌, ◌&&◌, ◌||◌, not, if◌then◌else◌, value_error,
}
use restaurant_ops_copilot.Prelude.Fallible.{◌>>=◌}
use restaurant_ops_copilot.Prelude.Sorting.{sort_by}
use restaurant_ops_copilot.Text.{is_blank}
use restaurant_ops_copilot.Values.{Numbers}

-- Python's `int`: `pos n` is n, `negsuc n` is -(n + 1).
pub data ℤ : Type 0 where
  pos negsuc : ℕ → ℤ

pub record EvaluationRecord (Num : Type 0) : Type 0 where
  pub tenant_id : ℕ
  pub record_id : String
  pub decision_id : Option String
  pub action_type : Option String
  pub opportunity_was_correct : Option Bool
  pub candidate_was_valid : Option Bool
  pub decision_succeeded : Option Bool
  pub human_overrode : Option Bool
  pub policy_violation : Option Bool
  pub isolation_breach : Option Bool
  pub execution_failed : Option Bool
  pub retry_count : Option ℤ
  pub autonomous : Option Bool
  pub latency_ms : Option Num
  pub cost_usd : Option Num
  pub predicted_economic_impact : Option Num
  pub actual_economic_impact : Option Num

pub record EvaluationRecordRow (Num : Type 0) : Type 0 where
  pub tenant_id : ℕ
  pub record_id : String
  pub decision_id : Option String
  pub action_type : Option String
  pub opportunity_was_correct : Option Bool
  pub candidate_was_valid : Option Bool
  pub decision_succeeded : Option Bool
  pub human_overrode : Option Bool
  pub policy_violation : Option Bool
  pub isolation_breach : Option Bool
  pub execution_failed : Option Bool
  pub retry_count : Option ℤ
  pub autonomous : Option Bool
  pub latency_ms : Option Num
  pub cost_usd : Option Num
  pub predicted_economic_impact : Option Num
  pub actual_economic_impact : Option Num
  pub created_at : ℕ

-- a text that is given and blank
abbrev blank_text : Option String → Bool
blank_text none = false
blank_text (some s) = is_blank s

-- a count that is given and below zero
abbrev pub negative : Option ℤ → Bool
negative none = false
negative (some (pos n)) = false
negative (some (negsuc n)) = true

module _ {Num : Type 0} where
  -- the row that `record` adds
  abbrev pub new_row : ℕ → EvaluationRecord Num → EvaluationRecordRow Num
  new_row now r = record {
    tenant_id = r.tenant_id;
    record_id = r.record_id;
    decision_id = r.decision_id;
    action_type = r.action_type;
    opportunity_was_correct = r.opportunity_was_correct;
    candidate_was_valid = r.candidate_was_valid;
    decision_succeeded = r.decision_succeeded;
    human_overrode = r.human_overrode;
    policy_violation = r.policy_violation;
    isolation_breach = r.isolation_breach;
    execution_failed = r.execution_failed;
    retry_count = r.retry_count;
    autonomous = r.autonomous;
    latency_ms = r.latency_ms;
    cost_usd = r.cost_usd;
    predicted_economic_impact = r.predicted_economic_impact;
    actual_economic_impact = r.actual_economic_impact;
    created_at = now;
  }

  -- the arguments of `_row_to_record`
  abbrev pub row_fields : EvaluationRecordRow Num → EvaluationRecord Num
  row_fields r = record {
    tenant_id = r.tenant_id;
    record_id = r.record_id;
    decision_id = r.decision_id;
    action_type = r.action_type;
    opportunity_was_correct = r.opportunity_was_correct;
    candidate_was_valid = r.candidate_was_valid;
    decision_succeeded = r.decision_succeeded;
    human_overrode = r.human_overrode;
    policy_violation = r.policy_violation;
    isolation_breach = r.isolation_breach;
    execution_failed = r.execution_failed;
    retry_count = r.retry_count;
    autonomous = r.autonomous;
    latency_ms = r.latency_ms;
    cost_usd = r.cost_usd;
    predicted_economic_impact = r.predicted_economic_impact;
    actual_economic_impact = r.actual_economic_impact;
  }

  abbrev pub has_record_id : ℕ → String → EvaluationRecordRow Num → Bool
  has_record_id t i r = r.tenant_id == t && str_eq r.record_id i

  -- `ORDER BY created_at`
  abbrev pub earlier : EvaluationRecordRow Num → EvaluationRecordRow Num → Bool
  earlier a b = ltb a.created_at b.created_at

  abbrev pub rows_of : ℕ → List (EvaluationRecordRow Num) → List (EvaluationRecordRow Num)
  rows_of t rows = sort_by earlier (filter_rows (λ r. r.tenant_id == t) rows)

module _ (N : Numbers) where
  open N use {Num, hundredths, is_finite, lt}

  -- a number that is given and below zero
  abbrev below_zero : Option Num → Bool
  below_zero none = false
  below_zero (some x) = lt x (hundredths 0)

  -- a number that is given and not finite (`_optional_finite`)
  abbrev not_finite : Option Num → Bool
  not_finite none = false
  not_finite (some x) = not (is_finite x)

  -- whether `EvaluationRecord.__post_init__` raises
  unfoldable pub is_invalid : EvaluationRecord Num → Bool
  is_invalid r =
      is_blank r.record_id
      || blank_text r.decision_id
      || blank_text r.action_type
      || negative r.retry_count
      || not_finite r.latency_ms
      || below_zero r.latency_ms
      || not_finite r.cost_usd
      || below_zero r.cost_usd
      || not_finite r.predicted_economic_impact
      || not_finite r.actual_economic_impact

  -- `EvaluationRecord(...)`
  unfoldable pub evaluation_record : EvaluationRecord Num → Result (EvaluationRecord Num)
  evaluation_record r = if is_invalid r then err value_error else ok r

  -- the CHECK constraints of the table
  unfoldable pub breaks_check : EvaluationRecordRow Num → Bool
  breaks_check r = negative r.retry_count || below_zero r.latency_ms || below_zero r.cost_usd

  -- `EvaluationLedger.record`: a taken id, or a broken CHECK, is reported as a taken id
  unfoldable pub record_observation :
      ℕ → EvaluationRecord Num → Exec (List (EvaluationRecordRow Num)) (Unit {0})
  record_observation now r rows =
      if any (has_record_id r.tenant_id r.record_id) rows || breaks_check (new_row now r)
      then (err value_error, rows)
      else (ok tt, rows ++ new_row now r ∷ [])

  -- `_row_to_record` of every row
  unfoldable pub rows_to_records :
      List (EvaluationRecordRow Num) → Result (List (EvaluationRecord Num))
  rows_to_records [] = ok []
  rows_to_records (r ∷ rows) = do
    first ← evaluation_record (row_fields r)
    rest ← rows_to_records rows
    ok (first ∷ rest)

  -- `EvaluationLedger.list_for_tenant`
  unfoldable pub list_for_tenant :
      ℕ → List (EvaluationRecordRow Num) → Result (List (EvaluationRecord Num))
  list_for_tenant t rows = rows_to_records (rows_of t rows)
