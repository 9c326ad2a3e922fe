-- ===== src/Policy/Risk.antt =====
-- Component_6/risk_classifier.py. `predicted` is given by its `confidence`, null where the
-- attribute is missing; action type and payload are typed, so their `isinstance` guards have no
-- counterpart.
pub mod Autonomy
use restaurant_ops_copilot.Prelude.{
  Bool, true, false, Option, none, some, Result, ok, err, invalid_operation, or_raise, str_eq, ◌&&◌,
  not, if◌then◌else◌,
}
use restaurant_ops_copilot.Prelude.Fallible.{◌>>=◌}
use restaurant_ops_copilot.Values.{
  Numbers, Value, null, bool, num, text, Payload, entry, get, ActionType, price_change,
  supplier_switch, menu_swap, staffing_change,
}
use restaurant_ops_copilot.Policy.Numeric.{
  Reason, current_not_finite, current_not_positive, field_missing, field_not_finite, field_negative,
  field_boolean, not_exact, not_integer, change_too_large, confidence_invalid, confidence_low,
  small_change, medium_change, supplier_review, removal_review, staffing_review,
  unsupported_menu_action, is_valid_numeric,
}

pub data RiskLevel : Type 0 where
  low medium high : RiskLevel

pub record RiskClassification (Num : Type 0) : Type 0 where
  pub risk_level : RiskLevel
  pub reversible : Bool
  pub requires_approval : Bool
  pub reason : Reason Num

module _ {Num : Type 0} where
  -- `_high_risk`
  abbrev pub high_risk : Reason Num → Bool → RiskClassification Num
  high_risk r back = record {
    risk_level = high;
    reversible = back;
    requires_approval = true;
    reason = r;
  }

  -- `_medium_risk`
  abbrev pub medium_risk : Reason Num → RiskClassification Num
  medium_risk r = record {
    risk_level = medium;
    reversible = true;
    requires_approval = true;
    reason = r;
  }

  -- `_low_risk`
  abbrev pub low_risk : Reason Num → RiskClassification Num
  low_risk r = record { risk_level = low; reversible = true; requires_approval = false; reason = r }

  -- an `except` that answers every error with one classification
  abbrev on_error : Result (RiskClassification Num) → Reason Num → RiskClassification Num
  on_error (ok c) r = c
  on_error (err e) r = high_risk r false

module _ (N : Numbers) where
  open N use {Num, hundredths, is_finite, is_integer, exact, parse, sub, div, abs, lt, le}

  -- the conversion by type of `_to_exact_decimal`
  exact_value : Value Num → Option Num
  exact_value (num x) = exact x
  exact_value (text s) = parse s
  exact_value _ = none

  -- `_to_exact_decimal`
  pub to_exact_decimal : Value Num → Result Num
  unfolding exact_value
  to_exact_decimal v = do
    x ← or_raise (exact_value v) invalid_operation
    if is_finite x then ok x else err invalid_operation

  -- `_pct_change`
  pub pct_change : Num → Num → Result Num
  unfolding to_exact_decimal
  pct_change new current = do
    n ← to_exact_decimal (num new)
    c ← to_exact_decimal (num current)
    d ← or_raise (sub n c) invalid_operation
    if le c (hundredths 0)
        then err invalid_operation
        else or_raise (div (abs d) c) invalid_operation

  -- `_confidence_is_valid`
  confidence_is_valid : Value Num → Bool
  unfolding to_exact_decimal
  confidence_is_valid v = is_valid_numeric N v && elim (to_exact_decimal v) [
    | ok c ↦ le (hundredths 0) c && le c (hundredths 100)
    | err e ↦ false
  ]

  -- `_confidence_is_high_enough`
  confidence_is_high_enough : Value Num → Bool
  unfolding confidence_is_valid
  confidence_is_high_enough v =
      confidence_is_valid v
      && elim (to_exact_decimal v) [ ok c ↦ le (hundredths 80) c | err e ↦ false ]

  -- the last three tests of `_classify_price_change`
  price_band : Num → Num → Num → RiskClassification Num
  price_band new pct limit =
      if lt new (hundredths 0)
      then high_risk field_negative false
      else if lt limit pct
      then high_risk (change_too_large pct) false
      else if le pct (hundredths 10)
      then low_risk (small_change pct)
      else medium_risk (medium_change pct)

  -- `_classify_price_change` from the test of `new_price` on
  classify_new_price : Option (Value Num) → Num → RiskClassification Num
  unfolding to_exact_decimal pct_change price_band
  classify_new_price none current = high_risk field_missing false
  classify_new_price (some v) current =
      if is_valid_numeric N v
      then on_error
          (do
            new ← to_exact_decimal v
            pct ← pct_change new current
            limit ← to_exact_decimal (num (hundredths 30))
            ok (price_band new pct limit))
          not_exact
      else high_risk field_not_finite false

  -- the tests of the current value that both price classifiers begin with
  with_current : Value Num → (Num → RiskClassification Num) → RiskClassification Num
  unfolding to_exact_decimal
  with_current cur rest =
      if is_valid_numeric N cur
      then on_error
          (do
            current ← to_exact_decimal cur
            ok (
                if le current (hundredths 0)
                then high_risk current_not_positive false
                else rest current))
          current_not_finite
      else high_risk current_not_finite false

  -- `_classify_supplier_switch` from the test of `new_supplier_price` on
  classify_new_supplier : Option (Value Num) → RiskClassification Num
  unfolding to_exact_decimal
  classify_new_supplier none = high_risk field_missing false
  classify_new_supplier (some v) =
      if is_valid_numeric N v
      then on_error
          (do
            new ← to_exact_decimal v
            ok (
                if lt new (hundredths 0)
                then high_risk field_negative false
                else medium_risk supplier_review))
          not_exact
      else high_risk field_not_finite false

  -- `_classify_menu_swap`, on `payload.get("action")`
  classify_menu_swap : Value Num → RiskClassification Num
  classify_menu_swap (text a) =
      if str_eq a "remove"
      then high_risk removal_review false
      else high_risk (unsupported_menu_action (text a)) false
  classify_menu_swap v = high_risk (unsupported_menu_action v) false

  -- `_classify_staffing_change`, on the field `headcount_delta`
  classify_staffing_change : Option (Value Num) → RiskClassification Num
  unfolding to_exact_decimal
  classify_staffing_change none = high_risk field_missing false
  classify_staffing_change (some (bool b)) = high_risk field_boolean false
  classify_staffing_change (some v) =
      if is_valid_numeric N v
      then on_error
          (do
            d ← to_exact_decimal v
            ok (if is_integer d then medium_risk staffing_review else high_risk not_integer false))
          not_exact
      else high_risk field_not_finite false

  -- the chain of `if action_type == ...`
  classify_action : ActionType → Payload Num → Value Num → RiskClassification Num
  unfolding with_current classify_new_price classify_new_supplier classify_menu_swap
      classify_staffing_change
  classify_action price_change p cur = with_current cur (classify_new_price (entry "new_price" p))
  classify_action supplier_switch p cur =
      with_current cur (λ _. classify_new_supplier (entry "new_supplier_price" p))
  classify_action menu_swap p cur = classify_menu_swap (get "action" p)
  classify_action staffing_change p cur = classify_staffing_change (entry "headcount_delta" p)

  unfoldable pub classify_risk :
      ActionType → Payload Num → Value Num → Value Num → RiskClassification Num
  unfolding confidence_is_high_enough classify_action
  classify_risk a p confidence cur =
      if not (confidence_is_valid confidence)
      then high_risk confidence_invalid false
      else if not (confidence_is_high_enough confidence)
      then high_risk (confidence_low confidence) true
      else classify_action a p cur
