-- ===== src/Policy/Critic.antt =====
-- Component_4/critic.py. Action type and payload are typed here, so the two `isinstance` guards
-- of `critique` have no counterpart; logging leaves no trace in the verdict.
pub mod Bounds
use restaurant_ops_copilot.Prelude.{
  ℕ, String, Bool, true, false, Option, none, some, Result, ok, err, type_error, or_raise, ltb, ◌⊎◌,
  inl, inr, if◌then◌else◌,
}
use restaurant_ops_copilot.Prelude.Fallible.{◌>>=◌}
use restaurant_ops_copilot.Values.{
  Numbers, Value, null, num, Payload, entry, ActionType, price_change, supplier_switch, menu_swap,
  staffing_change,
}
use restaurant_ops_copilot.Policy.Numeric.{
  Reason, current_missing, current_not_finite, current_not_positive, field_missing,
  field_not_finite, not_integer, change_too_large, headcount_too_large, within_bounds,
  menu_unbounded,
}

pub record CriticVerdict (Num : Type 0) : Type 0 where
  pub approved : Bool
  pub reason : Reason Num

abbrev pub blocked : {Num : Type 0} → Reason Num → Result (CriticVerdict Num)
blocked r = ok (record { approved = false; reason = r })

abbrev pub accepted : {Num : Type 0} → Reason Num → Result (CriticVerdict Num)
accepted r = ok (record { approved = true; reason = r })

-- `MAX_HEADCOUNT_DELTA`
abbrev pub max_headcount_delta : ℕ
max_headcount_delta = 5

module _ (N : Numbers) where
  open N use {Num, hundredths, is_finite, is_integer, abs_int, sub, div, abs, lt, le}

  -- `_validate_positive_baseline`: the message, or the value as a number
  validate_positive_baseline : Value Num → Reason Num ⊎ Num
  validate_positive_baseline null = inl current_missing
  validate_positive_baseline (num c) =
      if is_finite c
      then (if le c (hundredths 0) then inl current_not_positive else inr c)
      else inl current_not_finite
  validate_positive_baseline _ = inl current_not_finite

  -- the tests of `_validate_payload_number` on the field's value
  check_number : Option (Value Num) → Reason Num ⊎ Num
  check_number none = inl field_missing
  check_number (some (num x)) = if is_finite x then inr x else inl field_not_finite
  check_number (some _) = inl field_not_finite

  -- `_validate_payload_number`
  validate_payload_number : Payload Num → String → Reason Num ⊎ Num
  unfolding check_number
  validate_payload_number p k = check_number (entry k p)

  -- `abs(new_price - current_value) / current_value`, against 30%
  price_verdict : Num → Num → Result (CriticVerdict Num)
  price_verdict p c = do
    d ← or_raise (sub p c) type_error
    pct ← or_raise (div (abs d) c) type_error
    if lt (hundredths 30) pct then blocked (change_too_large pct) else accepted within_bounds

  -- `(new_price - current_value) / current_value`, against 50%: a fall is not bounded
  supplier_verdict : Num → Num → Result (CriticVerdict Num)
  supplier_verdict p c = do
    d ← or_raise (sub p c) type_error
    pct ← or_raise (div d c) type_error
    if lt (hundredths 50) pct then blocked (change_too_large pct) else accepted within_bounds

  headcount_verdict : Num → Result (CriticVerdict Num)
  headcount_verdict d =
      if is_integer d
      then (if ltb max_headcount_delta (abs_int d)
          then blocked (headcount_too_large (abs_int d))
          else accepted within_bounds)
      else blocked not_integer

  -- the two validations and then the verdict on the numbers
  bounded_change :
      (Num → Num → Result (CriticVerdict Num))
      → Reason Num ⊎ Num
      → Reason Num ⊎ Num
      → Result (CriticVerdict Num)
  bounded_change verdict (inl r) _ = blocked r
  bounded_change verdict (inr c) (inl r) = blocked r
  bounded_change verdict (inr c) (inr p) = verdict p c

  staffing_verdict : Reason Num ⊎ Num → Result (CriticVerdict Num)
  unfolding headcount_verdict
  staffing_verdict (inl r) = blocked r
  staffing_verdict (inr d) = headcount_verdict d

  unfoldable pub critique : ActionType → Payload Num → Value Num → Result (CriticVerdict Num)
  unfolding validate_positive_baseline validate_payload_number price_verdict supplier_verdict
      bounded_change staffing_verdict
  critique price_change p cur =
      bounded_change price_verdict (validate_positive_baseline cur)
        (validate_payload_number p "new_price")
  critique supplier_switch p cur =
      bounded_change supplier_verdict (validate_positive_baseline cur)
        (validate_payload_number p "new_supplier_price")
  critique staffing_change p cur = staffing_verdict (validate_payload_number p "headcount_delta")
  critique menu_swap p cur = accepted menu_unbounded
