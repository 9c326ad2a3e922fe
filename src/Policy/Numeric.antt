-- ===== src/Policy/Numeric.antt =====
-- What the two gates share: the numeric check of Component_4/critic.py and the messages.
use restaurant_ops_copilot.Prelude.{ℕ, Bool, false}
use restaurant_ops_copilot.Values.{Numbers, Value, num}

-- The f-strings that a verdict carries, one constructor for each message.
pub data Reason (Num : Type 0) : Type 0 where
  current_missing current_not_finite current_not_positive : Reason Num
  field_missing field_not_finite field_negative field_boolean : Reason Num
  not_exact not_integer : Reason Num
  change_too_large : Num → Reason Num
  headcount_too_large : ℕ → Reason Num
  within_bounds menu_unbounded : Reason Num
  confidence_invalid : Reason Num
  confidence_low : Value Num → Reason Num
  small_change medium_change : Num → Reason Num
  supplier_review removal_review staffing_review : Reason Num
  unsupported_menu_action : Value Num → Reason Num

module _ (N : Numbers) where
  -- `_is_valid_numeric`
  unfoldable pub is_valid_numeric : Value N.Num → Bool
  is_valid_numeric (num x) = N.is_finite x
  is_valid_numeric _ = false
