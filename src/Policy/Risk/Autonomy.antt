-- ===== src/Policy/Risk/Autonomy.antt =====
-- Which actions Component_6/risk_classifier.py lets run without a human.
use restaurant_ops_copilot.Prelude.{
  ◌≡◌, refl, true, false, some, ok, arith, ◌↔◌, Result-cases, inl, inr,
}
use restaurant_ops_copilot.Values.{
  Numbers, Value, null, bool, num, text, arr, obj, Payload, entry, ActionType, price_change,
  supplier_switch, menu_swap, staffing_change,
}
use restaurant_ops_copilot.Policy.Numeric.{is_valid_numeric}
use restaurant_ops_copilot.Policy.Risk.{
  classify_risk, to_exact_decimal, pct_change, confidence_is_valid, confidence_is_high_enough,
  classify_new_price, with_current, price_band, classify_action,
}

module _ (N : Numbers) where
  open N use {Num, hundredths, is_finite, exact, sub, div, abs, lt, le}

  -- A finite number of the payload whose exact decimal value is finite.
  abbrev pub ExactNumber : Value Num → Num → Type 0
  ExactNumber v d =
      (raw : Num) × (v ≡ num raw)
      × (is_finite raw ≡ true)
      × (exact raw ≡ some d)
      × (is_finite d ≡ true)

  -- A confidence whose exact value lies between 80% and 100%.
  pub record Confident (confidence : Value Num) : Type 0 where
    pub level : Num
    pub level_is : ExactNumber confidence level
    pub enough : le (hundredths 80) level ≡ true
    pub at_least_zero : le (hundredths 0) level ≡ true
    pub at_most_one : le level (hundredths 100) ≡ true

  -- A proportion of the unsigned difference of two numbers, the second above zero.
  pub record ChangeOf (proposed current pct : Num) : Type 0 where
    pub new : Num
    pub base : Num
    pub difference : Num
    pub new_is : exact proposed ≡ some new
    pub new_finite : is_finite new ≡ true
    pub base_is : exact current ≡ some base
    pub base_finite : is_finite base ≡ true
    pub base_positive : le base (hundredths 0) ≡ false
    pub difference_is : sub new base ≡ some difference
    pub pct_is : div (abs difference) base ≡ some pct

  -- A price whose exact change from a positive current value is at most 10%.
  pub record SmallChange (p : Payload Num) (cur : Value Num) : Type 0 where
    pub current : Num
    pub field : Value Num
    pub proposed : Num
    pub pct : Num
    pub limit : Num
    pub current_is : ExactNumber cur current
    pub current_positive : le current (hundredths 0) ≡ false
    pub field_is : entry "new_price" p ≡ some field
    pub proposed_is : ExactNumber field proposed
    pub proposed_nonneg : lt proposed (hundredths 0) ≡ false
    pub change : ChangeOf proposed current pct
    pub limit_is : exact (hundredths 30) ≡ some limit
    pub limit_finite : is_finite limit ≡ true
    pub within_limit : lt limit pct ≡ false
    pub small : le pct (hundredths 10) ≡ true

  -- what the code computes behind an exact number
  abbrev Read : Value Num → Num → Type 0
  Read v d = (is_valid_numeric N v ≡ true) × (to_exact_decimal N v ≡ ok d)

  Read-ExactNumber : (v : Value Num) (d : Num) → Read v d → ExactNumber v d
  unfolding is_valid_numeric to_exact_decimal
  Read-ExactNumber (num x) d (h, k) = (x, refl, h, ground arith, ground arith)
  Read-ExactNumber null d (h, k) = absurd (ground arith)
  Read-ExactNumber (bool b) d (h, k) = absurd (ground arith)
  Read-ExactNumber (text s) d (h, k) = absurd (ground arith)
  Read-ExactNumber (arr xs) d (h, k) = absurd (ground arith)
  Read-ExactNumber (obj fs) d (h, k) = absurd (ground arith)

  ExactNumber-Read : (v : Value Num) (d : Num) → ExactNumber v d → Read v d
  unfolding is_valid_numeric to_exact_decimal
  ExactNumber-Read v d (x, is, h, e, k) = rw is (h, ground arith)

  pct_change-ChangeOf : (n c p : Num) → pct_change N n c ≡ ok p → ChangeOf n c p
  unfolding pct_change to_exact_decimal
  pct_change-ChangeOf n c p h = ground arith

  ChangeOf-pct_change : (n c p : Num) → ChangeOf n c p → pct_change N n c ≡ ok p
  unfolding pct_change to_exact_decimal
  ChangeOf-pct_change n c p h = ground arith

  -- the same with the functions of the code
  record Banded (p : Payload Num) (cur : Value Num) : Type 0 where
    pub current : Num
    pub field : Value Num
    pub proposed : Num
    pub pct : Num
    pub limit : Num
    pub current_read : Read cur current
    pub current_positive : le current (hundredths 0) ≡ false
    pub field_is : entry "new_price" p ≡ some field
    pub proposed_read : Read field proposed
    pub proposed_nonneg : lt proposed (hundredths 0) ≡ false
    pub pct_is : pct_change N proposed current ≡ ok pct
    pub limit_read : to_exact_decimal N (num (hundredths 30)) ≡ ok limit
    pub within_limit : lt limit pct ≡ false
    pub small : le pct (hundredths 10) ≡ true

  high_enough-Confident : (v : Value Num) → confidence_is_high_enough N v ≡ true → Confident v
  unfolding confidence_is_high_enough confidence_is_valid
  high_enough-Confident v h = elim (Result-cases (to_exact_decimal N v)) [
    | inr (e, unread) ↦ absurd (ground arith)
    | inl (d, read) ↦ record {
      level = d;
      level_is = Read-ExactNumber v d (ground arith, read);
      enough = ground arith;
      at_least_zero = ground arith;
      at_most_one = ground arith;
    }
  ]

  Confident-valid :
      (v : Value Num)
      → Confident v
      → (confidence_is_valid N v ≡ true) × (confidence_is_high_enough N v ≡ true)
  unfolding confidence_is_high_enough confidence_is_valid
  Confident-valid v c =
      let (h, k) = ExactNumber-Read v c.level c.level_is in
      (
        ground (arith, c.at_least_zero, c.at_most_one),
        ground (arith, c.enough, c.at_least_zero, c.at_most_one),
      )

  autonomous-Banded :
      (p : Payload Num) (cur : Value Num)
      → (classify_action N price_change p cur).requires_approval ≡ false
      → Banded p cur
  unfolding with_current classify_new_price price_band classify_action
  autonomous-Banded p cur h = ground arith

  Banded-autonomous :
      (p : Payload Num) (cur : Value Num)
      → Banded p cur
      → (classify_action N price_change p cur).requires_approval ≡ false
  unfolding with_current classify_new_price price_band classify_action
  Banded-autonomous p cur h = ground arith

  SmallChange-autonomous :
      (p : Payload Num) (cur : Value Num)
      → (classify_action N price_change p cur).requires_approval ≡ false
      → SmallChange p cur
  unfolding to_exact_decimal
  SmallChange-autonomous p cur h =
      let b = autonomous-Banded p cur h in
      record {
        current = b.current;
        field = b.field;
        proposed = b.proposed;
        pct = b.pct;
        limit = b.limit;
        current_is = Read-ExactNumber cur b.current b.current_read;
        current_positive = b.current_positive;
        field_is = b.field_is;
        proposed_is = Read-ExactNumber b.field b.proposed b.proposed_read;
        proposed_nonneg = b.proposed_nonneg;
        change = pct_change-ChangeOf b.proposed b.current b.pct b.pct_is;
        limit_is = ground (arith, b.limit_read);
        limit_finite = ground (arith, b.limit_read);
        within_limit = b.within_limit;
        small = b.small;
      }

  autonomous-SmallChange :
      (p : Payload Num) (cur : Value Num)
      → SmallChange p cur
      → (classify_action N price_change p cur).requires_approval ≡ false
  unfolding to_exact_decimal
  autonomous-SmallChange p cur c = Banded-autonomous p cur (record {
    current = c.current;
    field = c.field;
    proposed = c.proposed;
    pct = c.pct;
    limit = c.limit;
    current_read = ExactNumber-Read cur c.current c.current_is;
    current_positive = c.current_positive;
    field_is = c.field_is;
    proposed_read = ExactNumber-Read c.field c.proposed c.proposed_is;
    proposed_nonneg = c.proposed_nonneg;
    pct_is = ChangeOf-pct_change c.proposed c.current c.pct c.change;
    limit_read = ground (arith, c.limit_is, c.limit_finite);
    within_limit = c.within_limit;
    small = c.small;
  })

  supplier_reviewed :
      (p : Payload Num) (cur : Value Num)
      → (classify_action N supplier_switch p cur).requires_approval ≡ true
  unfolding classify_action
  supplier_reviewed p cur = ground arith

  menu_reviewed :
      (p : Payload Num) (cur : Value Num)
      → (classify_action N menu_swap p cur).requires_approval ≡ true
  unfolding classify_action
  menu_reviewed p cur = ground arith

  staffing_reviewed :
      (p : Payload Num) (cur : Value Num)
      → (classify_action N staffing_change p cur).requires_approval ≡ true
  unfolding classify_action
  staffing_reviewed p cur = ground arith

  -- An action needs no human approval exactly when it is a price change, the confidence's exact
  -- value lies between 80% and 100%, and the price stays non-negative and changes by at most 10% of
  -- a positive current value. Every other action, on every branch, requires approval.
  pub autonomous_iff :
      (a : ActionType) (p : Payload Num) (confidence cur : Value Num)
      → ((classify_risk N a p confidence cur).requires_approval ≡ false)
        ↔ ((a ≡ price_change) × Confident confidence × SmallChange p cur)
  unfolding classify_risk
  autonomous_iff a p confidence cur = (forward a, backward)
    where
      forward :
          (a : ActionType)
          → (classify_risk N a p confidence cur).requires_approval ≡ false
          → (a ≡ price_change) × Confident confidence × SmallChange p cur
      forward price_change h = (
        refl,
        high_enough-Confident confidence (ground arith),
        SmallChange-autonomous p cur (ground arith),
      )
      forward supplier_switch h = absurd (ground (arith, supplier_reviewed p cur))
      forward menu_swap h = absurd (ground (arith, menu_reviewed p cur))
      forward staffing_change h = absurd (ground (arith, staffing_reviewed p cur))

      backward :
          (a ≡ price_change) × Confident confidence × SmallChange p cur
          → (classify_risk N a p confidence cur).requires_approval ≡ false
      backward (e, c, s) =
          rw e (ground (arith, autonomous-SmallChange p cur s, Confident-valid confidence c))
