-- ===== src/Policy/Critic/Bounds.antt =====
-- What a verdict of the critic (Component_4/critic.py) guarantees.
use restaurant_ops_copilot.Prelude.{
  ◌≤◌, ◌≡◌, String, true, false, some, ok, arith, ◌↔◌, ◌⊎◌, inl, inr, refl, Result,
}
use restaurant_ops_copilot.Values.{
  Numbers, Value, num, Payload, entry, ActionType, price_change, supplier_switch, menu_swap,
  staffing_change,
}
use restaurant_ops_copilot.Policy.Numeric.{Reason, within_bounds, menu_unbounded}
use restaurant_ops_copilot.Policy.Critic.{
  CriticVerdict, max_headcount_delta, critique, validate_positive_baseline, validate_payload_number,
  price_verdict, supplier_verdict, bounded_change,
}

module _ (N : Numbers) where
  open N use {Num, hundredths, is_finite, is_integer, abs_int, sub, div, abs, lt, le}

  -- A finite positive current value and a finite number under the field.
  pub record Priced (p : Payload Num) (k : String) (cur : Value Num) : Type 0 where
    pub current : Num
    pub proposed : Num
    pub current_is : cur ≡ num current
    pub current_finite : is_finite current ≡ true
    pub current_positive : le current (hundredths 0) ≡ false
    pub proposed_is : entry k p ≡ some (num proposed)
    pub proposed_finite : is_finite proposed ≡ true

  -- What the hard policy permits, action by action.
  abbrev pub Permits : ActionType → Payload Num → Value Num → Type 0
  Permits price_change p cur =
      (q : Priced p "new_price" cur) × (d : Num) × (pct : Num) × (sub q.proposed q.current ≡ some d)
      × (div (abs d) q.current ≡ some pct)
      × (lt (hundredths 30) pct ≡ false)
  Permits supplier_switch p cur =
      (q : Priced p "new_supplier_price" cur) × (d : Num) × (pct : Num) × (sub q.proposed q.current
        ≡ some d)
      × (div d q.current ≡ some pct)
      × (lt (hundredths 50) pct ≡ false)
  Permits staffing_change p cur =
      (d : Num) × (entry "headcount_delta" p ≡ some (num d))
      × (is_finite d ≡ true)
      × (is_integer d ≡ true)
      × (abs_int d ≤ max_headcount_delta)
  Permits menu_swap p cur = Unit

  abbrev pub Approves : ActionType → Payload Num → Value Num → Type 0
  Approves a p cur = (v : CriticVerdict Num) × (critique N a p cur ≡ ok v) × (v.approved ≡ true)

  baseline-inr :
      (v : Value Num) (c : Num)
      → validate_positive_baseline N v ≡ inr c
      → (v ≡ num c) × (is_finite c ≡ true) × (le c (hundredths 0) ≡ false)
  unfolding validate_positive_baseline
  baseline-inr (num x) c h = ground arith
  baseline-inr _ c h = ground arith

  number-inr :
      (p : Payload Num) (k : String) (x : Num)
      → validate_payload_number N p k ≡ inr x
      → (entry k p ≡ some (num x)) × (is_finite x ≡ true)
  unfolding validate_payload_number
  number-inr p k x h = ground arith

  price_verdict_approved :
      (p c : Num) {v : CriticVerdict Num}
      → price_verdict N p c ≡ ok v
      → v.approved ≡ true
      → (d : Num) × (pct : Num) × (sub p c ≡ some d)
        × (div (abs d) c ≡ some pct)
        × (lt (hundredths 30) pct ≡ false)
  unfolding price_verdict
  price_verdict_approved p c h a = ground arith

  supplier_verdict_approved :
      (p c : Num) {v : CriticVerdict Num}
      → supplier_verdict N p c ≡ ok v
      → v.approved ≡ true
      → (d : Num) × (pct : Num) × (sub p c ≡ some d)
        × (div d c ≡ some pct)
        × (lt (hundredths 50) pct ≡ false)
  unfolding supplier_verdict
  supplier_verdict_approved p c h a = ground arith

  -- An approval of a bounded change is an approval by its verdict on two checked numbers.
  bounded_change_approved :
      (verdict : Num → Num → Result (CriticVerdict Num)) (p : Payload Num) (k : String)
      (cur : Value Num) (x y : Reason Num ⊎ Num) {v : CriticVerdict Num}
      → validate_positive_baseline N cur ≡ x
      → validate_payload_number N p k ≡ y
      → bounded_change N verdict x y ≡ ok v
      → v.approved ≡ true
      → (q : Priced p k cur) × (verdict q.proposed q.current ≡ ok v)
  unfolding bounded_change
  bounded_change_approved verdict p k cur (inl r) y ex ey h a = absurd (ground arith)
  bounded_change_approved verdict p k cur (inr c) (inl r) ex ey h a = absurd (ground arith)
  bounded_change_approved verdict p k cur (inr c) (inr x) ex ey h a =
      let (c_is, c_finite, c_pos) = baseline-inr cur c ex in
      let (x_is, x_finite) = number-inr p k x ey in
      (
        record {
          current = c;
          proposed = x;
          current_is = c_is;
          current_finite = c_finite;
          current_positive = c_pos;
          proposed_is = x_is;
          proposed_finite = x_finite;
        },
        h,
      )

  Approves-Permits :
      (a : ActionType) (p : Payload Num) (cur : Value Num) → Approves a p cur → Permits a p cur
  unfolding critique
  Approves-Permits price_change p cur (v, h, a) =
      let (q, e) = bounded_change_approved (price_verdict N) p "new_price" cur _ _ refl refl h a in
      let (d, pct, s, f, b) = price_verdict_approved q.proposed q.current e a in
      (q, d, pct, s, f, b)
  Approves-Permits supplier_switch p cur (v, h, a) =
      let (q, e) =
        bounded_change_approved (supplier_verdict N) p "new_supplier_price" cur _ _ refl refl h a in
      let (d, pct, s, f, b) = supplier_verdict_approved q.proposed q.current e a in
      (q, d, pct, s, f, b)
  Approves-Permits menu_swap p cur h = tt
  Approves-Permits staffing_change p cur (v, h, a) = ground arith

  Permits-Approves :
      (a : ActionType) (p : Payload Num) (cur : Value Num) → Permits a p cur → Approves a p cur
  unfolding critique
  Permits-Approves price_change p cur (q, d, pct, s, e, b) =
      (record { approved = true; reason = within_bounds }, ground arith, refl)
  Permits-Approves supplier_switch p cur (q, d, pct, s, e, b) =
      (record { approved = true; reason = within_bounds }, ground arith, refl)
  Permits-Approves menu_swap p cur h =
      (record { approved = true; reason = menu_unbounded }, refl, refl)
  Permits-Approves staffing_change p cur h =
      (record { approved = true; reason = within_bounds }, ground arith, refl)

  -- The critic approves an action exactly when the hard policy permits it: a price within 30% and a
  -- supplier's price at most 50% above a finite positive current value, a finite whole headcount
  -- change of at most 5, and any menu change. In every other case it blocks or Python raises.
  pub critique_iff :
      (a : ActionType) (p : Payload Num) (cur : Value Num) → Approves a p cur ↔ Permits a p cur
  critique_iff a p cur = (Approves-Permits a p cur, Permits-Approves a p cur)
