-- ===== src/Proposals/Deterministic.antt =====
-- The rules of Component_3/reasoning.py. Where a rule gives no candidate for a value that is out of
-- its range, the price below is `none`; the handlers of an `InvalidOperation` do the same. An
-- operation of `Decimal` that the code does not guard raises.
use restaurant_ops_copilot.Prelude.{
  String, false, Option, none, some, List, [], ◌∷◌, Result, ok, or_raise, any, str_eq, not, ◌||◌,
  if◌then◌else◌, invalid_operation,
}
use restaurant_ops_copilot.Prelude.Fallible.{◌>>=◌}
use restaurant_ops_copilot.Values.{Numbers, Value, null, bool, num, text, get, price_change}
use restaurant_ops_copilot.Text.{is_blank}
use restaurant_ops_copilot.Proposals.{
  CandidateAction, Opportunity, deterministic, margin_deterioration, demand_decline,
  stockout_exposure,
}

module _ (N : Numbers) where
  open N use {
    Num, hundredths, is_finite, add, mul, sub, div, round_half_up, to_float, lt, le, decimal,
  }

  abbrev finite : Num → Option Num
  finite d = if is_finite d then some d else none

  -- `_finite_decimal`
  unfoldable pub finite_decimal : Value Num → Option Num
  finite_decimal null = none
  finite_decimal (bool b) = none
  finite_decimal v = elim (decimal v) [ none ↦ none | some d ↦ finite d ]

  -- `price / PRICE_STEP`, rounded, times `PRICE_STEP`
  abbrev steps : Num → Option Num
  steps price = elim (div price (hundredths 25)) [
    | none ↦ none
    | some q ↦ elim (round_half_up q) [ none ↦ none | some r ↦ mul r (hundredths 25) ]
  ]

  -- `_price_to_step`
  unfoldable pub price_to_step : Num → Option Num
  price_to_step price =
      if is_finite price
      then elim (steps price) [
        | none ↦ none
        | some r ↦ if is_finite r then some (to_float r) else none
      ]
      else none

  -- the proposed price, if it is finite and positive
  unfoldable pub proposed_price : Num → Option Num
  proposed_price d = elim (price_to_step d) [
    | none ↦ none
    | some p ↦ if not (is_finite p) || le p (hundredths 0) then none else some p
  ]

  -- the price that restores the margin, or one step above the current one
  unfoldable pub restoring_price : Num → Num → Result (Option Num)
  restoring_price price q =
      if not (is_finite q)
      then ok none
      else if le q price
      then (do
        raised_price ← or_raise (add price (hundredths 25)) invalid_operation
        ok (proposed_price raised_price))
      else ok (proposed_price q)

  unfoldable pub margin_price : Option Num → Option Num → Result (Option Num)
  margin_price none cost = ok none
  margin_price (some price) none = ok none
  margin_price (some price) (some cost) =
      if le price (hundredths 0) || lt cost (hundredths 0) then ok none else do
        denominator ← or_raise (sub (hundredths 100) (hundredths 35)) invalid_operation
        if le denominator (hundredths 0)
            then ok none
            else elim (div cost denominator) [ none ↦ ok none | some q ↦ restoring_price price q ]

  -- the current price less 5%
  unfoldable pub discounted_price : Num → Num → Option Num
  discounted_price price factor = elim (mul price factor) [
    | none ↦ none
    | some q ↦ if not (is_finite q) || le q (hundredths 0) then none else proposed_price q
  ]

  unfoldable pub demand_price : Option Num → Result (Option Num)
  demand_price none = ok none
  demand_price (some price) = if le price (hundredths 0) then ok none else do
    factor ← or_raise (sub (hundredths 100) (hundredths 5)) invalid_operation
    ok (discounted_price price factor)

  -- the candidate for a price
  unfoldable pub price_candidate :
      Opportunity Num → String → String → List String → Option Num → List (CandidateAction Num)
  price_candidate o item rationale assumptions none = []
  price_candidate o item rationale assumptions (some price) =
      record {
        opportunity_id = o.id;
        action_type = price_change;
        payload = ("menu_item_id", text item) ∷ ("new_price", num price) ∷ [];
        rationale = rationale;
        requires_human_review = false;
        assumptions = assumptions;
        source = deterministic;
      }
      ∷ []

  -- the tests on `menu_item_id` that both rules make
  unfoldable pub names_item : Value Num → Opportunity Num → Option String
  names_item (text item) o =
      if is_blank item || not (any (str_eq item) o.affected_entity_ids) then none else some item
  names_item _ o = none

  -- `_margin_candidate`
  unfoldable pub margin_candidate : Opportunity Num → Result (List (CandidateAction Num))
  margin_candidate o = elim (names_item (get "menu_item_id" o.evidence) o) [
    | none ↦ ok []
    | some item ↦ do
      price ←
          margin_price (finite_decimal (get "current_price" o.evidence))
            (finite_decimal (get "recipe_cost" o.evidence))
      ok (
          price_candidate o item
            "Raise price only enough to restore the configured contribution-margin target; Component 2 must estimate demand impact."
            [] price)
  ]

  -- `_demand_candidate`
  unfoldable pub demand_candidate : Opportunity Num → Result (List (CandidateAction Num))
  demand_candidate o = elim (names_item (get "menu_item_id" o.evidence) o) [
    | none ↦ ok []
    | some item ↦ do
      price ← demand_price (finite_decimal (get "current_price" o.evidence))
      ok (
          price_candidate o item
            "Test a small, reversible price decrease against the detected demand decline."
            ("Demand decline is price-sensitive; simulate the proposed price change with Component 2 before execution."
              ∷ [])
            price)
  ]

  -- `generate_candidate_actions`
  unfoldable pub generate_candidate_actions : Opportunity Num → Result (List (CandidateAction Num))
  generate_candidate_actions o = elim o.opportunity_type [
    | margin_deterioration ↦ margin_candidate o
    | demand_decline ↦ demand_candidate o
    | stockout_exposure ↦ ok []
  ]
