-- ===== src/Examples/Candidates.antt =====
-- Candidates for one dish whose margin has fallen.
use restaurant_ops_copilot.Prelude.{
  ◌≡◌, ◌↔◌, refl, String, true, false, some, List, [], ◌∷◌, Result, ok, All, if◌then◌else◌,
}
use restaurant_ops_copilot.Values.{
  Value, get, text, num, arr, obj, nil, cons, Payload, price_change,
}
use restaurant_ops_copilot.Text.{is_blank, strip}
use restaurant_ops_copilot.Proposals.{
  CandidateAction, Opportunity, margin_deterioration, deterministic, llm, to_dict, obj_of,
  allowed_llm_actions_for,
}
use restaurant_ops_copilot.Proposals.Validator.{
  validate_llm_candidate, candidate_of, parse_action_type, validate_payload, validate_text,
  check_review, clean_assumptions, assumptions_of, validate_candidate_against_opportunity,
  domain_check, validate_price_change_against_opportunity, has_price_change_keys, check_item,
  strict_decimal, within_limit,
}
use restaurant_ops_copilot.Proposals.Merger.{same_key, merge_from, merge_candidates}
use restaurant_ops_copilot.Proposals.Validator.Bounds.{Passes, Verified, validate_iff}
use restaurant_ops_copilot.Proposals.Validator.RoundTrip.{validate_llm_candidate-to_dict}
use restaurant_ops_copilot.Proposals.Deterministic.{
  finite_decimal, price_to_step, proposed_price, restoring_price, margin_price, price_candidate,
  names_item, margin_candidate, generate_candidate_actions,
}
use restaurant_ops_copilot.Proposals.Reasoning.{
  Reasoner, reason, with_llm, merge_or_fall_back, raw_candidates, collect, checked_candidate,
  reason_about_opportunity,
}
use restaurant_ops_copilot.Proposals.Grounded.{Grounded, every_candidate_is_Grounded}
use restaurant_ops_copilot.Examples.Data.{Fixed, plus, fixed, raise_price}

-- a dish at 10.00 that costs 7.00
abbrev pub thin_margin : Opportunity Fixed
thin_margin = record {
  id = "margin:soup";
  tenant_id = 1;
  opportunity_type = margin_deterioration;
  title = "Thin margin";
  cause = "Cost";
  affected_entity_ids = "soup" ∷ [];
  estimated_monthly_impact = plus 500000;
  confidence = plus 9000;
  evidence =
      ("menu_item_id", text "soup")
      ∷ ("current_price", num (plus 100000))
      ∷ ("recipe_cost", num (plus 70000))
      ∷ [];
}

-- what the model proposes: 10.50
abbrev pub proposed_candidate : CandidateAction Fixed
proposed_candidate = record {
  opportunity_id = "margin:soup";
  action_type = price_change;
  payload = raise_price;
  rationale = " Costs rose ";
  requires_human_review = false;
  assumptions = "demand holds" ∷ " " ∷ [];
  source = llm;
}

-- an answer with that candidate, and one for a dish that nobody named
abbrev pub answer : Value Fixed
answer = obj (
    obj_of (
      (
        "candidates",
        arr (
            cons (obj (obj_of (to_dict proposed_candidate))) (
              cons
                (obj (
                  obj_of (
                    to_dict (record proposed_candidate {
                      payload =
                          ("menu_item_id", text "stew") ∷ ("new_price", num (plus 105000)) ∷ [];
                    }))))
                nil)),
      )
      ∷ []))

abbrev pub model : Reasoner Fixed
model = some (λ o. ok answer)

abbrev pub print : Payload Fixed → String
print p = elim (get "new_price" p) [
  | num x ↦ (if fixed.le x (plus 105000) then "low" else "high")
  | _ ↦ "none"
]

validate_iff_example :
    Passes fixed proposed_candidate thin_margin ↔ Verified fixed proposed_candidate thin_margin
validate_iff_example = validate_iff fixed proposed_candidate thin_margin

validate_llm_candidate-to_dict_example :
    validate_llm_candidate (obj (obj_of (to_dict proposed_candidate))) thin_margin
    ≡ ok (record proposed_candidate {
      rationale = "Costs rose";
      requires_human_review = true;
      assumptions = "demand holds" ∷ [];
    })
unfolding is_blank strip
validate_llm_candidate-to_dict_example =
    validate_llm_candidate-to_dict Fixed proposed_candidate thin_margin
      ("menu_item_id", text "soup") (("new_price", num (plus 105000)) ∷ []) refl refl

abbrev reasoned : Result (List (CandidateAction Fixed))
reasoned = reason_about_opportunity fixed print model thin_margin

-- the rule's price, 10.75
abbrev rule_candidate : CandidateAction Fixed
rule_candidate = record proposed_candidate {
  payload = ("menu_item_id", text "soup") ∷ ("new_price", num (plus 107500)) ∷ [];
  rationale =
      "Raise price only enough to restore the configured contribution-margin target; Component 2 must estimate demand impact.";
  assumptions = [];
  source = deterministic;
}

abbrev accepted_candidate : CandidateAction Fixed
accepted_candidate = record proposed_candidate {
  rationale = "Costs rose";
  requires_human_review = true;
  assumptions = "demand holds" ∷ [];
}

every_candidate_is_Grounded_example :
    All (Grounded fixed thin_margin) (rule_candidate ∷ accepted_candidate ∷ [])
unfolding reason_about_opportunity generate_candidate_actions margin_candidate names_item
    finite_decimal margin_price restoring_price proposed_price price_to_step price_candidate
    is_blank allowed_llm_actions_for with_llm merge_or_fall_back reason raw_candidates collect
    checked_candidate validate_llm_candidate candidate_of parse_action_type validate_payload
    validate_text check_review clean_assumptions assumptions_of strip to_dict
    validate_candidate_against_opportunity domain_check validate_price_change_against_opportunity
    has_price_change_keys check_item strict_decimal within_limit merge_candidates merge_from
    same_key
every_candidate_is_Grounded_example =
    every_candidate_is_Grounded fixed print model thin_margin
      (rule_candidate ∷ accepted_candidate ∷ []) refl
