-- ===== src/Proposals/Validator/RoundTrip.antt =====
-- `CandidateAction.to_dict` (Component_3/models.py) read back by `validate_llm_candidate`.
use restaurant_ops_copilot.Prelude.{
  ◌≡◌, refl, ap, String, true, false, List, [], ◌∷◌, ok, if◌then◌else◌,
}
use restaurant_ops_copilot.Values.{
  Value, text, obj, Payload, ActionType, price_change, supplier_switch, menu_swap, staffing_change,
}
use restaurant_ops_copilot.Text.{is_blank, strip}
use restaurant_ops_copilot.Proposals.{
  CandidateAction, Opportunity, llm, obj_of, list_of, texts, dict_of-obj_of, action_value, to_dict,
}
use restaurant_ops_copilot.Proposals.Validator.{
  parse_action_type, validate_payload, validate_text, check_review, clean_assumptions,
  assumptions_of, candidate_of, validate_llm_candidate,
}

-- the texts that are not blank, stripped
abbrev pub stripped : List String → List String
stripped [] = []
stripped (s ∷ ss) = if is_blank s then stripped ss else strip s ∷ stripped ss

parse_action_type-action_value :
    (Num : Type 0) (a : ActionType) → parse_action_type {Num = Num} (text (action_value a)) ≡ ok a
unfolding parse_action_type
parse_action_type-action_value Num price_change = refl
parse_action_type-action_value Num supplier_switch = refl
parse_action_type-action_value Num menu_swap = refl
parse_action_type-action_value Num staffing_change = refl

module _ (Num : Type 0) where
  clean_assumptions-texts :
      (ss : List String) → clean_assumptions (list_of (texts {Num = Num} ss)) ≡ ok (stripped ss)
  unfolding clean_assumptions
  clean_assumptions-texts [] = refl
  clean_assumptions-texts (s ∷ ss) = rw (clean_assumptions-texts ss) refl

  validate_payload-obj_of :
      (e : String × Value Num) (p : Payload Num)
      → validate_payload (obj (obj_of (e ∷ p))) ≡ ok (e ∷ p)
  unfolding validate_payload
  validate_payload-obj_of e p = ap (λ q. ok (e ∷ q)) (dict_of-obj_of p)

  -- Read back against an opportunity, a candidate with a payload that is not empty and a rationale
  -- that is not blank comes out the same, but for what the boundary normalises: the opportunity is the
  -- given one, the rationale and the assumptions are stripped, blank assumptions are dropped, the
  -- source is the language model, and the candidate is flagged for a human, whatever it said itself.
  pub validate_llm_candidate-to_dict :
      (c : CandidateAction Num) (o : Opportunity Num) (e : String × Value Num) (p : Payload Num)
      → c.payload ≡ e ∷ p
      → is_blank c.rationale ≡ false
      → validate_llm_candidate (obj (obj_of (to_dict c))) o
        ≡ ok (record c {
          opportunity_id = o.id;
          rationale = strip c.rationale;
          requires_human_review = true;
          assumptions = stripped c.assumptions;
          source = llm;
        })
  unfolding validate_llm_candidate candidate_of to_dict validate_text check_review assumptions_of
  validate_llm_candidate-to_dict c o e p h k =
      rw (parse_action_type-action_value Num c.action_type) (
        rw h (
          rw (validate_payload-obj_of e p)
            (rw k (rw (clean_assumptions-texts c.assumptions) refl))))
