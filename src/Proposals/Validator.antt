-- ===== src/Proposals/Validator.antt =====
-- Component_3/candidate_validator.py, the boundary for what the language model proposes. A
-- `CandidateValidationError` is the error `candidate_validation`.
pub mod Bounds
pub mod RoundTrip
use restaurant_ops_copilot.Prelude.{
  ℕ, ◌≡◌, refl, String, Bool, true, false, Option, none, some, List, [], ◌∷◌, Result, ok, err,
  or_raise, any, str_eq, not, ◌&&◌, ◌||◌, if◌then◌else◌, candidate_validation, invalid_operation,
}
use restaurant_ops_copilot.Prelude.Fallible.{◌>>=◌}
use restaurant_ops_copilot.Values.{
  Numbers, Value, null, bool, num, text, arr, obj, Payload, entry, get, ActionType, price_change,
  supplier_switch, menu_swap, staffing_change,
}
use restaurant_ops_copilot.Text.{is_blank, strip}
use restaurant_ops_copilot.Proposals.{
  CandidateAction, Opportunity, llm, dict_of, list_of, action_value,
}

module _ {Num : Type 0} where
  -- `_parse_action_type`
  unfoldable pub parse_action_type : Value Num → Result ActionType
  parse_action_type (text s) =
      if str_eq s (action_value price_change)
      then ok price_change
      else if str_eq s (action_value supplier_switch)
      then ok supplier_switch
      else if str_eq s (action_value menu_swap)
      then ok menu_swap
      else if str_eq s (action_value staffing_change)
      then ok staffing_change
      else err candidate_validation
  parse_action_type _ = err candidate_validation

  -- `_validate_payload`
  unfoldable pub validate_payload : Value Num → Result (Payload Num)
  validate_payload (obj fields) = elim (dict_of fields) [
    | [] ↦ err candidate_validation
    | e ∷ p ↦ ok (e ∷ p)
  ]
  validate_payload _ = err candidate_validation

  -- `_validate_text`
  unfoldable pub validate_text : Value Num → Result String
  validate_text (text s) = if is_blank s then err candidate_validation else ok (strip s)
  validate_text _ = err candidate_validation

  -- the test on `raw.get("requires_human_review", True)`
  unfoldable pub check_review : Option (Value Num) → Result (Unit {0})
  check_review none = ok tt
  check_review (some (bool b)) = ok tt
  check_review (some _) = err candidate_validation

  -- the loop over the assumptions
  unfoldable pub clean_assumptions : List (Value Num) → Result (List String)
  clean_assumptions [] = ok []
  clean_assumptions (text s ∷ vs) = do
    rest ← clean_assumptions vs
    ok (if is_blank s then rest else strip s ∷ rest)
  clean_assumptions (_ ∷ vs) = err candidate_validation

  -- `raw.get("assumptions", [])`
  unfoldable pub assumptions_of : Option (Value Num) → Result (List String)
  assumptions_of none = ok []
  assumptions_of (some (arr items)) = clean_assumptions (list_of items)
  assumptions_of (some _) = err candidate_validation

  -- `validate_llm_candidate` of a mapping
  unfoldable pub candidate_of : Payload Num → Opportunity Num → Result (CandidateAction Num)
  candidate_of raw o = do
    a ← parse_action_type (get "action_type" raw)
    p ← validate_payload (get "payload" raw)
    rationale ← validate_text (get "rationale" raw)
    check_review (entry "requires_human_review" raw) >>= λ _. do
      assumptions ← assumptions_of (entry "assumptions" raw)
      ok (record {
        opportunity_id = o.id;
        action_type = a;
        payload = p;
        rationale = rationale;
        requires_human_review = true;
        assumptions = assumptions;
        source = llm;
      })

  -- `validate_llm_candidate`
  unfoldable pub validate_llm_candidate : Value Num → Opportunity Num → Result (CandidateAction Num)
  validate_llm_candidate (obj fields) o = candidate_of (dict_of fields) o
  validate_llm_candidate _ o = err candidate_validation

  -- `set(payload) == _PRICE_CHANGE_KEYS`
  unfoldable pub has_price_change_keys : Payload Num → Bool
  has_price_change_keys p =
      not (any (λ e. not (str_eq e.0 "menu_item_id" || str_eq e.0 "new_price")) p)
      && any (λ e. str_eq e.0 "menu_item_id") p
      && any (λ e. str_eq e.0 "new_price") p

module _ (N : Numbers) where
  open N use {Num, hundredths, is_finite, exact, sub, div, abs, le}

  -- `_strict_decimal`
  unfoldable pub strict_decimal : Value Num → Option Num
  strict_decimal (num x) = elim (exact x) [
    | none ↦ none
    | some d ↦ if is_finite d then some d else none
  ]
  strict_decimal _ = none

  -- the bound on a price that both sides verify; a `Decimal` operation may raise
  unfoldable pub within_limit : Option Num → Option Num → Result Bool
  within_limit none current = ok false
  within_limit (some price) none = ok false
  within_limit (some price) (some current) =
      if le price (hundredths 0) || le current (hundredths 0) then ok false else do
        d ← or_raise (sub price current) invalid_operation
        ratio ← or_raise (div (abs d) current) invalid_operation
        ok (le ratio (hundredths 30))

  -- `not menu_item_id` for a text
  abbrev pub is_empty : String → Bool
  is_empty s = str_eq s ""

  -- `_validate_price_change_against_opportunity`, from the item on
  unfoldable pub check_item : Value Num → Payload Num → Opportunity Num → Result Bool
  check_item (text item) p o =
      if is_empty item || not (any (str_eq item) o.affected_entity_ids)
      then ok false
      else within_limit (strict_decimal (get "new_price" p))
          (strict_decimal (get "current_price" o.evidence))
  check_item _ p o = ok false

  -- `_validate_price_change_against_opportunity`
  unfoldable pub validate_price_change_against_opportunity :
      CandidateAction Num → Opportunity Num → Result Bool
  validate_price_change_against_opportunity c o =
      if has_price_change_keys c.payload
      then check_item (get "menu_item_id" c.payload) c.payload o
      else ok false

  -- `_SUPPORTED_DOMAIN_CHECKS`
  unfoldable pub domain_check :
      ActionType → Option (CandidateAction Num → Opportunity Num → Result Bool)
  domain_check price_change = some validate_price_change_against_opportunity
  domain_check _ = none

  -- `validate_candidate_against_opportunity`
  unfoldable pub validate_candidate_against_opportunity :
      CandidateAction Num → Opportunity Num → Result Bool
  validate_candidate_against_opportunity c o =
      if not (str_eq c.opportunity_id o.id)
      then ok false
      else elim (domain_check c.action_type) [ none ↦ ok false | some check ↦ check c o ]
