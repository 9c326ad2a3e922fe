-- ===== src/Proposals/Contained.antt =====
-- `LLMReasoner.reason` (Component_3/llm_reasoner.py) raises only what its caller handles.
use restaurant_ops_copilot.Prelude.{
  ℕ, zero, suc, ◌≡◌, refl, String, Bool, true, false, none, some, Option, List, [], ◌∷◌, Result, ok,
  err, Error, arith, Result-cases, Option-cases, Bool-cases, inl, inr, any, str_eq, not, ◌||◌,
  candidate_validation, llm_reasoner,
}
use restaurant_ops_copilot.Prelude.Fallible.{◌>>=◌}
use restaurant_ops_copilot.Values.{
  Numbers, Value, null, bool, num, text, arr, obj, Payload, entry, get, ActionType, price_change,
  supplier_switch, menu_swap, staffing_change,
}
use restaurant_ops_copilot.Proposals.{CandidateAction, Opportunity, dict_of, list_of, action_value}
use restaurant_ops_copilot.Proposals.Validator.{
  parse_action_type, validate_payload, validate_text, check_review, clean_assumptions,
  assumptions_of, candidate_of, validate_llm_candidate, within_limit, check_item, strict_decimal,
  is_empty, has_price_change_keys, validate_price_change_against_opportunity, domain_check,
  validate_candidate_against_opportunity,
}
use restaurant_ops_copilot.Proposals.Reasoning.{
  unless_invalid, raw_candidates, checked_candidate, collect, max_llm_candidates, reason,
}

abbrev pub is_reported : Error → Bool
is_reported llm_reasoner = true
is_reported _ = false

-- what the caller of `LLMReasoner.reason` handles
abbrev pub is_contained : {A : Type 0} → Result A → Bool
is_contained (ok a) = true
is_contained (err e) = is_reported e

abbrev is_rejection : Error → Bool
is_rejection candidate_validation = true
is_rejection _ = false

-- a value, or a `CandidateValidationError`
abbrev is_checked : {A : Type 0} → Result A → Bool
is_checked (ok a) = true
is_checked (err e) = is_rejection e

bind-is_checked :
    {A B : Type 0} (r : Result A) (f : A → Result B)
    → is_checked r ≡ true
    → ((a : A) → is_checked (f a) ≡ true)
    → is_checked (r >>= f) ≡ true
bind-is_checked (ok a) f h k = k a
bind-is_checked (err e) f h k = h

-- Numbers whose differences exist, and whose quotients do by a number above zero.
pub record Computes (N : Numbers) : Type 0 where
  pub differs : (a b : N.Num) → (d : N.Num) × (N.sub a b ≡ some d)
  pub divides : (a b : N.Num) → N.le b (N.hundredths 0) ≡ false → (q : N.Num) × (N.div a b ≡ some q)

module _ {Num : Type 0} where
  parse_action_type-is_checked : (v : Value Num) → is_checked (parse_action_type v) ≡ true
  unfolding parse_action_type
  parse_action_type-is_checked (text s) = ground arith
  parse_action_type-is_checked null = refl
  parse_action_type-is_checked (bool b) = refl
  parse_action_type-is_checked (num x) = refl
  parse_action_type-is_checked (arr xs) = refl
  parse_action_type-is_checked (obj fs) = refl

  validate_payload-is_checked : (v : Value Num) → is_checked (validate_payload v) ≡ true
  unfolding validate_payload
  validate_payload-is_checked (obj fs) = ground arith
  validate_payload-is_checked null = refl
  validate_payload-is_checked (bool b) = refl
  validate_payload-is_checked (num x) = refl
  validate_payload-is_checked (text s) = refl
  validate_payload-is_checked (arr xs) = refl

  validate_text-is_checked : (v : Value Num) → is_checked (validate_text v) ≡ true
  unfolding validate_text
  validate_text-is_checked (text s) = ground arith
  validate_text-is_checked null = refl
  validate_text-is_checked (bool b) = refl
  validate_text-is_checked (num x) = refl
  validate_text-is_checked (arr xs) = refl
  validate_text-is_checked (obj fs) = refl

  check_review-is_checked : (v : Option (Value Num)) → is_checked (check_review v) ≡ true
  unfolding check_review
  check_review-is_checked none = refl
  check_review-is_checked (some (bool b)) = refl
  check_review-is_checked (some null) = refl
  check_review-is_checked (some (num x)) = refl
  check_review-is_checked (some (text s)) = refl
  check_review-is_checked (some (arr xs)) = refl
  check_review-is_checked (some (obj fs)) = refl

  clean_assumptions-is_checked : (vs : List (Value Num)) → is_checked (clean_assumptions vs) ≡ true
  unfolding clean_assumptions
  clean_assumptions-is_checked [] = refl
  clean_assumptions-is_checked (text s ∷ vs) =
      bind-is_checked (clean_assumptions vs) _ (clean_assumptions-is_checked vs) (λ rest. refl)
  clean_assumptions-is_checked (null ∷ vs) = refl
  clean_assumptions-is_checked (bool b ∷ vs) = refl
  clean_assumptions-is_checked (num x ∷ vs) = refl
  clean_assumptions-is_checked (arr xs ∷ vs) = refl
  clean_assumptions-is_checked (obj fs ∷ vs) = refl

  assumptions_of-is_checked : (v : Option (Value Num)) → is_checked (assumptions_of v) ≡ true
  unfolding assumptions_of
  assumptions_of-is_checked none = refl
  assumptions_of-is_checked (some (arr xs)) = clean_assumptions-is_checked (list_of xs)
  assumptions_of-is_checked (some null) = refl
  assumptions_of-is_checked (some (bool b)) = refl
  assumptions_of-is_checked (some (num x)) = refl
  assumptions_of-is_checked (some (text s)) = refl
  assumptions_of-is_checked (some (obj fs)) = refl

  candidate_of-is_checked :
      (raw : Payload Num) (o : Opportunity Num) → is_checked (candidate_of raw o) ≡ true
  unfolding candidate_of
  candidate_of-is_checked raw o =
      bind-is_checked (parse_action_type (get "action_type" raw)) _
        (parse_action_type-is_checked (get "action_type" raw))
        (λ a.
          bind-is_checked (validate_payload (get "payload" raw)) _
            (validate_payload-is_checked (get "payload" raw))
            (λ p.
              bind-is_checked (validate_text (get "rationale" raw)) _
                (validate_text-is_checked (get "rationale" raw))
                (λ rationale.
                  bind-is_checked (check_review (entry "requires_human_review" raw)) _
                    (check_review-is_checked (entry "requires_human_review" raw))
                    (λ u.
                      bind-is_checked (assumptions_of (entry "assumptions" raw)) _
                        (assumptions_of-is_checked (entry "assumptions" raw)) (λ xs. refl)))))

  validate_llm_candidate-is_checked :
      (raw : Value Num) (o : Opportunity Num) → is_checked (validate_llm_candidate raw o) ≡ true
  unfolding validate_llm_candidate
  validate_llm_candidate-is_checked (obj fs) o = candidate_of-is_checked (dict_of fs) o
  validate_llm_candidate-is_checked null o = refl
  validate_llm_candidate-is_checked (bool b) o = refl
  validate_llm_candidate-is_checked (num x) o = refl
  validate_llm_candidate-is_checked (text s) o = refl
  validate_llm_candidate-is_checked (arr xs) o = refl

  -- Whatever the language model answers, its list of candidates is found or the answer is reported.
  raw_candidates-is_contained : (v : Value Num) → is_contained (raw_candidates v) ≡ true
  unfolding raw_candidates
  raw_candidates-is_contained (obj fs) = ground arith
  raw_candidates-is_contained null = refl
  raw_candidates-is_contained (bool b) = refl
  raw_candidates-is_contained (num x) = refl
  raw_candidates-is_contained (text s) = refl
  raw_candidates-is_contained (arr xs) = refl

module _ (N : Numbers) (computes : Computes N) where
  open N use {Num, hundredths, sub, div, abs, le}

  within_limit-total : (x y : Option Num) → (b : Bool) × (within_limit N x y ≡ ok b)
  unfolding within_limit
  within_limit-total none y = (false, refl)
  within_limit-total (some p) none = (false, refl)
  within_limit-total (some p) (some c) =
      elim (Bool-cases (le p (hundredths 0) || le c (hundredths 0))) [
        | inl low ↦ (false, ground arith)
        | inr positive ↦
            let (d, differs) = computes.differs p c in
            let (q, divides) = computes.divides (abs d) c (ground arith) in
            (le q (hundredths 30), ground (arith, differs, divides))
      ]

  check_item-total :
      (v : Value Num) (p : Payload Num) (o : Opportunity Num)
      → (b : Bool) × (check_item N v p o ≡ ok b)
  unfolding check_item
  check_item-total (text i) p o =
      let (b, done) =
        within_limit-total (strict_decimal N (get "new_price" p))
          (strict_decimal N (get "current_price" o.evidence)) in
      elim (Bool-cases (is_empty N i || not (any (str_eq i) o.affected_entity_ids))) [
        | inl unnamed ↦ (false, ground arith)
        | inr named ↦ (b, ground (arith, done))
      ]
  check_item-total null p o = (false, refl)
  check_item-total (bool b) p o = (false, refl)
  check_item-total (num x) p o = (false, refl)
  check_item-total (arr xs) p o = (false, refl)
  check_item-total (obj fs) p o = (false, refl)

  price_change-total :
      (c : CandidateAction Num) (o : Opportunity Num)
      → (b : Bool) × (validate_price_change_against_opportunity N c o ≡ ok b)
  unfolding validate_price_change_against_opportunity
  price_change-total c o =
      let (b, done) = check_item-total (get "menu_item_id" c.payload) c.payload o in
      elim (Bool-cases (has_price_change_keys c.payload)) [
        | inl keys ↦ (b, ground (arith, done))
        | inr extra ↦ (false, ground arith)
      ]

  domain_check-total :
      (a : ActionType) (c : CandidateAction Num) (o : Opportunity Num)
      → (b : Bool) × ((elim (domain_check N a) as (λ _. Result Bool) [
        | none ↦ ok false
        | some check ↦ check c o
      ])
          ≡ ok b)
  unfolding domain_check
  domain_check-total price_change c o = price_change-total c o
  domain_check-total supplier_switch c o = (false, refl)
  domain_check-total menu_swap c o = (false, refl)
  domain_check-total staffing_change c o = (false, refl)

  validate-total :
      (c : CandidateAction Num) (o : Opportunity Num)
      → (b : Bool) × (validate_candidate_against_opportunity N c o ≡ ok b)
  unfolding validate_candidate_against_opportunity
  validate-total c o =
      let (b, done) = domain_check-total c.action_type c o in
      elim (Bool-cases (str_eq c.opportunity_id o.id)) [
        | inr other ↦ (false, ground arith)
        | inl same ↦ (b, rw same done)
      ]

  checked_candidate-is_checked :
      (o : Opportunity Num) (allowed : List String) (raw : Value Num)
      → is_checked (checked_candidate N o allowed raw) ≡ true
  unfolding checked_candidate
  checked_candidate-is_checked o allowed raw =
      bind-is_checked (validate_llm_candidate raw o) _ (validate_llm_candidate-is_checked raw o)
        (λ c.
          let (b, done) = validate-total c o in
          elim (Bool-cases (any (str_eq (action_value c.action_type)) allowed)) [
            | inr forbidden ↦ rw forbidden refl
            | inl permitted ↦ rw permitted (rw done (ground arith))
          ])

  unless_invalid-total :
      (r : Result (CandidateAction Num))
      → is_checked r ≡ true
      → (x : Option (CandidateAction Num)) × (unless_invalid r ≡ ok x)
  unless_invalid-total (ok c) h = (some c, refl)
  unless_invalid-total (err e) h = (none, ground arith)

  collect-total :
      (o : Opportunity Num) (allowed : List String) (room : ℕ) (raws : List (Value Num))
      → (cs : List (CandidateAction Num)) × (collect N o allowed room raws ≡ ok cs)
  unfolding collect
  collect-total o allowed zero raws = ([], refl)
  collect-total o allowed (suc room) [] = ([], refl)
  collect-total o allowed (suc room) (raw ∷ raws) =
      let (x, checked) =
        unless_invalid-total (checked_candidate N o allowed raw)
          (checked_candidate-is_checked o allowed raw) in
      let (cs, skipped) = collect-total o allowed (suc room) raws in
      let (ds, kept) = collect-total o allowed room raws in
      elim (Option-cases x) [
        | inl rejected ↦ (cs, ground (arith, checked, rejected, skipped))
        | inr (c, accepted) ↦ (c ∷ ds, ground (arith, checked, accepted, kept))
      ]

  -- Where the client returns or reports its failure, the reasoner returns or reports a failure.
  pub reason-is_contained :
      (generate : Opportunity Num → Result (Value Num)) (o : Opportunity Num)
      (allowed : List String)
      → is_contained (generate o) ≡ true
      → is_contained (reason N generate o allowed) ≡ true
  unfolding reason
  reason-is_contained generate o [] h = refl
  reason-is_contained generate o (a ∷ allowed) h = elim (Result-cases (generate o)) [
    | inr (e, down) ↦ ground arith
    | inl (answer, given) ↦
        let listed = raw_candidates-is_contained answer in
        elim (Result-cases (raw_candidates answer)) [
          | inr (e, malformed) ↦ ground arith
          | inl (raws, found) ↦
              let (cs, done) = collect-total o (a ∷ allowed) max_llm_candidates raws in ground arith
        ]
  ]
