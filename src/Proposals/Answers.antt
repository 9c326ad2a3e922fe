-- ===== src/Proposals/Answers.antt =====
-- What `LLMReasoner.reason` of Component_3/llm_reasoner.py lets through.
use mathlib.Core.Path.{subst}
use restaurant_ops_copilot.Prelude.{
  ℕ, zero, suc, ◌≤◌, ◌≡◌, inl, inr, String, true, some, List, [], ◌∷◌, Result, ok, arith, All,
  length, Result-cases, Option-cases,
}
use restaurant_ops_copilot.Values.{Numbers, Value, null, bool, num, text, arr, obj, Payload}
use restaurant_ops_copilot.Proposals.{CandidateAction, Opportunity, llm, dict_of}
use restaurant_ops_copilot.Proposals.Validator.{
  validate_llm_candidate, candidate_of, validate_candidate_against_opportunity,
}
use restaurant_ops_copilot.Proposals.Validator.Bounds.{Verified, Passes-Verified}
use restaurant_ops_copilot.Proposals.Reasoning.{
  max_llm_candidates, checked_candidate, unless_invalid, raw_candidates, collect, reason,
}

module _ (N : Numbers) where
  open N use {Num, hundredths, is_finite, le}

  -- A candidate of the language model: one that was verified, and flagged for a human.
  abbrev pub Flagged : Opportunity Num → CandidateAction Num → Type 0
  Flagged o c = Verified N c o × (c.requires_human_review ≡ true) × (c.source ≡ llm)

  candidate_of-flags :
      (raw : Payload Num) (o : Opportunity Num) (c : CandidateAction Num)
      → candidate_of raw o ≡ ok c
      → (c.requires_human_review ≡ true) × (c.source ≡ llm)
  unfolding candidate_of
  candidate_of-flags raw o c h = ground arith

  validate-flags :
      (raw : Value Num) (o : Opportunity Num) (c : CandidateAction Num)
      → validate_llm_candidate raw o ≡ ok c
      → (c.requires_human_review ≡ true) × (c.source ≡ llm)
  unfolding validate_llm_candidate
  validate-flags (obj fields) o c h = candidate_of-flags (dict_of fields) o c h
  validate-flags null o c h = absurd (ground arith)
  validate-flags (bool b) o c h = absurd (ground arith)
  validate-flags (num x) o c h = absurd (ground arith)
  validate-flags (text s) o c h = absurd (ground arith)
  validate-flags (arr vs) o c h = absurd (ground arith)

  checked-validated :
      (o : Opportunity Num) (allowed : List String) (raw : Value Num) (c : CandidateAction Num)
      → checked_candidate N o allowed raw ≡ ok c
      → (validate_llm_candidate raw o ≡ ok c)
        × (validate_candidate_against_opportunity N c o ≡ ok true)
  unfolding checked_candidate
  checked-validated o allowed raw c h = elim (Result-cases (validate_llm_candidate raw o)) [
    | inr (e, refused) ↦ absurd (ground arith)
    | inl (b, parsed) ↦ ground arith
  ]

  checked-Flagged :
      (o : Opportunity Num) (allowed : List String) (raw : Value Num) (c : CandidateAction Num)
      → checked_candidate N o allowed raw ≡ ok c
      → Flagged o c
  checked-Flagged o allowed raw c h =
      let (parsed, passed) = checked-validated o allowed raw c h in
      let (review, source) = validate-flags raw o c parsed in
      (Passes-Verified N c o passed, review, source)

  unless_invalid-some :
      (r : Result (CandidateAction Num)) (c : CandidateAction Num)
      → unless_invalid r ≡ ok (some c)
      → r ≡ ok c
  unless_invalid-some r c h = ground arith

  collect-Flagged :
      (o : Opportunity Num) (allowed : List String) (room : ℕ) (raws : List (Value Num))
      (cs : List (CandidateAction Num))
      → collect N o allowed room raws ≡ ok cs
      → (length cs ≤ room) × All (Flagged o) cs
  unfolding collect
  collect-Flagged o allowed zero raws cs h =
      let empty : [] ≡ cs = ground arith in
      subst (λ l. (length l ≤ 0) × All (Flagged o) l) empty (ground arith, tt)
  collect-Flagged o allowed (suc room) [] cs h =
      let empty : [] ≡ cs = ground arith in
      subst (λ l. (length l ≤ suc room) × All (Flagged o) l) empty (ground arith, tt)
  collect-Flagged o allowed (suc room) (raw ∷ raws) cs h =
      elim (Result-cases (unless_invalid (checked_candidate N o allowed raw))) [
        | inr (e, raised) ↦ absurd (ground arith)
        | inl (x, tried) ↦ elim (Option-cases x) [
          | inl rejected ↦ collect-Flagged o allowed (suc room) raws cs (ground arith)
          | inr (c, accepted) ↦ elim (Result-cases (collect N o allowed room raws)) [
            | inr (e, raised) ↦ absurd (ground arith)
            | inl (rest, collected) ↦
                let same : c ∷ rest ≡ cs = ground arith in
                let (short, flagged) = collect-Flagged o allowed room raws rest collected in
                let checked =
                  unless_invalid-some (checked_candidate N o allowed raw) c (ground arith) in
                subst (λ l. (length l ≤ suc room) × All (Flagged o) l) same
                  (ground arith, (checked-Flagged o allowed raw c checked, flagged))
          ]
        ]
      ]

  -- Of what the language model answers, `reason` returns at most five candidates, each of them a
  -- price change for the opportunity that passed the check against its evidence, flagged for a human.
  pub llm_candidates_bounded :
      (generate : Opportunity Num → Result (Value Num)) (o : Opportunity Num)
      (allowed : List String) (cs : List (CandidateAction Num))
      → reason N generate o allowed ≡ ok cs
      → (length cs ≤ max_llm_candidates) × All (Flagged o) cs
  unfolding reason
  llm_candidates_bounded generate o [] cs h =
      let empty : [] ≡ cs = ground arith in
      subst (λ l. (length l ≤ max_llm_candidates) × All (Flagged o) l) empty (ground arith, tt)
  llm_candidates_bounded generate o (a ∷ allowed) cs h = elim (Result-cases (generate o)) [
    | inr (e, silent) ↦ absurd (ground arith)
    | inl (answer, given) ↦ elim (Result-cases (raw_candidates answer)) [
      | inr (e, malformed) ↦ absurd (ground arith)
      | inl (raws, listed) ↦
          collect-Flagged o (a ∷ allowed) max_llm_candidates raws cs (ground arith)
    ]
  ]
