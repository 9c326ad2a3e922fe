-- ===== src/Proposals/Grounded.antt =====
-- What Component_3/orchestrator.py may hand to the simulator, whatever the language model answers.
use mathlib.Core.Path.{subst}
use restaurant_ops_copilot.Prelude.{
  ◌≡◌, ◌⊎◌, refl, inl, inr, String, true, false, List, [], ◌∷◌, ◌++◌, Result, ok, err, Error, arith,
  All, All-append, Result-cases, Option-cases, Bool-cases,
}
use restaurant_ops_copilot.Values.{Numbers, Value, Payload}
use restaurant_ops_copilot.Proposals.{CandidateAction, Opportunity, allowed_llm_actions_for}
use restaurant_ops_copilot.Proposals.Merger.{merge_from, merge_candidates, merge_from-All}
use restaurant_ops_copilot.Proposals.Deterministic.{generate_candidate_actions}
use restaurant_ops_copilot.Proposals.Answers.{Flagged, llm_candidates_bounded}
use restaurant_ops_copilot.Proposals.Rules.{Ruled, generate-Rules}
use restaurant_ops_copilot.Proposals.Contained.{is_reported}
use restaurant_ops_copilot.Proposals.Reasoning.{
  Reasoner, reason, with_llm, merge_or_fall_back, reason_about_opportunity,
}

module _ {Num : Type 0} (freeze : Payload Num → String) (rules : List (CandidateAction Num)) where
  fall_back-rules :
      (cs : List (CandidateAction Num)) (x : Error)
      → is_reported x ≡ true
      → merge_or_fall_back freeze rules (err x) ≡ ok cs
      → rules ≡ cs
  unfolding merge_or_fall_back
  fall_back-rules cs x h e = ground arith

  raises :
      (cs : List (CandidateAction Num)) (x : Error)
      → is_reported x ≡ false
      → merge_or_fall_back freeze rules (err x) ≡ ok cs
      → ⊥
  unfolding merge_or_fall_back
  raises cs x h e = ground arith

module _ (N : Numbers) where
  open N use {Num}

  abbrev pub Grounded : Opportunity Num → CandidateAction Num → Type 0
  Grounded o c = Ruled N c o ⊎ Flagged N o c

  Ruled-Grounded :
      (o : Opportunity Num) (cs : List (CandidateAction Num))
      → All (λ c. Ruled N c o) cs
      → All (Grounded o) cs
  Ruled-Grounded o [] h = tt
  Ruled-Grounded o (c ∷ cs) h = (inl h.0, Ruled-Grounded o cs h.1)

  Flagged-Grounded :
      (o : Opportunity Num) (cs : List (CandidateAction Num))
      → All (Flagged N o) cs
      → All (Grounded o) cs
  Flagged-Grounded o [] h = tt
  Flagged-Grounded o (c ∷ cs) h = (inr h.0, Flagged-Grounded o cs h.1)

  merge-Grounded :
      (freeze : Payload Num → String) (o : Opportunity Num) (rules cs : List (CandidateAction Num))
      (r : Result (List (CandidateAction Num)))
      → All (Grounded o) rules
      → ((proposed : List (CandidateAction Num)) → r ≡ ok proposed → All (Flagged N o) proposed)
      → merge_or_fall_back freeze rules r ≡ ok cs
      → All (Grounded o) cs
  unfolding merge_or_fall_back merge_candidates
  merge-Grounded freeze o rules cs (ok proposed) h k e =
      let same : merge_from freeze [] (rules ++ proposed) ≡ cs = ground arith in
      let both =
        All-append (Grounded o) rules proposed h (Flagged-Grounded o proposed (k proposed refl)) in
      subst (All (Grounded o)) same (merge_from-All freeze (Grounded o) [] (rules ++ proposed) both)
  merge-Grounded freeze o rules cs (err x) h k e = elim (Bool-cases (is_reported x)) [
    | inl reported ↦ subst (All (Grounded o)) (fall_back-rules freeze rules cs x reported e) h
    | inr other ↦ absurd (raises freeze rules cs x other e)
  ]

  with_llm-Grounded :
      (freeze : Payload Num → String) (o : Opportunity Num) (rules cs : List (CandidateAction Num))
      (generate : Opportunity Num → Result (Value Num)) (allowed : List String)
      → All (Grounded o) rules
      → with_llm N freeze rules generate o allowed ≡ ok cs
      → All (Grounded o) cs
  unfolding with_llm
  with_llm-Grounded freeze o rules cs generate [] h e =
      let same : rules ≡ cs = ground arith in subst (All (Grounded o)) same h
  with_llm-Grounded freeze o rules cs generate (a ∷ allowed) h e =
      merge-Grounded freeze o rules cs (reason N generate o (a ∷ allowed)) h
        (λ proposed k. (llm_candidates_bounded N generate o (a ∷ allowed) proposed k).1) e

  -- Whatever the language model answers, each candidate that the reasoning returns for an opportunity
  -- changes the price of an item that the opportunity names: a candidate of the rules, to a finite
  -- price above zero, or one of the language model's, which passed the check of its two fields and of
  -- the 30% bound and is flagged for a human.
  pub every_candidate_is_Grounded :
      (freeze : Payload Num → String) (reasoner : Reasoner Num) (o : Opportunity Num)
      (cs : List (CandidateAction Num))
      → reason_about_opportunity N freeze reasoner o ≡ ok cs
      → All (Grounded o) cs
  unfolding reason_about_opportunity
  every_candidate_is_Grounded freeze reasoner o cs h =
      elim (Result-cases (generate_candidate_actions N o)) [
        | inr (e, raised) ↦ absurd (ground arith)
        | inl (rules, ruled) ↦
            let grounded = Ruled-Grounded o rules (generate-Rules N o rules ruled).1 in
            elim (Option-cases reasoner) [
              | inl alone ↦
                  let same : rules ≡ cs = ground arith in subst (All (Grounded o)) same grounded
              | inr (generate, asked) ↦
                  with_llm-Grounded freeze o rules cs generate
                    (allowed_llm_actions_for o.opportunity_type) grounded (ground (arith, asked))
            ]
      ]
