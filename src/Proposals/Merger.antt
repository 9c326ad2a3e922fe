-- ===== src/Proposals/Merger.antt =====
-- Component_3/candidate_merger.py. `freeze` is `_freeze`: what it maps payloads to is compared by
-- `==` only, so it is any function into texts.
use mathlib.Core.Path.{subst, sym}
use restaurant_ops_copilot.Prelude.{
  ◌≡◌, refl, ap, ◌∙◌, String, Bool, true, false, List, [], ◌∷◌, ◌++◌, arith, Bool-cases, inl, inr,
  All, any, str_eq, eq_iff, ◌&&◌, ◌||◌, if◌then◌else◌,
}
use restaurant_ops_copilot.Values.{Payload}
use restaurant_ops_copilot.Proposals.{CandidateAction, action_value}

module _ {Num : Type 0} (freeze : Payload Num → String) where
  -- equal `_candidate_key`s
  unfoldable pub same_key : CandidateAction Num → CandidateAction Num → Bool
  same_key a b =
      str_eq a.opportunity_id b.opportunity_id
      && str_eq (action_value a.action_type) (action_value b.action_type)
      && str_eq (freeze a.payload) (freeze b.payload)

  -- the loop, with the candidates whose keys were seen
  unfoldable pub merge_from :
      List (CandidateAction Num) → List (CandidateAction Num) → List (CandidateAction Num)
  merge_from seen [] = []
  merge_from seen (c ∷ cs) =
      let skip = merge_from seen cs in
      let keep = merge_from (c ∷ seen) cs in if any (same_key c) seen then skip else c ∷ keep

  -- `merge_candidates`
  unfoldable pub merge_candidates :
      List (CandidateAction Num) → List (CandidateAction Num) → List (CandidateAction Num)
  merge_candidates first second = merge_from [] (first ++ second)

  -- No candidate of a list has the key of another one before it, or of one that was seen.
  abbrev pub Distinct : List (CandidateAction Num) → List (CandidateAction Num) → Type 0
  Distinct seen [] = Unit
  Distinct seen (c ∷ cs) = (any (same_key c) seen ≡ false) × Distinct (c ∷ seen) cs

  merge_from-Distinct : (seen cs : List (CandidateAction Num)) → Distinct seen (merge_from seen cs)
  unfolding merge_from
  merge_from-Distinct seen [] = tt
  merge_from-Distinct seen (c ∷ cs) = elim (Bool-cases (any (same_key c) seen)) [
    | inl again ↦ rw again (merge_from-Distinct seen cs)
    | inr fresh ↦ rw fresh (fresh, merge_from-Distinct (c ∷ seen) cs)
  ]

  same_key_refl : (c : CandidateAction Num) → same_key c c ≡ true
  unfolding same_key
  same_key_refl c = ground (
    arith,
    eq_iff c.opportunity_id c.opportunity_id,
    eq_iff (action_value c.action_type) (action_value c.action_type),
    eq_iff (freeze c.payload) (freeze c.payload),
  )

  -- The key of `c` is that of a candidate that was seen, or that the loop returns.
  abbrev pub Covered :
      List (CandidateAction Num) → List (CandidateAction Num) → CandidateAction Num → Type 0
  Covered seen merged c = (any (same_key c) seen || any (same_key c) merged) ≡ true

  All-weaken :
      {P Q : CandidateAction Num → Type 0} (cs : List (CandidateAction Num))
      → ((c : CandidateAction Num) → P c → Q c)
      → All P cs
      → All Q cs
  All-weaken [] f h = tt
  All-weaken (c ∷ cs) f h = (f c h.0, All-weaken cs f h.1)

  again-merge_from :
      (seen cs : List (CandidateAction Num)) (c : CandidateAction Num)
      → any (same_key c) seen ≡ true
      → merge_from seen (c ∷ cs) ≡ merge_from seen cs
  unfolding merge_from
  again-merge_from seen cs c h = rw h refl

  fresh-merge_from :
      (seen cs : List (CandidateAction Num)) (c : CandidateAction Num)
      → any (same_key c) seen ≡ false
      → merge_from seen (c ∷ cs) ≡ c ∷ merge_from (c ∷ seen) cs
  unfolding merge_from
  fresh-merge_from seen cs c h = rw h refl

  merge_from-Covered :
      (seen cs : List (CandidateAction Num)) → All (Covered seen (merge_from seen cs)) cs
  merge_from-Covered seen [] = tt
  merge_from-Covered seen (c ∷ cs) = elim (Bool-cases (any (same_key c) seen)) [
    | inl again ↦
        subst (λ m. All (Covered seen m) (c ∷ cs)) (sym (again-merge_from seen cs c again))
          (rw again refl, merge_from-Covered seen cs)
    | inr fresh ↦
        subst (λ m. All (Covered seen m) (c ∷ cs)) (sym (fresh-merge_from seen cs c fresh))
          (
            ground (arith, same_key_refl c),
            All-weaken cs (λ b h. ground arith) (merge_from-Covered (c ∷ seen) cs),
          )
  ]

  -- What holds of every candidate that goes in holds of every one that comes out.
  pub merge_from-All :
      (P : CandidateAction Num → Type 0) (seen cs : List (CandidateAction Num))
      → All P cs
      → All P (merge_from seen cs)
  unfolding merge_from
  merge_from-All P seen [] h = tt
  merge_from-All P seen (c ∷ cs) h = elim (Bool-cases (any (same_key c) seen)) [
    | inl again ↦ rw again (merge_from-All P seen cs h.1)
    | inr fresh ↦ rw fresh (h.0, merge_from-All P (c ∷ seen) cs h.1)
  ]

  -- The first list's candidates come first, whatever the second holds.
  merge_from-append :
      (seen xs ys : List (CandidateAction Num))
      → (rest : List (CandidateAction Num)) × (merge_from seen (xs ++ ys)
          ≡ merge_from seen xs ++ rest)
  unfolding merge_from
  merge_from-append seen [] ys = (merge_from seen ys, refl)
  merge_from-append seen (x ∷ xs) ys = elim (Bool-cases (any (same_key x) seen)) [
    | inl again ↦ rw again (merge_from-append seen xs ys)
    | inr fresh ↦
        let (rest, same) = merge_from-append (x ∷ seen) xs ys in
        rw fresh (rest, ap (λ cs. x ∷ cs) same)
  ]

  merge_from-fixed :
      (seen cs : List (CandidateAction Num)) → Distinct seen cs → merge_from seen cs ≡ cs
  unfolding merge_from
  merge_from-fixed seen [] h = refl
  merge_from-fixed seen (c ∷ cs) h = rw h.0 (ap (λ r. c ∷ r) (merge_from-fixed (c ∷ seen) cs h.1))

  -- A merge has no two candidates with one key; each candidate of either list has its key in it; and
  -- where the deterministic candidates have no key twice, they stand unchanged at its front.
  pub merge_keeps_deterministic :
      (first second : List (CandidateAction Num))
      → Distinct [] first
      → Distinct [] (merge_candidates first second)
        × All (λ c. any (same_key c) (merge_candidates first second) ≡ true) (first ++ second)
        × ((rest : List (CandidateAction Num)) × (merge_candidates first second ≡ first ++ rest))
  unfolding merge_candidates
  merge_keeps_deterministic first second h =
      let (rest, same) = merge_from-append [] first second in
      (
        merge_from-Distinct [] (first ++ second),
        All-weaken (first ++ second) (λ c k. ground arith)
            (merge_from-Covered [] (first ++ second)),
        (rest, same ∙ ap (λ cs. cs ++ rest) (merge_from-fixed [] first h)),
      )
