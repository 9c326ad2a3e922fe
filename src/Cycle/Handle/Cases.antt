-- ===== src/Cycle/Handle/Cases.antt =====
-- The two ways in which `_handle` of orchestrator.py ends: it leaves everything as it was, or it
-- attempts one candidate that stands every test.
use mathlib.Core.Path.{sym, subst}
use restaurant_ops_copilot.Prelude.{
  ℕ, ◌≡◌, refl, Bool, true, false, none, some, List, [], ◌∷◌, Result, ok, arith, ◌⊎◌, inl, inr,
  ◌==◌, Result-cases, Bool-cases,
}
use restaurant_ops_copilot.Values.{Numbers}
use restaurant_ops_copilot.EventStore.Append.{Digest}
use restaurant_ops_copilot.Tools.{Store}
use restaurant_ops_copilot.Proposals.{CandidateAction, Opportunity}
use restaurant_ops_copilot.Cycle.{
  OutcomeStatus, ScoredCandidate, OpportunityOutcome, Settings, Environment,
}
use restaurant_ops_copilot.Cycle.Selection.{in_cooldown, ranked, viable, unflagged}
use restaurant_ops_copilot.Cycle.Handle.{
  is_propose, is_simulate, is_execute, act, act_or_stop, attempt_best, choose, weigh, handle,
}

-- `outcome.result is not None`
abbrev pub has_result : {Num : Type 0} → OpportunityOutcome Num → Bool
has_result x = elim x.result [ none ↦ false | some r ↦ true ]

abbrev pub is_error : OutcomeStatus → Bool
is_error OutcomeStatus.error = true
is_error _ = false

module _ (N : Numbers) (digest : Digest N.Num) (cfg : Settings N.Num) (env : Environment N.Num)
    (t : ℕ) (o : Opportunity N.Num) where
  open N use {Num}

  abbrev pub Answer : Type 0
  Answer = Result (OpportunityOutcome Num) × Store Num

  -- Nothing is written and nothing attempted, and the outcome is no error.
  abbrev pub Still : Store Num → Answer → Type 0
  Still s r =
      (r.1 ≡ s)
      × ((x : OpportunityOutcome Num)
          → r.0 ≡ ok x
          → (has_result x ≡ false) × (is_error x.status ≡ false))

  -- A candidate is attempted that is viable, not flagged for a human and not in cooldown, in a cycle
  -- that executes and has actions left.
  pub record Acted (left : ℕ) (cs : List (CandidateAction Num)) (s : Store Num) (r : Answer)
      : Type 0 where
    pub best : ScoredCandidate Num
    pub others : List (ScoredCandidate Num)
    pub is_first :
        unflagged N (viable N cfg.min_score (ranked N cfg env s.world cs)) ≡ best ∷ others
    pub executes : is_execute cfg.mode ≡ true
    pub has_left : (left == 0) ≡ false
    pub not_cooling : in_cooldown N t best.candidate cfg.cooldown cfg.now s ≡ ok false
    pub acts : r ≡ act N digest cfg env t o (ranked N cfg env s.world cs) best s

  module _ (left : ℕ) (scored : List (ScoredCandidate Num)) (best : ScoredCandidate Num)
      (s : Store Num) where
    -- what the last guards let through
    abbrev Reached : Answer → Type 0
    Reached r =
        (is_simulate cfg.mode ≡ false)
        × ((left == 0) ≡ false)
        × (in_cooldown N t best.candidate cfg.cooldown cfg.now s ≡ ok false)
        × (r ≡ act N digest cfg env t o scored best s)

    act_or_stop-cases :
        (b : Bool)
        → in_cooldown N t best.candidate cfg.cooldown cfg.now s ≡ ok b
        → let r = act_or_stop N digest cfg env t o left scored best b s in Still s r ⊎ Reached r
    unfolding act_or_stop
    act_or_stop-cases true h = inl (refl, λ x e. (ground arith, ground arith))
    act_or_stop-cases false h = elim (Bool-cases (is_simulate cfg.mode)) [
      | inl dry ↦ rw dry (inl (refl, λ x e. (ground arith, ground arith)))
      | inr wet ↦ elim (Bool-cases (left == 0)) [
        | inl spent ↦ rw (wet, spent) (inl (refl, λ x e. (ground arith, ground arith)))
        | inr some_left ↦ rw (wet, some_left) (inr (refl, refl, h, refl))
      ]
    ]

    attempt_best-act_or_stop :
        (b : Bool)
        → in_cooldown N t best.candidate cfg.cooldown cfg.now s ≡ ok b
        → attempt_best N digest cfg env t o left scored best s
          ≡ act_or_stop N digest cfg env t o left scored best b s
    unfolding attempt_best
    attempt_best-act_or_stop b h = rw h refl

    attempt_best-cases :
        let r = attempt_best N digest cfg env t o left scored best s in Still s r ⊎ Reached r
    unfolding attempt_best
    attempt_best-cases =
        elim (Result-cases (in_cooldown N t best.candidate cfg.cooldown cfg.now s)) [
          | inl (b, answered) ↦
              subst (λ r. Still s r ⊎ Reached r) (sym (attempt_best-act_or_stop b answered))
                (act_or_stop-cases b answered)
          | inr (e, failed) ↦ inl (ground arith, λ x k. (ground arith, ground arith))
        ]

  weigh-cases :
      (left : ℕ) (cs : List (CandidateAction Num)) (s : Store Num)
      (good safe : List (ScoredCandidate Num))
      → is_propose cfg.mode ≡ false
      → unflagged N (viable N cfg.min_score (ranked N cfg env s.world cs)) ≡ safe
      → let r = choose N digest cfg env t o left (ranked N cfg env s.world cs) good safe s in
        Still s r ⊎ Acted left cs s r
  unfolding choose
  weigh-cases left cs s [] safe h e = inl (refl, λ x k. (ground arith, ground arith))
  weigh-cases left cs s (first ∷ rest) [] h e = inl (refl, λ x k. (ground arith, ground arith))
  weigh-cases left cs s (first ∷ rest) (best ∷ others) h e =
      elim (attempt_best-cases left (ranked N cfg env s.world cs) best s) [
        | inl still ↦ inl still
        | inr (wet, some_left, warm, same) ↦ inr (record {
          best = best;
          others = others;
          is_first = e;
          executes = ground arith;
          has_left = some_left;
          not_cooling = warm;
          acts = same;
        })
      ]

  pub handle-cases :
      (left : ℕ) (cs : List (CandidateAction Num)) (s : Store Num)
      → let r = handle N digest cfg env t o left cs s in Still s r ⊎ Acted left cs s r
  unfolding handle weigh
  handle-cases left [] s = inl (refl, λ x k. (ground arith, ground arith))
  handle-cases left (c ∷ cs) s = elim (Bool-cases (is_propose cfg.mode)) [
    | inl asked ↦ rw asked (inl (refl, λ x k. (ground arith, ground arith)))
    | inr further ↦ rw further (weigh-cases left (c ∷ cs) s _ _ further refl)
  ]
