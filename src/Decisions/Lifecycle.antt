-- ===== src/Decisions/Lifecycle.antt =====
-- The life of a decision over every sequence of calls of the engine (Component_2/decision_engine.py):
-- who claims it, and what a finished or an interrupted execution leaves behind.
use restaurant_ops_copilot.Prelude.{
  ℕ, ◌≤◌, ◌≡◌, refl, ◌⊎◌, inl, inr, Bool, true, false, some, List, [], ◌∷◌, Result, ok, err, arith,
  Option-cases, find, update, find_passes, find-update-some, find-append, ◌==◌, ◌&&◌, if◌then◌else◌,
}
use mathlib.Core.Path.{subst, subst₂, sym}
use restaurant_ops_copilot.Prelude.Traces.{wins_in, at_most_one}
use restaurant_ops_copilot.Values.{Numbers, Payload, ActionType}
use restaurant_ops_copilot.ToolResult.{ActualOutcome}
use restaurant_ops_copilot.Decisions.{
  PredictedOutcome, Decision, is_simulated, is_decision, awaits_evaluation, mark_executed,
  mark_evaluated, new_decision, propose_and_simulate, claim_decision, persist_evaluation,
}

module _ (N : Numbers) where
  open N use {Num}

  -- A call of the engine: a proposal with the simulator's answer, or one of the two transactions
  -- of `execute_and_observe`.
  pub data Call : Type 0 where
    propose_call : ℕ → ℕ → ActionType → Payload Num → Result (PredictedOutcome Num) → Call
    claim_call : ℕ → ℕ → Call
    evaluate_call : ℕ → ℕ → ActualOutcome Num → Num → Call

module _ (N : Numbers) where
  open N use {Num}

  unfoldable pub step : Call N → List (Decision Num) → List (Decision Num)
  step (propose_call i t a p r) ds = (propose_and_simulate N i t a p r ds).1
  step (claim_call t i) ds = (claim_decision N t i ds).1
  step (evaluate_call t i a e) ds = (persist_evaluation N t i a e ds).1

  abbrev pub is_ok : Result (Decision Num) → Bool
  is_ok (ok a) = true
  is_ok (err e) = false

  -- a claim of this decision that succeeds
  unfoldable pub claims : ℕ → ℕ → Call N → List (Decision Num) → Bool
  claims t i (claim_call u j) ds = u == t && j == i && is_ok (claim_decision N u j ds).0
  claims t i _ ds = false

  Claimed : ℕ → ℕ → List (Decision Num) → Type 0
  Claimed t i ds =
      (d : Decision Num) × (find (is_decision t i) ds ≡ some d) × (is_simulated d.status ≡ false)

  propose-Claimed :
      (t i : ℕ) (j u : ℕ) (a : ActionType) (p : Payload Num) (r : Result (PredictedOutcome Num))
      (ds : List (Decision Num))
      → Claimed t i ds
      → Claimed t i (propose_and_simulate N j u a p r ds).1
  unfolding propose_and_simulate Claimed
  propose-Claimed t i j u a p r ds (d, h, c) = (
    d,
    ground (
      arith,
      find-append (is_decision t i) ds
          (elim r [ ok q ↦ new_decision N j u a p q ∷ [] | err e ↦ [] ]) d,
    ),
    c,
  )

  claim-table :
      (u j : ℕ) (ds : List (Decision Num))
      → ((claim_decision N u j ds).1 ≡ ds)
        ⊎ ((claim_decision N u j ds).1 ≡ update (is_decision u j) mark_executed ds)
  unfolding claim_decision
  claim-table u j ds = ground arith

  evaluate-table :
      (u j : ℕ) (a : ActualOutcome Num) (e : Num) (ds : List (Decision Num))
      → ((persist_evaluation N u j a e ds).1 ≡ ds)
        ⊎ ((persist_evaluation N u j a e ds).1
            ≡ update (awaits_evaluation u j) (mark_evaluated a e) ds)
  unfolding persist_evaluation
  evaluate-table u j a e ds = ground arith

  update-Claimed :
      (t i : ℕ) (p : Decision Num → Bool) (f : Decision Num → Decision Num)
      (ds : List (Decision Num))
      → ((d : Decision Num) → is_decision t i (f d) ≡ is_decision t i d)
      → ((d : Decision Num) → is_simulated (f d).status ≡ false)
      → Claimed t i ds
      → Claimed t i (update p f ds)
  unfolding Claimed
  update-Claimed t i p f ds same claimed (d, h, c) = (
    if p d then f d else d,
    find-update-some p (is_decision t i) f ds d same h,
    ground (arith, claimed d),
  )

  step-Claimed :
      (t i : ℕ) (o : Call N) (ds : List (Decision Num)) → Claimed t i ds → Claimed t i (step o ds)
  unfolding step
  step-Claimed t i (propose_call j u a p r) ds h = propose-Claimed t i j u a p r ds h
  step-Claimed t i (claim_call u j) ds h = elim (claim-table u j ds) [
    | inl e ↦ subst (Claimed t i) (sym e) h
    | inr e ↦
        subst (Claimed t i) (sym e)
          (update-Claimed t i _ mark_executed ds (λ d. refl) (λ d. refl) h)
  ]
  step-Claimed t i (evaluate_call u j a x) ds h = elim (evaluate-table u j a x ds) [
    | inl e ↦ subst (Claimed t i) (sym e) h
    | inr e ↦
        subst (Claimed t i) (sym e)
          (update-Claimed t i _ (mark_evaluated a x) ds (λ d. refl) (λ d. refl) h)
  ]

  claim-claims :
      (t i : ℕ) (ds : List (Decision Num))
      → is_ok (claim_decision N t i ds).0 ≡ true
      → Claimed t i (claim_decision N t i ds).1
  unfolding claim_decision Claimed
  claim-claims t i ds h = elim (Option-cases (find (is_decision t i) ds)) [
    | inl absent ↦ ground arith
    | inr (d, e) ↦ (
      mark_executed d,
      ground (
        arith,
        find-update-some (is_decision t i) (is_decision t i) mark_executed ds d (λ b. refl) e,
        find_passes (is_decision t i) ds d e,
      ),
      refl,
    )
  ]

  claims-Claimed :
      (t i : ℕ) (o : Call N) (ds : List (Decision Num))
      → claims t i o ds ≡ true
      → Claimed t i (step o ds)
  unfolding claims step
  claims-Claimed t i (propose_call j u a p r) ds h = ground arith
  claims-Claimed t i (evaluate_call u j a x) ds h = ground arith
  claims-Claimed t i (claim_call u j) ds h =
      let same_tenant : u ≡ t = ground arith in
      let same_id : j ≡ i = ground arith in
      subst₂ (λ x y. Claimed x y (claim_decision N u j ds).1) same_tenant same_id
        (claim-claims u j ds (ground arith))

  Claimed-shut :
      (t i : ℕ) (o : Call N) (ds : List (Decision Num)) → Claimed t i ds → claims t i o ds ≡ false
  unfolding claims Claimed claim_decision
  Claimed-shut t i (propose_call j u a p r) ds h = refl
  Claimed-shut t i (evaluate_call u j a x) ds h = refl
  Claimed-shut t i (claim_call u j) ds (d, h, c) = ground arith

  -- Over every sequence of proposals, claims and evaluations, by any number of workers and for any
  -- tenants, at most one claim of a decision succeeds.
  pub decision_claimed_once :
      (t i : ℕ) (calls : List (Call N)) (ds : List (Decision Num))
      → wins_in step (claims t i) calls ds ≤ 1
  decision_claimed_once t i =
      at_most_one step (claims t i) (Claimed t i) (claims-Claimed t i) (step-Claimed t i)
        (Claimed-shut t i)
