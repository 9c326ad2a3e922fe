-- ===== src/Cycle/Run/Loop.antt =====
-- What the loop of `run_cycle` (orchestrator.py) keeps: what `_handle` does to one opportunity, it
-- does to all.
use mathlib.Core.Path.{subst, sym}
use restaurant_ops_copilot.Prelude.{
  ℕ, suc, ◌+◌, ◌≤◌, ◌≡◌, refl, Bool, true, false, List, [], ◌∷◌, Result, ok, arith, inl, inr,
  Result-cases, Bool-cases, Option-cases, ◌⊎◌, All, leb, ◌==◌, if◌then◌else◌,
}
use restaurant_ops_copilot.Values.{Numbers}
use restaurant_ops_copilot.EventStore.Append.{Digest}
use restaurant_ops_copilot.Tools.{Store}
use restaurant_ops_copilot.Tools.Calls.{execute_tool_call_idempotent}
use restaurant_ops_copilot.Tools.Growth.{event_count, idempotent-event_count}
use restaurant_ops_copilot.Proposals.{CandidateAction, Opportunity}
use restaurant_ops_copilot.Proposals.Batch.{Batch, proposals_for}
use restaurant_ops_copilot.Cycle.{
  ScoredCandidate, OpportunityOutcome, CycleStatus, cycle_already_running, Settings, Environment,
}
use restaurant_ops_copilot.Cycle.Selection.{ranked}
use restaurant_ops_copilot.Cycle.Handle.{act, handle}
use restaurant_ops_copilot.Cycle.Handle.Cases.{is_error, handle-cases}
use restaurant_ops_copilot.Cycle.Run.{
  stop, action_budget, detect_and_reason, run_stages, preflight, run_cycle, is_attempt,
  failed_outcome, actions_after, run_loop,
}

-- an outcome that stands for an exception
abbrev pub is_failure : {Num : Type 0} → OpportunityOutcome Num → Bool
is_failure x = if is_attempt x then false else is_error x.status

abbrev pub one_if : Bool → ℕ
one_if b = if b then 1 else 0

module _ (N : Numbers) (digest : Digest N.Num) (cfg : Settings N.Num) (env : Environment N.Num)
    (t : ℕ) where
  open N use {Num}

  -- What holds of the outcome of every opportunity and of every failure holds of all outcomes.
  pub run_loop-All :
      (Q : OpportunityOutcome Num → Type 0) (proposals : Batch Num)
      → ((o : Opportunity Num) (left : ℕ) (s : Store Num) (x : OpportunityOutcome Num)
          → (handle N digest cfg env t o left (proposals_for o.id proposals) s).0 ≡ ok x
          → Q x)
      → ((o : Opportunity Num) → Q (failed_outcome o))
      → (left errors : ℕ) (os : List (Opportunity Num)) (s : Store Num)
      → All Q (run_loop N digest cfg env t proposals left errors os s).0.outcomes
  unfolding run_loop
  run_loop-All Q proposals hq fq left errors [] s = tt
  run_loop-All Q proposals hq fq left errors (o ∷ os) s =
      let r = handle N digest cfg env t o left (proposals_for o.id proposals) s in
      elim (Bool-cases (leb cfg.max_errors errors)) [
        | inl full ↦ rw full tt
        | inr room ↦ rw room (elim (Result-cases r.0) [
          | inl (x, handled) ↦ rw handled (
            hq o left s x handled,
            run_loop-All Q proposals hq fq (actions_after x left) errors os r.1,
          )
          | inr (e, raised) ↦
              rw raised (fq o, run_loop-All Q proposals hq fq left (suc errors) os r.1)
        ])
      ]

  -- What one opportunity costs: an action where one was attempted, and at most one event.
  abbrev pub Step : ℕ → Store Num → Result (OpportunityOutcome Num) × Store Num → Type 0
  Step left s r =
      ((x : OpportunityOutcome Num)
        → r.0 ≡ ok x
        → (one_if (is_attempt x) ≤ left)
          × (is_failure x ≡ false)
          × (event_count N digest r.1 ≤ event_count N digest s + one_if (is_attempt x)))
      × (event_count N digest r.1 ≤ suc (event_count N digest s))

  pub act-store :
      (o : Opportunity Num) (scored : List (ScoredCandidate Num)) (best : ScoredCandidate Num)
      (s : Store Num)
      → (act N digest cfg env t o scored best s).1
        ≡ (execute_tool_call_idempotent N digest env.fingerprint
            (env.surroundings o)
            t
            (env.idempotency_key o.id best.candidate)
            best.candidate.action_type
            best.candidate.payload
            s).1
  unfolding act
  act-store o scored best s = ground arith

  act-is_attempt :
      (o : Opportunity Num) (scored : List (ScoredCandidate Num)) (best : ScoredCandidate Num)
      (s : Store Num) (x : OpportunityOutcome Num)
      → (act N digest cfg env t o scored best s).0 ≡ ok x
      → is_attempt x ≡ true
  unfolding act
  act-is_attempt o scored best s x h = ground arith

  act-Step :
      (o : Opportunity Num) (left : ℕ) (scored : List (ScoredCandidate Num))
      (best : ScoredCandidate Num) (s : Store Num)
      → (left == 0) ≡ false
      → Step left s (act N digest cfg env t o scored best s)
  act-Step o left scored best s h =
      let grown : event_count N digest (act N digest cfg env t o scored best s).1
          ≤ suc (event_count N digest s) =
        rw (act-store o scored best s) (
          idempotent-event_count N digest env.fingerprint (env.surroundings o) t
            (env.idempotency_key o.id best.candidate) best.candidate.action_type
            best.candidate.payload s) in
      (
        λ x e.
            let tried = act-is_attempt o scored best s x e in
            (ground (arith, tried), ground (arith, tried), ground (arith, tried, grown)),
        grown,
      )

  pub handle-Step :
      (o : Opportunity Num) (left : ℕ) (cs : List (CandidateAction Num)) (s : Store Num)
      → Step left s (handle N digest cfg env t o left cs s)
  handle-Step o left cs s = elim (handle-cases N digest cfg env t o left cs s) [
    | inl (same, quiet) ↦ (
      λ x e.
          let (idle, fine) = quiet x e in
          (ground (arith, idle), ground (arith, fine), rw same (ground arith)),
      rw same (ground arith),
    )
    | inr acted ↦
        subst (Step left s) (sym acted.acts)
          (act-Step o left (ranked N cfg env s.world cs) acted.best s acted.has_left)
  ]

  -- A cycle stops before its loop and leaves everything as it was, or it is its loop.
  pub run_cycle-cases :
      (s : Store Num)
      → ((status : CycleStatus) × (run_cycle N digest cfg env t s ≡ (stop status, s)))
        ⊎ ((os : List (Opportunity Num)) × (proposals : Batch Num) × (detect_and_reason N digest cfg
                env t s
              ≡ ok (os, proposals))
            × (run_cycle N digest cfg env t s
                ≡ run_loop N digest cfg env t proposals (action_budget N digest cfg env t) 0 os s))
  unfolding run_cycle run_stages
  run_cycle-cases s = elim (Bool-cases env.acquired) [
    | inr held ↦ inl (cycle_already_running, rw held refl)
    | inl free ↦ elim (Option-cases (preflight N digest cfg env t s)) [
      | inr (status, unsafe) ↦ inl (status, ground (arith, free, unsafe))
      | inl clear ↦ elim (Result-cases (detect_and_reason N digest cfg env t s)) [
        | inr (e, refused) ↦ inl (CycleStatus.failed e, ground (arith, free, clear, refused))
        | inl (x, reasoned) ↦ inr (x.0, x.1, reasoned, ground (arith, free, clear, reasoned))
      ]
    ]
  ]
