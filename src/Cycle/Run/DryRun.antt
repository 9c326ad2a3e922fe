-- ===== src/Cycle/Run/DryRun.antt =====
-- `run_cycle` (orchestrator.py) in the modes that propose and simulate.
use mathlib.Core.Path.{◌∙◌}
use restaurant_ops_copilot.Prelude.{
  ℕ, suc, ◌≡◌, refl, false, List, [], ◌∷◌, arith, inl, inr, Result-cases, Bool-cases, leb,
}
use restaurant_ops_copilot.Values.{Numbers}
use restaurant_ops_copilot.EventStore.Append.{Digest}
use restaurant_ops_copilot.Tools.{Store}
use restaurant_ops_copilot.Proposals.{CandidateAction, Opportunity}
use restaurant_ops_copilot.Proposals.Batch.{Batch, proposals_for}
use restaurant_ops_copilot.Cycle.{Settings, Environment}
use restaurant_ops_copilot.Cycle.Handle.{is_execute, handle}
use restaurant_ops_copilot.Cycle.Handle.Cases.{handle-cases}
use restaurant_ops_copilot.Cycle.Run.{actions_after, action_budget, run_loop, run_cycle}
use restaurant_ops_copilot.Cycle.Run.Loop.{run_cycle-cases}

module _ (N : Numbers) (digest : Digest N.Num) (cfg : Settings N.Num) (env : Environment N.Num)
    (t : ℕ) where
  open N use {Num}

  handle-dry :
      (o : Opportunity Num) (left : ℕ) (cs : List (CandidateAction Num)) (s : Store Num)
      → is_execute cfg.mode ≡ false
      → (handle N digest cfg env t o left cs s).1 ≡ s
  handle-dry o left cs s h = elim (handle-cases N digest cfg env t o left cs s) [
    | inl (same, quiet) ↦ same
    | inr acted ↦ absurd (ground (arith, acted.executes))
  ]

  run_loop-dry :
      (proposals : Batch Num) (left errors : ℕ) (os : List (Opportunity Num)) (s : Store Num)
      → is_execute cfg.mode ≡ false
      → (run_loop N digest cfg env t proposals left errors os s).1 ≡ s
  unfolding run_loop
  run_loop-dry proposals left errors [] s h = refl
  run_loop-dry proposals left errors (o ∷ os) s h =
      let r = handle N digest cfg env t o left (proposals_for o.id proposals) s in
      let still = handle-dry o left (proposals_for o.id proposals) s h in
      elim (Bool-cases (leb cfg.max_errors errors)) [
        | inl full ↦ rw full refl
        | inr room ↦ rw room (elim (Result-cases r.0) [
          | inl (x, done) ↦
              rw done (run_loop-dry proposals (actions_after x left) errors os r.1 h ∙ still)
          | inr (e, broken) ↦ rw broken (run_loop-dry proposals left (suc errors) os r.1 h ∙ still)
        ])
      ]

  -- A cycle whose mode is not to execute leaves every table exactly as it was, whatever it detects,
  -- reasons and simulates.
  pub dry_cycle_keeps_store :
      (s : Store Num) → is_execute cfg.mode ≡ false → (run_cycle N digest cfg env t s).1 ≡ s
  dry_cycle_keeps_store s h = elim (run_cycle-cases N digest cfg env t s) [
    | inl (status, same) ↦ rw same refl
    | inr (os, proposals, reasoned, same) ↦
        rw same (run_loop-dry proposals (action_budget N digest cfg env t) 0 os s h)
  ]
