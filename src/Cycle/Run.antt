-- ===== src/Cycle/Run.antt =====
-- `run_cycle` of orchestrator.py. A tenant's id is valid, row level security is not asked for, and
-- the snapshot of the calibration is left out: it reads only.
pub mod Loop
pub mod Bounds
pub mod Authority
pub mod DryRun
use restaurant_ops_copilot.Prelude.{
  ℕ, suc, ◌-◌, Bool, true, false, Option, none, some, List, [], ◌∷◌, Result, ok, err, Error, Exec,
  chain_corrupted, take, leb, if◌then◌else◌,
}
use restaurant_ops_copilot.Prelude.Fallible.{◌>>=◌}
use restaurant_ops_copilot.Values.{Numbers}
use restaurant_ops_copilot.EventStore.Append.{Digest, verify_chain_integrity}
use restaurant_ops_copilot.Tools.{Store}
use restaurant_ops_copilot.Proposals.{Opportunity}
use restaurant_ops_copilot.Proposals.Batch.{Batch, proposals_for, reason_about_opportunities}
use restaurant_ops_copilot.Cycle.{
  OutcomeStatus, OpportunityOutcome, CycleStatus, completed, aborted, cycle_already_running,
  event_chain_corrupted, event_store_unavailable, failed, CycleReport, Settings, Environment,
}
use restaurant_ops_copilot.Cycle.Handle.{is_execute, outcome, handle}

module _ {Num : Type 0} where
  -- `outcome.result is not None`
  abbrev pub is_attempt : OpportunityOutcome Num → Bool
  is_attempt x = elim x.result [ none ↦ false | some r ↦ true ]

  abbrev pub stop : CycleStatus → CycleReport Num
  stop status = record { status = status; outcomes = [] }

  abbrev pub report_outcome : OpportunityOutcome Num → CycleReport Num → CycleReport Num
  report_outcome x r = record r { outcomes = x ∷ r.outcomes }

  -- the outcome for an exception
  abbrev pub failed_outcome : Opportunity Num → OpportunityOutcome Num
  failed_outcome o = outcome o OutcomeStatus.error [] none

  -- `actions_left` after an outcome
  abbrev pub actions_after : OpportunityOutcome Num → ℕ → ℕ
  actions_after x left = if is_attempt x then left - 1 else left

module _ (N : Numbers) (digest : Digest N.Num) (cfg : Settings N.Num) (env : Environment N.Num)
    (t : ℕ) where
  open N use {Num}

  -- the loop over the opportunities, with the actions that are left and the errors so far
  unfoldable pub run_loop :
      Batch Num → ℕ → ℕ → List (Opportunity Num) → Store Num → CycleReport Num × Store Num
  run_loop proposals left errors [] s = (stop completed, s)
  run_loop proposals left errors (o ∷ os) s =
      let r = handle N digest cfg env t o left (proposals_for o.id proposals) s in
      if leb cfg.max_errors errors then (stop aborted, s) else elim r.0 [
        | ok x ↦
            let rest = run_loop proposals (actions_after x left) errors os r.1 in
            (report_outcome x rest.0, rest.1)
        | err e ↦
            let rest = run_loop proposals left (suc errors) os r.1 in
            (report_outcome (failed_outcome o) rest.0, rest.1)
      ]

  -- `actions_left` at the start
  abbrev pub action_budget : ℕ
  action_budget = if is_execute cfg.mode then cfg.max_actions else 0

  -- detection and reasoning: the opportunities that are considered, and their candidates
  unfoldable pub detect_and_reason : Store Num → Result (List (Opportunity Num) × Batch Num)
  detect_and_reason s = do
    found ← env.detect_opportunities s.world
    let os : List (Opportunity Num) = take cfg.max_opportunities found
    batch ← reason_about_opportunities N env.freeze cfg.reasoner os
    ok (os, batch)

  -- what follows the preflight
  unfoldable pub run_stages : Store Num → CycleReport Num × Store Num
  run_stages s = elim (detect_and_reason s) [
    | err e ↦ (stop (failed e), s)
    | ok (os, proposals) ↦ run_loop proposals action_budget 0 os s
  ]

  -- an error of the verification
  abbrev pub skipped_for : Error → CycleStatus
  skipped_for chain_corrupted = event_chain_corrupted
  skipped_for _ = event_store_unavailable

  unfoldable pub preflight : Store Num → Option CycleStatus
  preflight s =
      if cfg.verify_chain
      then elim (verify_chain_integrity N digest t s.world) [
        | ok b ↦ none
        | err e ↦ some (skipped_for e)
      ]
      else none

  -- `run_cycle`
  unfoldable pub run_cycle : Store Num → CycleReport Num × Store Num
  run_cycle s =
      if env.acquired
      then elim (preflight s) [ none ↦ run_stages s | some status ↦ (stop status, s) ]
      else (stop cycle_already_running, s)
