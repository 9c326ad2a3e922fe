-- ===== src/Cycle/Run/Bounds.antt =====
-- The limits of `run_cycle` (orchestrator.py).
use mathlib.Core.Path.{subst, sym}
use restaurant_ops_copilot.Prelude.{
  ℕ, zero, suc, ◌+◌, ◌≤◌, ◌≡◌, true, false, List, [], ◌∷◌, ok, arith, inl, inr, Result-cases, count,
  length, length-take, take, leb,
}
use restaurant_ops_copilot.Values.{Numbers}
use restaurant_ops_copilot.EventStore.Append.{Digest}
use restaurant_ops_copilot.Tools.{Store}
use restaurant_ops_copilot.Tools.Growth.{event_count}
use restaurant_ops_copilot.Proposals.{Opportunity}
use restaurant_ops_copilot.Proposals.Batch.{Batch, proposals_for}
use restaurant_ops_copilot.Cycle.{
  OpportunityOutcome, CycleStatus, CycleReport, Settings, Environment,
}
use restaurant_ops_copilot.Cycle.Handle.{handle}
use restaurant_ops_copilot.Cycle.Run.{
  is_attempt, stop, failed_outcome, report_outcome, actions_after, run_loop, action_budget,
  detect_and_reason, run_cycle,
}
use restaurant_ops_copilot.Cycle.Run.Loop.{is_failure, one_if, run_cycle-cases, handle-Step}

module _ (N : Numbers) (digest : Digest N.Num) (cfg : Settings N.Num) (env : Environment N.Num)
    (t : ℕ) where
  open N use {Num}

  abbrev pub attempts : CycleReport Num → ℕ
  attempts r = count is_attempt r.outcomes

  abbrev pub failures : CycleReport Num → ℕ
  failures r = count is_failure r.outcomes

  -- What a run of the loop may cost.
  abbrev pub Bounded : ℕ → ℕ → ℕ → Store Num → CycleReport Num × Store Num → Type 0
  Bounded n left faults s r =
      (length r.0.outcomes ≤ n)
      × (attempts r.0 ≤ left)
      × (failures r.0 ≤ faults)
      × (event_count N digest r.1 ≤ event_count N digest s + (attempts r.0 + failures r.0))

  -- one more opportunity, handled
  Bounded-handled :
      (n left faults : ℕ) (s s' : Store Num) (x : OpportunityOutcome Num)
      (r : CycleReport Num × Store Num)
      → one_if (is_attempt x) ≤ left
      → is_failure x ≡ false
      → event_count N digest s' ≤ event_count N digest s + one_if (is_attempt x)
      → Bounded n (actions_after x left) faults s' r
      → Bounded (suc n) left faults s (report_outcome x r.0, r.1)
  Bounded-handled n left faults s s' x r h f e (len, acts, fails, grown) =
      (ground arith, ground arith, ground (arith, f), ground (arith, f))

  Bounded-failed :
      (n left faults : ℕ) (s s' : Store Num) (o : Opportunity Num) (r : CycleReport Num × Store Num)
      → event_count N digest s' ≤ suc (event_count N digest s)
      → Bounded n left faults s' r
      → Bounded (suc n) left (suc faults) s (report_outcome (failed_outcome o) r.0, r.1)
  Bounded-failed n left faults s s' o r e (len, acts, fails, grown) =
      (ground arith, ground arith, ground arith, ground arith)

  run_loop-Bounded :
      (proposals : Batch Num) (left errors faults : ℕ) (os : List (Opportunity Num)) (s : Store Num)
      → errors + faults ≡ cfg.max_errors
      → Bounded (length os) left faults s (run_loop N digest cfg env t proposals left errors os s)
  unfolding run_loop
  run_loop-Bounded proposals left errors faults [] s h =
      (ground arith, ground arith, ground arith, ground arith)
  run_loop-Bounded proposals left errors zero (o ∷ os) s h =
      let full : leb cfg.max_errors errors ≡ true = ground arith in
      rw full (ground arith, ground arith, ground arith, ground arith)
  run_loop-Bounded proposals left errors (suc faults) (o ∷ os) s h =
      let room : leb cfg.max_errors errors ≡ false = ground arith in
      let r = handle N digest cfg env t o left (proposals_for o.id proposals) s in
      let (handled, grown) =
        handle-Step N digest cfg env t o left (proposals_for o.id proposals) s in
      rw room (elim (Result-cases r.0) [
        | inl (x, done) ↦
            let (cost, fine, small) = handled x done in
            rw done (
              Bounded-handled (length os) left (suc faults) s r.1 x
                (run_loop N digest cfg env t proposals (actions_after x left) errors os r.1) cost
                fine small
                (run_loop-Bounded proposals (actions_after x left) errors (suc faults) os r.1 h))
        | inr (e, broken) ↦ rw broken (
            Bounded-failed (length os) left faults s r.1 o
              (run_loop N digest cfg env t proposals left (suc errors) os r.1) grown
              (run_loop-Bounded proposals left (suc errors) faults os r.1 (ground arith)))
      ])

  nothing-Bounded :
      (n left faults : ℕ) (s : Store Num) (status : CycleStatus)
      → Bounded n left faults s (stop status, s)
  nothing-Bounded n left faults s status = (ground arith, ground arith, ground arith, ground arith)

  -- Only as many opportunities are considered as the setting says.
  detect_and_reason-length :
      (s : Store Num) (os : List (Opportunity Num)) (b : Batch Num)
      → detect_and_reason N digest cfg env t s ≡ ok (os, b)
      → length os ≤ cfg.max_opportunities
  unfolding detect_and_reason
  detect_and_reason-length s os b h = elim (Result-cases (env.detect_opportunities s.world)) [
    | inr (e, broken) ↦ absurd (ground arith)
    | inl (found, detected) ↦
        let same : take cfg.max_opportunities found ≡ os = ground arith in
        subst (λ l. length l ≤ cfg.max_opportunities) same (length-take cfg.max_opportunities found)
  ]

  -- However a cycle ends, it reports at most `max_opportunities` outcomes; it attempts at most
  -- `max_actions` actions, and none unless its mode is to execute; at most `max_errors` of its outcomes
  -- stand for an exception; and it appends at most one event for each attempt or exception.
  pub run_cycle-Bounded :
      (s : Store Num)
      → Bounded cfg.max_opportunities
          (action_budget N digest cfg env t)
          cfg.max_errors
          s
          (run_cycle N digest cfg env t s)
  run_cycle-Bounded s =
      let budget = action_budget N digest cfg env t in
      elim (run_cycle-cases N digest cfg env t s) [
        | inl (status, same) ↦
            subst (Bounded cfg.max_opportunities budget cfg.max_errors s) (sym same)
              (nothing-Bounded cfg.max_opportunities budget cfg.max_errors s status)
        | inr (os, proposals, reasoned, same) ↦
            let few = detect_and_reason-length s os proposals reasoned in
            let (len, acts, fails, grown) =
              run_loop-Bounded proposals budget 0 cfg.max_errors os s (ground arith) in
            subst (Bounded cfg.max_opportunities budget cfg.max_errors s) (sym same)
              (ground (arith, few, len), acts, fails, grown)
      ]
