-- ===== src/Cycle/Handle.antt =====
-- `_handle` of orchestrator.py: what a cycle does about one opportunity.
pub mod Cases
use restaurant_ops_copilot.Prelude.{
  ℕ, zero, suc, Bool, true, false, Option, none, some, List, [], ◌∷◌, Exec, pure, lift, gets, map,
  ◌>>=◌, ◌==◌, if◌then◌else◌,
}
use restaurant_ops_copilot.Values.{Numbers}
use restaurant_ops_copilot.EventStore.Append.{Digest}
use restaurant_ops_copilot.ToolResult.{
  ToolResult, unsupported_action, held_low_confidence, blocked_by_critic, pending_human_approval,
  executed_result, concurrent_change_in_progress, request_in_progress, previous_attempt_incomplete,
}
use restaurant_ops_copilot.Tools.{Store}
use restaurant_ops_copilot.Tools.Calls.{execute_tool_call_idempotent}
use restaurant_ops_copilot.Proposals.{CandidateAction, Opportunity}
use restaurant_ops_copilot.Cycle.{
  CycleMode, propose, OutcomeStatus, ScoredCandidate, OpportunityOutcome, Settings, Environment,
}
use restaurant_ops_copilot.Cycle.Selection.{in_cooldown, ranked, viable, unflagged}

-- the status of a result: `OutcomeStatus(result.get("reason"))`, or `error` where the enumeration
-- lacks the reason
unfoldable pub status_of : {Num : Type 0} → ToolResult Num → OutcomeStatus
status_of (executed_result d c a) = OutcomeStatus.executed
status_of unsupported_action = OutcomeStatus.unsupported_action
status_of (held_low_confidence d c) = OutcomeStatus.held_low_confidence
status_of (blocked_by_critic d r) = OutcomeStatus.blocked_by_critic
status_of (pending_human_approval d i l) = OutcomeStatus.pending_human_approval
status_of (concurrent_change_in_progress d) = OutcomeStatus.error
status_of request_in_progress = OutcomeStatus.error
status_of previous_attempt_incomplete = OutcomeStatus.error

abbrev pub is_propose : CycleMode → Bool
is_propose propose = true
is_propose _ = false

abbrev pub is_simulate : CycleMode → Bool
is_simulate CycleMode.simulate = true
is_simulate _ = false

abbrev pub is_execute : CycleMode → Bool
is_execute CycleMode.execute = true
is_execute _ = false

module _ {Num : Type 0} where
  -- `outcome(status, candidates=..., selected=...)`
  abbrev pub outcome :
      Opportunity Num
      → OutcomeStatus
      → List (ScoredCandidate Num)
      → Option (ScoredCandidate Num)
      → OpportunityOutcome Num
  outcome o status candidates selected = record {
    opportunity_id = o.id;
    opportunity_type = o.opportunity_type;
    estimated_monthly_impact = o.estimated_monthly_impact;
    status = status;
    candidates = candidates;
    selected = selected;
    result = none;
  }

  abbrev pub proposal : CandidateAction Num → ScoredCandidate Num
  proposal c = record { candidate = c; predicted = none; score = none; failure = none }

module _ (N : Numbers) (digest : Digest N.Num) (cfg : Settings N.Num) (env : Environment N.Num)
    (t : ℕ) (o : Opportunity N.Num) where
  open N use {Num}

  -- the attempt
  unfoldable pub act :
      List (ScoredCandidate Num) → ScoredCandidate Num → Exec (Store Num) (OpportunityOutcome Num)
  act scored best = do
    r ←
        execute_tool_call_idempotent N digest env.fingerprint (env.surroundings o) t
          (env.idempotency_key o.id best.candidate) best.candidate.action_type
          best.candidate.payload
    pure (record (outcome o (status_of r) scored (some best)) { result = some r })

  -- what becomes of the selected candidate, with the actions that are left
  unfoldable pub act_or_stop :
      ℕ
      → List (ScoredCandidate Num)
      → ScoredCandidate Num
      → Bool
      → Exec (Store Num) (OpportunityOutcome Num)
  act_or_stop left scored best cooling =
      if cooling
      then pure (outcome o OutcomeStatus.cooldown_active scored (some best))
      else if is_simulate cfg.mode
      then pure (outcome o OutcomeStatus.simulated_only scored (some best))
      else if left == 0
      then pure (outcome o OutcomeStatus.action_limit_reached scored (some best))
      else act scored best

  -- `best = viable[0]` and what follows
  unfoldable pub attempt_best :
      ℕ
      → List (ScoredCandidate Num)
      → ScoredCandidate Num
      → Exec (Store Num) (OpportunityOutcome Num)
  attempt_best left scored best = do
    cooling ← gets (in_cooldown N t best.candidate cfg.cooldown cfg.now)
    answer ← lift cooling
    act_or_stop left scored best answer

  -- the choice among the viable candidates: as `_forced_review_supported()` is false, flagged ones
  -- are set aside
  unfoldable pub choose :
      ℕ
      → List (ScoredCandidate Num)
      → List (ScoredCandidate Num)
      → List (ScoredCandidate Num)
      → Exec (Store Num) (OpportunityOutcome Num)
  choose left scored [] safe = pure (outcome o OutcomeStatus.no_beneficial_action scored none)
  choose left scored (first ∷ rest) [] =
      pure (outcome o OutcomeStatus.needs_review_not_executed scored (some first))
  choose left scored (first ∷ rest) (best ∷ others) = attempt_best left scored best

  -- the stages from the simulation on
  unfoldable pub weigh : ℕ → List (CandidateAction Num) → Exec (Store Num) (OpportunityOutcome Num)
  weigh left cs s =
      let scored = ranked N cfg env s.world cs in
      let good = viable N cfg.min_score scored in choose left scored good (unflagged N good) s

  -- `_handle`
  unfoldable pub handle : ℕ → List (CandidateAction Num) → Exec (Store Num) (OpportunityOutcome Num)
  handle left [] = pure (outcome o OutcomeStatus.no_candidates [] none)
  handle left (c ∷ cs) =
      if is_propose cfg.mode
      then pure (outcome o OutcomeStatus.proposed (map proposal (c ∷ cs)) none)
      else weigh left (c ∷ cs)
