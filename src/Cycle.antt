-- ===== src/Cycle.antt =====
-- orchestrator.py: one cycle of detection, reasoning, simulation, gating and action, and the human's
-- part. An observer has no effect on a cycle, and a report's texts are left out.
pub mod Selection
pub mod Handle
pub mod Run
pub mod Review
use restaurant_ops_copilot.Prelude.{
  ℕ, String, Bool, true, false, Option, none, some, List, Result, Error,
}
use restaurant_ops_copilot.Values.{Numbers, Payload, ActionType}
use restaurant_ops_copilot.EventStore.Tables.{Tables}
use restaurant_ops_copilot.Decisions.{PredictedOutcome}
use restaurant_ops_copilot.ToolResult.{ToolResult}
use restaurant_ops_copilot.Tools.{Surroundings}
use restaurant_ops_copilot.Proposals.{CandidateAction, Opportunity, OpportunityType}
use restaurant_ops_copilot.Proposals.Reasoning.{Reasoner}

pub data CycleMode : Type 0 where
  propose simulate execute : CycleMode

pub data OutcomeStatus : Type 0 where
  executed pending_human_approval held_low_confidence blocked_by_critic : OutcomeStatus
  unsupported_action proposed simulated_only no_candidates : OutcomeStatus
  no_beneficial_action cooldown_active action_limit_reached : OutcomeStatus
  needs_review_not_executed error : OutcomeStatus

pub record ScoredCandidate (Num : Type 0) : Type 0 where
  pub candidate : CandidateAction Num
  pub predicted : Option (PredictedOutcome Num)
  pub score : Option Num
  pub failure : Option Error

pub record OpportunityOutcome (Num : Type 0) : Type 0 where
  pub opportunity_id : String
  pub opportunity_type : OpportunityType
  pub estimated_monthly_impact : Num
  pub status : OutcomeStatus
  pub candidates : List (ScoredCandidate Num)
  pub selected : Option (ScoredCandidate Num)
  pub result : Option (ToolResult Num)

-- `CycleReport.status` with its reason
pub data CycleStatus : Type 0 where
  completed aborted cycle_already_running event_chain_corrupted event_store_unavailable :
      CycleStatus
  failed : Error → CycleStatus

pub record CycleReport (Num : Type 0) : Type 0 where
  pub status : CycleStatus
  pub outcomes : List (OpportunityOutcome Num)

-- The arguments of `run_cycle`; a duration is a number of microseconds.
pub record Settings (Num : Type 0) : Type 0 where
  pub mode : CycleMode
  pub min_score : Num
  pub max_opportunities : ℕ
  pub max_actions : ℕ
  pub max_errors : ℕ
  pub cooldown : ℕ
  pub now : ℕ
  pub verify_chain : Bool
  pub reasoner : Reasoner Num
  -- `float(scorer(predicted))`, `none` where it raises
  pub scorer : PredictedOutcome Num → Option Num

-- What a cycle meets outside this code: the detector and the simulator on the tables, what each
-- action meets, the hashes of keys and payloads, and whether the advisory lock is free.
pub record Environment (Num : Type 0) : Type 0 where
  pub detect_opportunities : Tables Num → Result (List (Opportunity Num))
  pub simulate : Tables Num → ActionType → Payload Num → Result (PredictedOutcome Num)
  pub surroundings : Opportunity Num → Surroundings Num
  pub idempotency_key : String → CandidateAction Num → String
  pub fingerprint : ActionType → Payload Num → String
  pub freeze : Payload Num → String
  pub dumps : Payload Num → String
  pub acquired : Bool

-- `default_scorer`
unfoldable pub default_scorer : (N : Numbers) → PredictedOutcome N.Num → Option N.Num
default_scorer N q = N.mul (N.to_float q.confidence) (N.to_float q.margin_change_pct)
