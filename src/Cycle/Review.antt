-- ===== src/Cycle/Review.antt =====
-- The human's part of orchestrator.py: `resolve_approval`.
pub mod Gated
use restaurant_ops_copilot.Prelude.{
  ℕ, String, Bool, true, false, Option, none, some, Result, ok, err, Exec, pure, lift, gets,
  raise_if, find, not, if◌then◌else◌, ◌>>=◌, ◌>>◌, value_error,
}
use restaurant_ops_copilot.Prelude.Fallible
use restaurant_ops_copilot.Values.{Numbers}
use restaurant_ops_copilot.Policy.Numeric.{Reason}
use restaurant_ops_copilot.Policy.Critic.{critique}
use restaurant_ops_copilot.EventStore.Append.{Digest}
use restaurant_ops_copilot.Decisions.{Decision, is_decision}
use restaurant_ops_copilot.Approval.{is_pending, get_request, resolve}
use restaurant_ops_copilot.ToolResult.{ToolResult}
use restaurant_ops_copilot.Tools.{Store, Surroundings, on_approvals}
use restaurant_ops_copilot.Tools.Resolve.{current_value_for_critic}
use restaurant_ops_copilot.Tools.Calls.{execute_approved_tool_call}

pub data StaleReason (Num : Type 0) : Type 0 where
  approved_decision_not_found : StaleReason Num
  critic_reason : Reason Num → StaleReason Num

-- The dictionaries that `resolve_approval` returns.
pub data ReviewResult (Num : Type 0) : Type 0 where
  stale_approval : StaleReason Num → ℕ → ReviewResult Num
  rejected_request : ℕ → ReviewResult Num
  carried_out : ToolResult Num → ReviewResult Num

module _ (N : Numbers) where
  open N use {Num}

  -- the critic's verdict on the decision as the tables now stand
  unfoldable pub judge_again : ℕ → Decision Num → Store Num → Result (Option (StaleReason Num))
  judge_again t d s =
      Fallible.◌>>=◌ (current_value_for_critic N t d.action_type d.action_payload s.world)
        λ current.
          Fallible.◌>>=◌ (critique N d.action_type d.action_payload current)
            λ verdict. ok (if verdict.approved then none else some (critic_reason verdict.reason))

  -- `_stale_approval_reason`
  unfoldable pub stale_approval_reason : ℕ → ℕ → Store Num → Result (Option (StaleReason Num))
  stale_approval_reason t i s = elim (find (is_decision t i) s.decisions) [
    | none ↦ ok (some approved_decision_not_found)
    | some d ↦ judge_again t d s
  ]

module _ (N : Numbers) (digest : Digest N.Num) where
  open N use {Num}

  -- the resolution, and the execution after an approval
  unfoldable pub resolve_and_execute :
      Surroundings Num → ℕ → ℕ → Bool → String → Option String → Exec (Store Num) (ReviewResult Num)
  resolve_and_execute w t i approved reviewer override = do
    on_approvals (resolve t i approved reviewer override w.now)
    if approved
        then (do r ← execute_approved_tool_call N digest w t i; pure (carried_out r))
        else pure (rejected_request i)

  -- the answer to a request that has gone stale, else the resolution
  unfoldable pub unless_stale :
      Surroundings Num
      → ℕ
      → ℕ
      → Bool
      → String
      → Option String
      → Option (StaleReason Num)
      → Exec (Store Num) (ReviewResult Num)
  unless_stale w t i approved reviewer override (some r) = pure (stale_approval r i)
  unless_stale w t i approved reviewer override none =
      resolve_and_execute w t i approved reviewer override

  -- `resolve_approval`
  unfoldable pub resolve_approval :
      Surroundings Num → ℕ → ℕ → Bool → String → Option String → Exec (Store Num) (ReviewResult Num)
  resolve_approval w t i approved reviewer override = do
    approval ← on_approvals (get_request t i)
    raise_if (not (is_pending approval.status)) value_error
    answer ←
        gets (λ s. if approved then stale_approval_reason N t approval.decision_id s else ok none)
    stale ← lift answer
    unless_stale w t i approved reviewer override stale
