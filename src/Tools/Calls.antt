-- ===== src/Tools/Calls.antt =====
-- The calls of Component_4/tool_framework.py, in the order in which their sessions commit.
use restaurant_ops_copilot.Prelude.{
  ℕ, String, Bool, true, false, Option, none, some, Result, ok, err, Error, Exec, pure, lift, gets,
  raise_if, or_raise, find, not, if◌then◌else◌, ◌>>=◌, ◌>>◌, tool_framework, tool_busy,
  simulator_input, type_error,
}
use restaurant_ops_copilot.Values.{Numbers, num, Payload, get, ActionType, menu_swap}
use restaurant_ops_copilot.Policy.Numeric.{Reason}
use restaurant_ops_copilot.Policy.Critic.{critique}
use restaurant_ops_copilot.Policy.Risk.{RiskClassification, classify_risk}
use restaurant_ops_copilot.EventStore.Tables.{Event}
use restaurant_ops_copilot.EventStore.Append.{Digest, append_event}
use restaurant_ops_copilot.Decisions.{
  Decision, is_decision, propose_and_simulate, execute_and_observe,
}
use restaurant_ops_copilot.Approval.{ApprovalStatus, approved, request, get_request}
use restaurant_ops_copilot.Idempotency.{
  Claim, owned, replay, still_running, incomplete, result, claim, complete, fail,
}
use restaurant_ops_copilot.ToolResult.{
  ToolResult, unsupported_action, held_low_confidence, blocked_by_critic, pending_human_approval,
  executed_result, concurrent_change_in_progress, request_in_progress, previous_attempt_incomplete,
  json_safe, json_option,
}
use restaurant_ops_copilot.Tools.{
  Store, Surroundings, no_reason, unsupported_reason, busy_reason, human_approval_recorded, because,
  on_world, on_decisions, on_approvals, on_keys, write_log,
}
use restaurant_ops_copilot.Tools.Resolve.{current_value_for_critic}
use restaurant_ops_copilot.Tools.Apply.{is_text, state_change_event}

-- `except SimulatorInputError as exc: raise ToolFrameworkError`
abbrev pub as_tool_error : {A : Type 0} → Result A → Result A
as_tool_error (ok a) = ok a
as_tool_error (err simulator_input) = err tool_framework
as_tool_error (err e) = err e

abbrev pub is_approved : ApprovalStatus → Bool
is_approved approved = true
is_approved _ = false

abbrev pub is_busy : Error → Bool
is_busy tool_busy = true
is_busy _ = false

module _ (N : Numbers) (digest : Digest N.Num) where
  open N use {Num, json}

  -- `_apply_state_change`
  unfoldable pub apply_state_change :
      Surroundings Num → ℕ → ActionType → Payload Num → Exec (Store Num) (Event Num)
  apply_state_change w t a p = do
    change ← gets (λ s. state_change_event N t a p s.world)
    e ← lift change
    on_world (append_event N digest w.event_id w.now t e.0 e.1 "agent_action")

  -- the gated execution: claim and observe, write the state, log
  unfoldable pub execute_now :
      Surroundings Num
      → ℕ
      → ActionType
      → Payload Num
      → Decision Num
      → Reason Num
      → Exec (Store Num) (ToolResult Num)
  execute_now w t a p d reason = do
    done ← on_decisions (execute_and_observe N t d.id w.observe)
    apply_state_change w t a p
    write_log w.now t (some d.id) a true (some true) (because reason) true p
    pure (executed_result done.id (json_option N done.calibration_error) done.actual_outcome)

  -- the human gate
  unfoldable pub ask_human :
      Surroundings Num
      → ℕ
      → ActionType
      → Payload Num
      → Decision Num
      → RiskClassification Num
      → Exec (Store Num) (ToolResult Num)
  ask_human w t a p d risk = do
    r ← on_approvals (request w.approval_id t d.id risk.reason)
    write_log w.now t (some d.id) a true (some true) (because risk.reason) false p
    pure (pending_human_approval d.id r.id risk.risk_level)

  -- the critic's refusal
  unfoldable pub block :
      Surroundings Num
      → ℕ
      → ActionType
      → Payload Num
      → Decision Num
      → Reason Num
      → Exec (Store Num) (ToolResult Num)
  block w t a p d reason = do
    write_log w.now t (some d.id) a true (some false) (because reason) false p
    pure (blocked_by_critic d.id reason)

  -- the block under the lock
  unfoldable pub under_lock :
      Surroundings Num
      → ℕ
      → ActionType
      → Payload Num
      → Decision Num
      → Exec (Store Num) (ToolResult Num)
  under_lock w t a p d = do
    value ← gets (λ s. current_value_for_critic N t a p s.world)
    current ← lift value
    verdict ← lift (critique N a p current)
    let risk : RiskClassification Num = classify_risk N a p (num d.confidence) current
    if verdict.approved
        then (if risk.requires_approval
            then ask_human w t a p d risk
            else execute_now w t a p d verdict.reason)
        else block w t a p d verdict.reason

  unfoldable pub busy :
      Surroundings Num
      → ℕ
      → ActionType
      → Payload Num
      → Decision Num
      → Exec (Store Num) (ToolResult Num)
  busy w t a p d = do
    write_log w.now t (some d.id) a true none busy_reason false p
    pure (concurrent_change_in_progress d.id)

  -- `_serialized_state_change` around the block, with the handler of `ToolBusyError`
  unfoldable pub serialized :
      Surroundings Num
      → ℕ
      → ActionType
      → Payload Num
      → Decision Num
      → Exec (Store Num) (ToolResult Num)
  serialized w t a p d = elim w.lock [
    | none ↦ under_lock w t a p d
    | some e ↦ if is_busy e then busy w t a p d else lift (err e)
  ]

  unfoldable pub hold :
      Surroundings Num
      → ℕ
      → ActionType
      → Payload Num
      → Decision Num
      → Exec (Store Num) (ToolResult Num)
  hold w t a p d = do
    write_log w.now t (some d.id) a false none no_reason false p
    pure (held_low_confidence d.id d.confidence)

  unfoldable pub decline :
      Surroundings Num → ℕ → ActionType → Payload Num → Exec (Store Num) (ToolResult Num)
  decline w t a p = do
    write_log w.now t none a false none unsupported_reason false p
    pure unsupported_action

  -- `action_type == MENU_SWAP and payload.get("action") == "add"`
  unfoldable pub is_menu_add : ActionType → Payload Num → Bool
  is_menu_add menu_swap p = is_text "add" (get "action" p)
  is_menu_add _ p = false

  -- the confidence gate
  unfoldable pub gate :
      Surroundings Num
      → ℕ
      → ActionType
      → Payload Num
      → Decision Num
      → Exec (Store Num) (ToolResult Num)
  gate w t a p d = if d.confidence_threshold_cleared then serialized w t a p d else hold w t a p d

  unfoldable pub propose_and_gate :
      Surroundings Num → ℕ → ActionType → Payload Num → Exec (Store Num) (ToolResult Num)
  propose_and_gate w t a p = do
    d ← on_decisions (λ ds.
        let r = propose_and_simulate N w.decision_id t a p w.simulate ds in
        (as_tool_error r.0, r.1))
    gate w t a p d

  -- `execute_tool_call`
  unfoldable pub execute_tool_call :
      Surroundings Num → ℕ → ActionType → Payload Num → Exec (Store Num) (ToolResult Num)
  execute_tool_call w t a p = if is_menu_add a p then decline w t a p else propose_and_gate w t a p

  -- what `execute_approved_tool_call` does with the decision under the lock, and its log row
  unfoldable pub execute_decision :
      Surroundings Num → ℕ → Decision Num → Exec (Store Num) (ToolResult Num)
  execute_decision w t d = do
    done ← on_decisions (execute_and_observe N t d.id w.observe)
    apply_state_change w t d.action_type d.action_payload
    write_log w.now t (some d.id) d.action_type true (some true) human_approval_recorded true
        d.action_payload
    pure (executed_result done.id (json_option N done.calibration_error) done.actual_outcome)

  -- `execute_approved_tool_call`
  unfoldable pub execute_approved_tool_call :
      Surroundings Num → ℕ → ℕ → Exec (Store Num) (ToolResult Num)
  execute_approved_tool_call w t i = do
    approval ← on_approvals (get_request t i)
    raise_if (not (is_approved approval.status)) tool_framework
    row ← gets (λ s. find (is_decision t approval.decision_id) s.decisions)
    d ← lift (or_raise row tool_framework)
    lift (elim w.lock [ none ↦ ok tt | some e ↦ err e ])
    execute_decision w t d

  -- what a claim that is not owned returns; a completed row always holds a result
  unfoldable pub answer_of : Claim (ToolResult Num) → Result (Option (ToolResult Num))
  answer_of owned = ok none
  answer_of (replay (result r)) = ok (some r)
  answer_of (replay _) = err type_error
  answer_of still_running = ok (some request_in_progress)
  answer_of incomplete = ok (some previous_attempt_incomplete)

  -- `try: execute_tool_call(...) except BaseException: fail(...); raise` and then `complete`
  unfoldable pub attempt :
      Surroundings Num → ℕ → String → ActionType → Payload Num → Exec (Store Num) (ToolResult Num)
  attempt w t key a p s =
      let done = execute_tool_call w t a p s in
      elim done.0 [
        | ok r ↦ on_keys (complete t key (json_safe N r)) done.1
        | err e ↦ (err e, record done.1 { keys = fail t key done.1.keys })
      ]

  -- `execute_tool_call_idempotent`; `fingerprint` is `request_fingerprint`
  unfoldable pub execute_tool_call_idempotent :
      (ActionType → Payload Num → String)
      → Surroundings Num
      → ℕ
      → String
      → ActionType
      → Payload Num
      → Exec (Store Num) (ToolResult Num)
  execute_tool_call_idempotent fingerprint w t key a p = do
    held ← on_keys (claim t key (fingerprint a p) w.now)
    answer ← lift (answer_of held)
    elim answer [ some r ↦ pure r | none ↦ attempt w t key a p ]
