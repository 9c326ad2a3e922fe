-- ===== src/Tools/Gates.antt =====
-- What stands between a call of `execute_tool_call` (Component_4/tool_framework.py) and the
-- restaurant's state.
use restaurant_ops_copilot.Prelude.{
  ℕ, ◌≡◌, Bool, false, List, Result, ok, err, Error, arith, Result-cases, inl, inr,
}
use restaurant_ops_copilot.Values.{Numbers, num, Payload, ActionType}
use restaurant_ops_copilot.Policy.Numeric.{Reason}
use restaurant_ops_copilot.Policy.Critic.{critique}
use restaurant_ops_copilot.Policy.Risk.{RiskClassification, classify_risk}
use restaurant_ops_copilot.EventStore.Append.Isolation.{append-err}
use restaurant_ops_copilot.EventStore.Append.{Digest}
use restaurant_ops_copilot.Decisions.{Decision, propose_and_simulate, execute_and_observe}
use restaurant_ops_copilot.ToolResult.{ToolResult, is_executed}
use restaurant_ops_copilot.Tools.{Store, Surroundings, on_decisions, write_log}
use restaurant_ops_copilot.Tools.Resolve.{current_value_for_critic}
use restaurant_ops_copilot.Tools.Apply.{state_change_event}
use restaurant_ops_copilot.Tools.Calls.{
  apply_state_change, execute_now, ask_human, block, under_lock, busy, serialized, hold, decline,
  gate, propose_and_gate, execute_tool_call,
}

-- `result["executed"]` of a call that returns
abbrev pub has_executed : {Num : Type 0} → Result (ToolResult Num) → Bool
has_executed (ok r) = is_executed r
has_executed (err e) = false

module _ (N : Numbers) (digest : Digest N.Num) where
  open N use {Num}

  pub apply-world :
      (w : Surroundings Num) (t : ℕ) (a : ActionType) (p : Payload Num) (s : Store Num) (e : Error)
      → (apply_state_change N digest w t a p s).0 ≡ err e
      → (apply_state_change N digest w t a p s).1.world ≡ s.world
  unfolding apply_state_change
  apply-world w t a p s e h = elim (Result-cases (state_change_event N t a p s.world)) [
    | inr (x, refused) ↦ ground arith
    | inl (c, made) ↦
        ground (arith, append-err N digest w.event_id w.now t c.0 c.1 "agent_action" s.world e)
  ]

  execute_now-world :
      (w : Surroundings Num) (t : ℕ) (a : ActionType) (p : Payload Num) (d : Decision Num)
      (r : Reason Num) (s : Store Num)
      → has_executed (execute_now N digest w t a p d r s).0 ≡ false
      → (execute_now N digest w t a p d r s).1.world ≡ s.world
  unfolding execute_now write_log
  execute_now-world w t a p d r s h =
      let s1 : Store Num = (on_decisions (execute_and_observe N t d.id w.observe) s).1 in
      elim (Result-cases (apply_state_change N digest w t a p s1).0) [
        | inl (e, applied) ↦ ground arith
        | inr (x, failed) ↦ ground (arith, apply-world w t a p s1 x failed)
      ]

  ask_human-world :
      (w : Surroundings Num) (t : ℕ) (a : ActionType) (p : Payload Num) (d : Decision Num)
      (r : RiskClassification Num) (s : Store Num)
      → (ask_human N digest w t a p d r s).1.world ≡ s.world
  unfolding ask_human write_log
  ask_human-world w t a p d r s = ground arith

  under_lock-world :
      (w : Surroundings Num) (t : ℕ) (a : ActionType) (p : Payload Num) (d : Decision Num)
      (s : Store Num)
      → has_executed (under_lock N digest w t a p d s).0 ≡ false
      → (under_lock N digest w t a p d s).1.world ≡ s.world
  unfolding under_lock block write_log
  under_lock-world w t a p d s h = elim (Result-cases (current_value_for_critic N t a p s.world)) [
    | inr (x, lost) ↦ ground arith
    | inl (cur, read) ↦ elim (Result-cases (critique N a p cur)) [
      | inr (x, raised) ↦ ground arith
      | inl (v, judged) ↦ ground (
        arith,
        execute_now-world w t a p d v.reason s,
        ask_human-world w t a p d (classify_risk N a p (num d.confidence) cur) s,
      )
    ]
  ]

  propose_and_gate-world :
      (w : Surroundings Num) (t : ℕ) (a : ActionType) (p : Payload Num) (s : Store Num)
      → has_executed (propose_and_gate N digest w t a p s).0 ≡ false
      → (propose_and_gate N digest w t a p s).1.world ≡ s.world
  unfolding propose_and_gate gate serialized busy hold write_log
  propose_and_gate-world w t a p s h =
      let q : Result (Decision Num) × List (Decision Num) =
        propose_and_simulate N w.decision_id t a p w.simulate s.decisions in
      elim (Result-cases q.0) [
        | inr (x, raised) ↦ ground arith
        | inl (d, proposed) ↦
            ground (arith, under_lock-world w t a p d (record s { decisions = q.1 }))
      ]

  -- Unless `execute_tool_call` returns a result with `executed` true, the restaurant's tables,
  -- its event log included, are exactly what they were, whatever else the call did and however it
  -- ended: declined, held, busy, blocked, pending, or raised at any point.
  pub unexecuted_keeps_world :
      (w : Surroundings Num) (t : ℕ) (a : ActionType) (p : Payload Num) (s : Store Num)
      → has_executed (execute_tool_call N digest w t a p s).0 ≡ false
      → (execute_tool_call N digest w t a p s).1.world ≡ s.world
  unfolding execute_tool_call decline write_log
  unexecuted_keeps_world w t a p s h = ground (arith, propose_and_gate-world w t a p s)
