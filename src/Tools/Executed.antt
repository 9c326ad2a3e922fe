-- ===== src/Tools/Executed.antt =====
-- What a result of `execute_tool_call` (Component_4/tool_framework.py) with `executed` true means.
use restaurant_ops_copilot.Prelude.{
  ℕ, ◌≡◌, refl, true, false, none, some, List, [], ◌∷◌, Result, ok, err, arith, Result-cases,
  Option-cases, Bool-cases, inl, inr,
}
use mathlib.Core.Path.{subst, subst₂, sym}
use restaurant_ops_copilot.Values.{
  Numbers, Value, num, Payload, entry, ActionType, price_change, menu_price_change,
}
use restaurant_ops_copilot.Policy.Numeric.{Reason}
use restaurant_ops_copilot.Policy.Critic.{CriticVerdict, critique}
use restaurant_ops_copilot.Policy.Critic.Bounds.{Permits, critique_iff}
use restaurant_ops_copilot.Policy.Risk.{RiskClassification, classify_risk}
use restaurant_ops_copilot.Policy.Risk.Autonomy.{Confident, SmallChange, autonomous_iff}
use restaurant_ops_copilot.EventStore.Tables.{Tables, Event}
use restaurant_ops_copilot.EventStore.Append.{Digest, append_event}
use restaurant_ops_copilot.Decisions.{
  PredictedOutcome, Decision, clears, new_decision, propose_and_simulate, execute_and_observe,
}
use restaurant_ops_copilot.Tools.{Store, Surroundings, on_decisions, write_log}
use restaurant_ops_copilot.Tools.Resolve.{current_value_for_critic}
use restaurant_ops_copilot.Tools.Apply.{state_change_event}
use restaurant_ops_copilot.Tools.Calls.{
  apply_state_change, execute_now, ask_human, block, under_lock, busy, serialized, hold, decline,
  is_menu_add, gate, propose_and_gate, execute_tool_call,
}
use restaurant_ops_copilot.Tools.Gates.{has_executed}

module _ (N : Numbers) (digest : Digest N.Num) where
  open N use {Num, column}

  -- The event of a price change is appended to `before`, which gives `after`.
  pub record Written (w : Surroundings Num) (t : ℕ) (p : Payload Num) (before after : Tables Num)
      : Type 0 where
    pub item : Value Num
    pub price : Value Num
    pub event : Event Num
    pub item_is : entry "menu_item_id" p ≡ some item
    pub price_is : entry "new_price" p ≡ some price
    pub appended :
        append_event N digest w.event_id w.now t menu_price_change
          (("menu_item_id", item) ∷ ("new_price", price) ∷ [])
          "agent_action"
          before
        ≡ (ok event, after)

  -- Every gate on the way to an execution.
  pub record Cleared (w : Surroundings Num) (t : ℕ) (a : ActionType) (p : Payload Num)
      (s : Store Num) (after : Tables Num) : Type 0 where
    pub prediction : PredictedOutcome Num
    pub current : Value Num
    pub simulated_as : w.simulate ≡ ok prediction
    pub confident_enough : clears N prediction ≡ true
    pub lock_granted : w.lock ≡ none
    pub current_is : current_value_for_critic N t a p s.world ≡ ok current
    pub permitted : Permits N a p current
    pub is_price_change : a ≡ price_change
    pub sure : Confident N (num (column prediction.confidence))
    pub small : SmallChange N p current
    pub written : Written w t p s.world after

  apply-Written :
      (w : Surroundings Num) (t : ℕ) (p : Payload Num) (s : Store Num) (e : Event Num)
      → (apply_state_change N digest w t price_change p s).0 ≡ ok e
      → Written w t p s.world (apply_state_change N digest w t price_change p s).1.world
  unfolding apply_state_change state_change_event
  apply-Written w t p s e h = elim (Option-cases (entry "menu_item_id" p)) [
    | inl missing ↦ absurd (ground arith)
    | inr (i, item_is) ↦ elim (Option-cases (entry "new_price" p)) [
      | inl missing ↦ absurd (ground arith)
      | inr (x, price_is) ↦
          rw (item_is, price_is)
            (record {
              item = i;
              price = x;
              event = e;
              item_is = item_is;
              price_is = price_is;
              appended = ground arith;
            })
    ]
  ]

  execute_now-applied :
      (w : Surroundings Num) (t : ℕ) (a : ActionType) (p : Payload Num) (d : Decision Num)
      (r : Reason Num) (s : Store Num)
      → has_executed (execute_now N digest w t a p d r s).0 ≡ true
      → let s1 = (on_decisions (execute_and_observe N t d.id w.observe) s).1 in
        (e : Event Num) × ((apply_state_change N digest w t a p s1).0 ≡ ok e)
        × ((execute_now N digest w t a p d r s).1.world
            ≡ (apply_state_change N digest w t a p s1).1.world)
  unfolding execute_now write_log
  execute_now-applied w t a p d r s h =
      let s1 : Store Num = (on_decisions (execute_and_observe N t d.id w.observe) s).1 in
      elim (Result-cases (apply_state_change N digest w t a p s1).0) [
        | inl (e, applied) ↦ (e, applied, ground arith)
        | inr (x, failed) ↦ absurd (ground arith)
      ]

  execute_now-Written :
      (w : Surroundings Num) (t : ℕ) (p : Payload Num) (d : Decision Num) (r : Reason Num)
      (s : Store Num)
      → has_executed (execute_now N digest w t price_change p d r s).0 ≡ true
      → Written w t p s.world (execute_now N digest w t price_change p d r s).1.world
  execute_now-Written w t p d r s h =
      let s1 : Store Num = (on_decisions (execute_and_observe N t d.id w.observe) s).1 in
      let (e, applied, same) = execute_now-applied w t price_change p d r s h in
      subst (Written w t p s.world) (sym same) (apply-Written w t p s1 e applied)

  ask_human-executed :
      (w : Surroundings Num) (t : ℕ) (a : ActionType) (p : Payload Num) (d : Decision Num)
      (r : RiskClassification Num) (s : Store Num)
      → has_executed (ask_human N digest w t a p d r s).0 ≡ false
  unfolding ask_human write_log
  ask_human-executed w t a p d r s = ground arith

  -- the block under the lock, for the decision `d`
  record Judged (w : Surroundings Num) (t : ℕ) (a : ActionType) (p : Payload Num) (d : Decision Num)
      (s : Store Num) (after : Tables Num) : Type 0 where
    current : Value Num
    verdict : CriticVerdict Num
    current_is : current_value_for_critic N t a p s.world ≡ ok current
    verdict_is : critique N a p current ≡ ok verdict
    approved : verdict.approved ≡ true
    autonomous : (classify_risk N a p (num d.confidence) current).requires_approval ≡ false
    executes : has_executed (execute_now N digest w t a p d verdict.reason s).0 ≡ true
    leaves : after ≡ (execute_now N digest w t a p d verdict.reason s).1.world

  under_lock-Judged :
      (w : Surroundings Num) (t : ℕ) (a : ActionType) (p : Payload Num) (d : Decision Num)
      (s : Store Num)
      → has_executed (under_lock N digest w t a p d s).0 ≡ true
      → Judged w t a p d s (under_lock N digest w t a p d s).1.world
  unfolding under_lock block write_log
  under_lock-Judged w t a p d s h = elim (Result-cases (current_value_for_critic N t a p s.world)) [
    | inr (x, lost) ↦ absurd (ground arith)
    | inl (cur, read) ↦ elim (Result-cases (critique N a p cur)) [
      | inr (x, raised) ↦ absurd (ground arith)
      | inl (v, judged) ↦ record {
        current = cur;
        verdict = v;
        current_is = read;
        verdict_is = judged;
        approved = ground arith;
        autonomous =
            ground
              (arith, ask_human-executed w t a p d (classify_risk N a p (num d.confidence) cur) s);
        executes =
            ground
              (arith, ask_human-executed w t a p d (classify_risk N a p (num d.confidence) cur) s);
        leaves =
            ground
              (arith, ask_human-executed w t a p d (classify_risk N a p (num d.confidence) cur) s);
      }
    ]
  ]

  Judged-Cleared :
      (w : Surroundings Num) (t : ℕ) (a : ActionType) (p : Payload Num) (q : PredictedOutcome Num)
      (s s1 : Store Num) (after : Tables Num)
      → w.simulate ≡ ok q
      → clears N q ≡ true
      → w.lock ≡ none
      → s1.world ≡ s.world
      → Judged w t a p (new_decision N w.decision_id t a p q) s1 after
      → Cleared w t a p s after
  Judged-Cleared w t a p q s s1 after simulated sure granted same j =
      let (is_price, level, small) =
        (autonomous_iff N a p (num (column q.confidence)) j.current).0 j.autonomous in
      let from_execution =
        subst
          (λ b.
            has_executed
                (execute_now N digest w t b p (new_decision N w.decision_id t a p q)
                  j.verdict.reason s1).0
              ≡ true
            → Written w t p s1.world
                (execute_now N digest w t b p (new_decision N w.decision_id t a p q)
                  j.verdict.reason s1).1.world)
          (sym is_price)
          (execute_now-Written w t p (new_decision N w.decision_id t a p q) j.verdict.reason s1) in
      record {
        prediction = q;
        current = j.current;
        simulated_as = simulated;
        confident_enough = sure;
        lock_granted = granted;
        current_is = ground (arith, j.current_is);
        permitted = (critique_iff N a p j.current).0 (j.verdict, j.verdict_is, j.approved);
        is_price_change = is_price;
        sure = level;
        small = small;
        written = subst₂ (Written w t p) same (sym j.leaves) (from_execution j.executes);
      }

  propose-new_decision :
      (id t : ℕ) (a : ActionType) (p : Payload Num) (r : Result (PredictedOutcome Num))
      (ds : List (Decision Num)) (d : Decision Num)
      → (propose_and_simulate N id t a p r ds).0 ≡ ok d
      → (q : PredictedOutcome Num) × (r ≡ ok q) × (d ≡ new_decision N id t a p q)
  unfolding propose_and_simulate
  propose-new_decision id t a p (ok q) ds d h = (q, refl, ground arith)
  propose-new_decision id t a p (err e) ds d h = absurd (ground arith)

  gate-Judged :
      (w : Surroundings Num) (t : ℕ) (a : ActionType) (p : Payload Num) (d : Decision Num)
      (s : Store Num)
      → has_executed (gate N digest w t a p d s).0 ≡ true
      → (d.confidence_threshold_cleared ≡ true)
        × (w.lock ≡ none)
        × (has_executed (under_lock N digest w t a p d s).0 ≡ true)
        × ((under_lock N digest w t a p d s).1 ≡ (gate N digest w t a p d s).1)
  unfolding gate serialized busy hold write_log
  gate-Judged w t a p d s h = (ground arith, ground arith, ground arith, ground arith)

  propose_and_gate-Cleared :
      (w : Surroundings Num) (t : ℕ) (a : ActionType) (p : Payload Num) (s : Store Num)
      → has_executed (propose_and_gate N digest w t a p s).0 ≡ true
      → Cleared w t a p s (propose_and_gate N digest w t a p s).1.world
  unfolding propose_and_gate
  propose_and_gate-Cleared w t a p s h =
      let made : Result (Decision Num) × List (Decision Num) =
        propose_and_simulate N w.decision_id t a p w.simulate s.decisions in
      elim (Result-cases made.0) [
        | inr (x, raised) ↦ absurd (ground arith)
        | inl (d, proposed) ↦
            let s1 : Store Num = record s { decisions = made.1 } in
            let (q, simulated, same) =
              propose-new_decision w.decision_id t a p w.simulate s.decisions d proposed in
            let (sure, granted, runs, leaves) = gate-Judged w t a p d s1 (ground arith) in
            let ends : (under_lock N digest w t a p d s1).1.world
                ≡ (propose_and_gate N digest w t a p s).1.world =
              ground arith in
            Judged-Cleared w t a p q s s1 (propose_and_gate N digest w t a p s).1.world simulated
              (ground arith) granted refl
              (subst₂ (λ e x. Judged w t a p e s1 x) same ends
                (under_lock-Judged w t a p d s1 runs))
      ]

  -- A call of `execute_tool_call` that returns `executed` true went through every gate: the
  -- simulator's confidence cleared the threshold, the lock was granted, the critic's bounds permit
  -- the action on the tenant's current value, the action is a price change that the classifier
  -- lets run alone (confidence at least 80%, change at most 10%), and what it did to the
  -- restaurant's tables is exactly to append that price change as one event.
  pub executed_through_gates :
      (w : Surroundings Num) (t : ℕ) (a : ActionType) (p : Payload Num) (s : Store Num)
      → has_executed (execute_tool_call N digest w t a p s).0 ≡ true
      → Cleared w t a p s (execute_tool_call N digest w t a p s).1.world
  unfolding execute_tool_call decline write_log
  executed_through_gates w t a p s h = elim (Bool-cases (is_menu_add N digest a p)) [
    | inl added ↦ absurd (ground arith)
    | inr proposes ↦
        let same : propose_and_gate N digest w t a p s ≡ execute_tool_call N digest w t a p s =
          ground arith in
        subst (λ x. Cleared w t a p s x.1.world) same
          (propose_and_gate-Cleared w t a p s (ground arith))
  ]
