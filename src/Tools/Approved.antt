-- ===== src/Tools/Approved.antt =====
-- `execute_approved_tool_call` of Component_4/tool_framework.py, called once and again.
use mathlib.Core.Path.{subst, sym, ap, ◌∙◌}
use restaurant_ops_copilot.Prelude.{
  ℕ, ◌≡◌, refl, true, false, none, some, List, ok, err, Error, arith, Result-cases, Option-cases,
  inl, inr, decision_state, find, find_passes,
}
use restaurant_ops_copilot.Values.{Numbers, Payload, ActionType}
use restaurant_ops_copilot.Policy.Numeric.{Reason}
use restaurant_ops_copilot.EventStore.Append.{Digest}
use restaurant_ops_copilot.Decisions.{
  Decision, is_decision, is_simulated, mark_evaluated, calibration_error, execute_and_observe,
}
use restaurant_ops_copilot.Decisions.Execution.{
  may_execute, execution_evaluates, execution_refused, execution_inverts,
}
use restaurant_ops_copilot.Approval.{ApprovalRequest, for_request, get_request}
use restaurant_ops_copilot.ToolResult.{ToolResult, ActualOutcome, is_executed}
use restaurant_ops_copilot.Tools.{Store, Surroundings, on_decisions, write_log}
use restaurant_ops_copilot.Tools.Calls.{
  is_approved, apply_state_change, execute_decision, execute_approved_tool_call,
}
use restaurant_ops_copilot.Tools.Gates.{apply-world}

module _ (N : Numbers) (digest : Digest N.Num) where
  open N use {Num}

  -- The request `i` is approved, and `d` is its decision.
  pub record Granted (t i : ℕ) (d : Decision Num) (s : Store Num) : Type 0 where
    pub approval : ApprovalRequest (Reason Num)
    pub approval_is : find (for_request t i) s.approvals ≡ some approval
    pub is_granted : is_approved approval.status ≡ true
    pub decision_is : find (is_decision t approval.decision_id) s.decisions ≡ some d

  Granted-id :
      (t i : ℕ) (d : Decision Num) (s : Store Num) (g : Granted t i d s)
      → g.approval.decision_id ≡ d.id
  Granted-id t i d s g =
      ground (arith, find_passes (is_decision t g.approval.decision_id) s.decisions d g.decision_is)

  Granted-found :
      (t i : ℕ) (d : Decision Num) (s : Store Num)
      → Granted t i d s
      → find (is_decision t d.id) s.decisions ≡ some d
  Granted-found t i d s g =
      subst (λ j. find (is_decision t j) s.decisions ≡ some d) (Granted-id t i d s g) g.decision_is

  -- the store after the claim and the evaluation
  abbrev evaluated_store : Surroundings Num → ℕ → Decision Num → Store Num → Store Num
  evaluated_store w t d s = (on_decisions (execute_and_observe N t d.id w.observe) s).1

  -- An approved call with the lock executes the decision.
  Granted-executes :
      (w : Surroundings Num) (t i : ℕ) (d : Decision Num) (s : Store Num)
      → Granted t i d s
      → w.lock ≡ none
      → execute_approved_tool_call N digest w t i s ≡ execute_decision N digest w t d s
  unfolding execute_approved_tool_call get_request
  Granted-executes w t i d s g granted = ground (arith, g.approval_is, g.is_granted, g.decision_is)

  decision-err :
      (w : Surroundings Num) (t : ℕ) (d : Decision Num) (s : Store Num) (e : Error)
      → (execute_and_observe N t d.id w.observe s.decisions).0 ≡ err e
      → execute_decision N digest w t d s ≡ (err e, evaluated_store w t d s)
  unfolding execute_decision
  decision-err w t d s e h = ground arith

  apply-err :
      (w : Surroundings Num) (t : ℕ) (d done : Decision Num) (s : Store Num) (e : Error)
      → (execute_and_observe N t d.id w.observe s.decisions).0 ≡ ok done
      → (apply_state_change N digest w t d.action_type d.action_payload (evaluated_store w t d s)).0
        ≡ err e
      → execute_decision N digest w t d s ≡ (
        err e,
        (apply_state_change N digest w t d.action_type d.action_payload
            (evaluated_store w t d s)).1,
      )
  unfolding execute_decision
  apply-err w t d done s e h k = ground arith

  -- applying a state change writes only the tables of the restaurant
  apply-frame :
      (w : Surroundings Num) (t : ℕ) (a : ActionType) (p : Payload Num) (s : Store Num)
      → let after = (apply_state_change N digest w t a p s).1 in
        (after.decisions ≡ s.decisions) × (after.approvals ≡ s.approvals) × (after.log ≡ s.log)
  unfolding apply_state_change
  apply-frame w t a p s = (ground arith, ground arith, ground arith)

  apply-decisions :
      (w : Surroundings Num) (t : ℕ) (a : ActionType) (p : Payload Num) (s : Store Num)
      (ds : List (Decision Num))
      → (apply_state_change N digest w t a p (record s { decisions = ds })).0
        ≡ (apply_state_change N digest w t a p s).0
  unfolding apply_state_change
  apply-decisions w t a p s ds = ground arith

  spent-may_execute :
      (d : Decision Num) → is_simulated d.status ≡ false → may_execute N d ≡ err decision_state
  unfolding may_execute
  spent-may_execute d spent = ground arith

  -- A request whose decision is no longer simulated cannot be executed.
  spent-refused :
      (w : Surroundings Num) (t i : ℕ) (d : Decision Num) (s : Store Num)
      → Granted t i d s
      → w.lock ≡ none
      → is_simulated d.status ≡ false
      → execute_approved_tool_call N digest w t i s ≡ (err decision_state, s)
  spent-refused w t i d s g granted spent =
      let refused : execute_and_observe N t d.id w.observe s.decisions
          ≡ (err decision_state, s.decisions) =
        execution_refused N t d.id w.observe s.decisions decision_state
          (rw (Granted-found t i d s g) (spent-may_execute d spent)) in
      Granted-executes w t i d s g granted
      ∙ decision-err w t d s decision_state (rw refused refl)
      ∙ rw refused refl

  -- If the state change of an approved decision raises after the decision was evaluated, the caller
  -- sees the error, the restaurant's tables and the action log are as before, and yet the decision is
  -- stored as evaluated: every retry of the request, under any later conditions, raises
  -- `DecisionStateError` and changes nothing. The approved action can no longer be carried out.
  pub failed_apply_strands :
      (w w' : Surroundings Num) (t i : ℕ) (d : Decision Num) (s : Store Num) (a : ActualOutcome Num)
      (x : Num) (e : Error)
      → Granted t i d s
      → w.lock ≡ none
      → w'.lock ≡ none
      → may_execute N d ≡ ok tt
      → w.observe d ≡ ok a
      → calibration_error N d.predicted_outcome a ≡ ok x
      → (apply_state_change N digest w t d.action_type d.action_payload s).0 ≡ err e
      → let after = execute_approved_tool_call N digest w t i s in
        (after.0 ≡ err e)
        × (after.1.world ≡ s.world)
        × (after.1.log ≡ s.log)
        × (find (is_decision t d.id) after.1.decisions ≡ some (mark_evaluated a x d))
        × (execute_approved_tool_call N digest w' t i after.1 ≡ (err decision_state, after.1))
  failed_apply_strands w w' t i d s a x e g granted granted' may seen scored failed =
      let (done, stored) =
        execution_evaluates N t d.id w.observe s.decisions d a x (Granted-found t i d s g) may seen
          scored in
      let s1 = evaluated_store w t d s in
      let failing : (apply_state_change N digest w t d.action_type d.action_payload s1).0 ≡ err e =
        apply-decisions w t d.action_type d.action_payload s s1.decisions ∙ failed in
      let s2 : Store Num = (apply_state_change N digest w t d.action_type d.action_payload s1).1 in
      let (same_decisions, same_approvals, same_log) =
        apply-frame w t d.action_type d.action_payload s1 in
      let ends : execute_approved_tool_call N digest w t i s ≡ (err e, s2) =
        Granted-executes w t i d s g granted
        ∙ apply-err w t d (mark_evaluated a x d) s e done failing in
      let found : find (is_decision t d.id) s2.decisions ≡ some (mark_evaluated a x d) =
        rw same_decisions stored in
      let regranted : Granted t i (mark_evaluated a x d) s2 = record {
        approval = g.approval;
        approval_is = rw same_approvals g.approval_is;
        is_granted = g.is_granted;
        decision_is =
            subst (λ j. find (is_decision t j) s2.decisions ≡ some (mark_evaluated a x d))
              (sym (Granted-id t i d s g)) found;
      } in
      rw ends (
        refl,
        apply-world N digest w t d.action_type d.action_payload s1 e failing,
        same_log,
        found,
        spent-refused w' t i (mark_evaluated a x d) s2 regranted granted' refl,
      )

  approved-Granted :
      (w : Surroundings Num) (t i : ℕ) (s : Store Num) (r : ToolResult Num)
      → (execute_approved_tool_call N digest w t i s).0 ≡ ok r
      → (d : Decision Num) × Granted t i d s × (w.lock ≡ none)
  unfolding execute_approved_tool_call get_request
  approved-Granted w t i s r h = elim (Option-cases (find (for_request t i) s.approvals)) [
    | inl missing ↦ absurd (ground arith)
    | inr (q, approval_is) ↦ elim (Option-cases (find (is_decision t q.decision_id) s.decisions)) [
      | inl missing ↦ absurd (ground arith)
      | inr (d, decision_is) ↦ (
        d,
        record {
          approval = q;
          approval_is = approval_is;
          is_granted = ground arith;
          decision_is = decision_is;
        },
        ground arith,
      )
    ]
  ]

  decision-ok :
      (w : Surroundings Num) (t : ℕ) (d : Decision Num) (s : Store Num) (r : ToolResult Num)
      → (execute_decision N digest w t d s).0 ≡ ok r
      → let after = (execute_decision N digest w t d s).1 in
        (done : Decision Num) × ((execute_and_observe N t d.id w.observe s.decisions).0 ≡ ok done)
        × (after.decisions ≡ (evaluated_store w t d s).decisions)
        × (after.approvals ≡ s.approvals)
        × (is_executed r ≡ true)
  unfolding execute_decision write_log
  decision-ok w t d s r h =
      elim (Result-cases (execute_and_observe N t d.id w.observe s.decisions).0) [
        | inr (e, raised) ↦ absurd (ground arith)
        | inl (done, ran) ↦
            let s1 = evaluated_store w t d s in
            let (same_decisions, same_approvals, same_log) =
              apply-frame w t d.action_type d.action_payload s1 in
            elim (Result-cases
              (apply_state_change N digest w t d.action_type d.action_payload s1).0) [
                | inr (e, failed) ↦ absurd (ground arith)
                | inl (e, applied) ↦ (done, ran, ground arith, ground arith, ground arith)
              ]
      ]

  -- A call of `execute_approved_tool_call` that returns has `executed` true, belongs to an approved
  -- request of this tenant whose decision was cleared and still simulated, and is the only one: once
  -- it has returned, every further call for the request that gets the lock raises
  -- `DecisionStateError` and changes nothing.
  pub approved_executes_once :
      (w w' : Surroundings Num) (t i : ℕ) (s : Store Num) (r : ToolResult Num)
      → (execute_approved_tool_call N digest w t i s).0 ≡ ok r
      → w'.lock ≡ none
      → let after = (execute_approved_tool_call N digest w t i s).1 in
        (is_executed r ≡ true)
        × ((d : Decision Num) × Granted t i d s × (may_execute N d ≡ ok tt))
        × (execute_approved_tool_call N digest w' t i after ≡ (err decision_state, after))
  approved_executes_once w w' t i s r h granted' =
      let (d, g, granted) = approved-Granted w t i s r h in
      let runs = Granted-executes w t i d s g granted in
      let (done, ran, same_decisions, same_approvals, is_done) =
        decision-ok w t d s r (sym (ap (λ x. x.0) runs) ∙ h) in
      let x =
        execution_inverts N t d.id w.observe s.decisions d done (Granted-found t i d s g) ran in
      let (ends, stored) =
        execution_evaluates N t d.id w.observe s.decisions d x.actual x.error
          (Granted-found t i d s g) x.allowed x.observed x.scored in
      let s2 : Store Num = (execute_decision N digest w t d s).1 in
      let d2 : Decision Num = mark_evaluated x.actual x.error d in
      let regranted : Granted t i d2 s2 = record {
        approval = g.approval;
        approval_is = rw same_approvals g.approval_is;
        is_granted = g.is_granted;
        decision_is = rw same_decisions (
            subst (λ j. find (is_decision t j) (evaluated_store w t d s).decisions ≡ some d2)
              (sym (Granted-id t i d s g)) stored);
      } in
      (is_done, (d, g, x.allowed), rw runs (spent-refused w' t i d2 s2 regranted granted' refl))
