-- ===== src/Cycle/Review/Gated.antt =====
-- When `resolve_approval` (orchestrator.py) may change the restaurant's state.
use mathlib.Core.Path.{subst, sym}
use restaurant_ops_copilot.Prelude.{
  ℕ, ◌≡◌, String, Bool, true, false, Option, none, some, ok, arith, find, Result-cases,
  Option-cases, Bool-cases, ◌⊎◌, inl, inr,
}
use restaurant_ops_copilot.Values.{Numbers, Value}
use restaurant_ops_copilot.Policy.Numeric.{Reason}
use restaurant_ops_copilot.Policy.Critic.{critique}
use restaurant_ops_copilot.Policy.Critic.Bounds.{Permits, critique_iff}
use restaurant_ops_copilot.EventStore.Append.{Digest}
use restaurant_ops_copilot.Decisions.{Decision, is_decision}
use restaurant_ops_copilot.Approval.{ApprovalRequest, for_request, is_pending, get_request, resolve}
use restaurant_ops_copilot.Tools.{Store, Surroundings}
use restaurant_ops_copilot.Tools.Resolve.{current_value_for_critic}
use restaurant_ops_copilot.Cycle.Review.{
  StaleReason, stale_approval, judge_again, stale_approval_reason, resolve_and_execute,
  unless_stale, resolve_approval,
}

module _ (N : Numbers) (digest : Digest N.Num) where
  open N use {Num}

  -- The request is pending, and the critic permits its decision on the tables as they are.
  pub record Reviewed (t i : ℕ) (s : Store Num) : Type 0 where
    pub approval : ApprovalRequest (Reason Num)
    pub decision : Decision Num
    pub current : Value Num
    pub approval_is : find (for_request t i) s.approvals ≡ some approval
    pub waits : is_pending approval.status ≡ true
    pub decision_is : find (is_decision t approval.decision_id) s.decisions ≡ some decision
    pub current_is :
        current_value_for_critic N t decision.action_type decision.action_payload s.world
        ≡ ok current
    pub permitted : Permits N decision.action_type decision.action_payload current

  judge_again-none :
      (t : ℕ) (d : Decision Num) (s : Store Num)
      → judge_again N t d s ≡ ok none
      → (current : Value Num) × (current_value_for_critic N t d.action_type d.action_payload s.world
          ≡ ok current)
        × Permits N d.action_type d.action_payload current
  unfolding judge_again
  judge_again-none t d s h =
      elim (Result-cases (current_value_for_critic N t d.action_type d.action_payload s.world)) [
        | inr (e, lost) ↦ absurd (ground arith)
        | inl (cur, read) ↦ elim (Result-cases (critique N d.action_type d.action_payload cur)) [
          | inr (e, broken) ↦ absurd (ground arith)
          | inl (v, judged) ↦
              let yes_vote : v.approved ≡ true = ground arith in
              (
                cur,
                read,
                (critique_iff N d.action_type d.action_payload cur).0 (v, judged, yes_vote),
              )
        ]
      ]

  reject-approvals :
      (w : Surroundings Num) (t i : ℕ) (reviewer : String) (override : Option String)
      (s : Store Num)
      → let after = (resolve_and_execute N digest w t i false reviewer override s).1 in
        after ≡ record s { approvals = after.approvals }
  unfolding resolve_and_execute
  reject-approvals w t i reviewer override s =
      elim (Result-cases (resolve t i false reviewer override w.now s.approvals).0) [
        | inr (e, refused) ↦ ground arith
        | inl (u, done) ↦ ground arith
      ]

  -- `resolve_approval` leaves every table as it was, errors and stale answers included; or it rejects,
  -- and changes no table but that of the approval requests; or the reviewer approves a pending request
  -- whose decision the critic permits on the tables as they are at that moment.
  pub review_is_gated :
      (w : Surroundings Num) (t i : ℕ) (approved : Bool) (reviewer : String)
      (override : Option String) (s : Store Num)
      → let after = (resolve_approval N digest w t i approved reviewer override s).1 in
        (after ≡ s)
        ⊎ ((approved ≡ false) × (after ≡ record s { approvals = after.approvals }))
        ⊎ ((approved ≡ true) × Reviewed t i s)
  unfolding resolve_approval get_request unless_stale stale_approval_reason
  review_is_gated w t i approved reviewer override s =
      elim (Option-cases (find (for_request t i) s.approvals)) [
        | inl missing ↦ inl (ground arith)
        | inr (a, found) ↦ elim (Bool-cases (is_pending a.status)) [
          | inr resolved ↦ inl (ground arith)
          | inl waits ↦ elim (Bool-cases approved) [
            | inr no_vote ↦
                let same : resolve_approval N digest w t i approved reviewer override s
                    ≡ resolve_and_execute N digest w t i false reviewer override s =
                  ground arith in
                inr (
                  inl (
                    no_vote,
                    subst (λ z. z.1 ≡ record s { approvals = z.1.approvals }) (sym same)
                        (reject-approvals w t i reviewer override s),
                  ))
            | inl yes_vote ↦ elim (Option-cases (find (is_decision t a.decision_id) s.decisions)) [
              | inl lost ↦ inl (ground arith)
              | inr (d, known) ↦ elim (Result-cases (judge_again N t d s)) [
                | inr (e, broken) ↦ inl (ground arith)
                | inl (x, judged) ↦ elim (Option-cases x) [
                  | inr (r, stale) ↦ inl (ground arith)
                  | inl fresh ↦
                      let (cur, read, permits) = judge_again-none t d s (ground arith) in
                      inr (
                        inr (
                          yes_vote,
                          record {
                            approval = a;
                            decision = d;
                            current = cur;
                            approval_is = found;
                            waits = waits;
                            decision_is = known;
                            current_is = read;
                            permitted = permits;
                          },
                        ))
                ]
              ]
            ]
          ]
        ]
      ]

  resolve_and_execute-never_stale :
      (w : Surroundings Num) (t i : ℕ) (approved : Bool) (reviewer : String)
      (override : Option String) (s : Store Num) (reason : StaleReason Num)
      → (resolve_and_execute N digest w t i approved reviewer override s).0
        ≡ ok (stale_approval reason i)
      → ⊥
  unfolding resolve_and_execute
  resolve_and_execute-never_stale w t i approved reviewer override s reason h = ground arith

  -- A stale answer leaves every table as it was, the pending request included.
  pub stale_keeps_store :
      (w : Surroundings Num) (t i : ℕ) (approved : Bool) (reviewer : String)
      (override : Option String) (s : Store Num) (reason : StaleReason Num)
      → (resolve_approval N digest w t i approved reviewer override s).0
        ≡ ok (stale_approval reason i)
      → (resolve_approval N digest w t i approved reviewer override s).1 ≡ s
  unfolding resolve_approval get_request unless_stale
  stale_keeps_store w t i approved reviewer override s reason h =
      elim (Option-cases (find (for_request t i) s.approvals)) [
        | inl missing ↦ absurd (ground arith)
        | inr (a, found) ↦ elim (Bool-cases (is_pending a.status)) [
          | inr resolved ↦ absurd (ground arith)
          | inl waits ↦
              ground
                (arith, resolve_and_execute-never_stale w t i approved reviewer override s reason)
        ]
      ]
