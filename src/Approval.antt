-- ===== src/Approval.antt =====
-- Component_6/approval_workflow.py over its table (Component_6/approval_models.py). A call takes
-- what `uuid4` and the clock give; tenant ids are canonical UUIDs, so `validate_tenant_id` passes.
pub mod Resolution
use restaurant_ops_copilot.Prelude.{
  ℕ, String, Bool, true, false, Option, none, some, List, [], ◌∷◌, ◌++◌, Exec, raise, raise_if,
  gets, lift, modify, pure, or_raise, transaction, ◌>>=◌, ◌>>◌, key_error, value_error, integrity,
  unavailable, find, update, ◌==◌, ◌&&◌, not, if◌then◌else◌,
}
use restaurant_ops_copilot.Text.{is_blank}

pub data ApprovalStatus : Type 0 where
  pending approved rejected : ApprovalStatus

-- `ApprovalRequestRecord`; `R` is the type of reasons
pub record ApprovalRequest (R : Type 0) : Type 0 where
  pub id : ℕ
  pub tenant_id : ℕ
  pub decision_id : ℕ
  pub reason : R
  pub status : ApprovalStatus
  pub reviewer_id : Option String
  pub override_reason : Option String
  pub resolved_at : Option ℕ

abbrev pub is_pending : ApprovalStatus → Bool
is_pending pending = true
is_pending _ = false

module _ {R : Type 0} where
  abbrev pub for_decision : ℕ → ℕ → ApprovalRequest R → Bool
  for_decision t d r = r.tenant_id == t && r.decision_id == d

  abbrev pub for_request : ℕ → ℕ → ApprovalRequest R → Bool
  for_request t i r = r.tenant_id == t && r.id == i

  abbrev pub new_request : ℕ → ℕ → ℕ → R → ApprovalRequest R
  new_request id t d reason = record {
    id = id;
    tenant_id = t;
    decision_id = d;
    reason = reason;
    status = pending;
    reviewer_id = none;
    override_reason = none;
    resolved_at = none;
  }

  -- `INSERT ... ON CONFLICT (tenant_id, decision_id) DO NOTHING`; a taken primary key is an error
  insert_request : ℕ → ℕ → ℕ → R → Exec (List (ApprovalRequest R)) (Unit {0})
  insert_request id t d reason = do
    existing ← gets (find (for_decision t d))
    taken ← gets (find (λ r. r.id == id))
    elim existing [
      | some r ↦ pure tt
      | none ↦ elim taken [
        | some r ↦ raise integrity
        | none ↦ modify (λ rows. rows ++ new_request id t d reason ∷ [])
      ]
    ]

  -- `ApprovalWorkflow.request`
  unfoldable pub request : ℕ → ℕ → ℕ → R → Exec (List (ApprovalRequest R)) (ApprovalRequest R)
  unfolding insert_request
  request id t d reason = transaction (do
    insert_request id t d reason
    row ← gets (find (for_decision t d))
    lift (or_raise row unavailable))

  -- `ApprovalWorkflow.get`
  unfoldable pub get_request : ℕ → ℕ → Exec (List (ApprovalRequest R)) (ApprovalRequest R)
  get_request t i =
      transaction (do row ← gets (find (for_request t i)); lift (or_raise row key_error))

  abbrev pub resolution : Bool → String → Option String → ℕ → ApprovalRequest R → ApprovalRequest R
  resolution yes_vote reviewer override now r = record r {
    status = if yes_vote then approved else rejected;
    reviewer_id = some reviewer;
    override_reason = override;
    resolved_at = some now;
  }

  abbrev pub open_request : ℕ → ℕ → ApprovalRequest R → Bool
  open_request t i r = for_request t i r && is_pending r.status

  -- the compare-and-set: was a pending row updated, and the row as it is afterwards
  unfoldable pub compare_and_set :
      ℕ
      → ℕ
      → Bool
      → String
      → Option String
      → ℕ
      → Exec (List (ApprovalRequest R)) (Bool × Option (ApprovalRequest R))
  compare_and_set t i yes_vote reviewer override now = do
    won ← gets (find (open_request t i))
    modify (update (open_request t i) (resolution yes_vote reviewer override now))
    row ← gets (find (for_request t i))
    pure (elim won [ none ↦ false | some r ↦ true ], row)

  -- `ApprovalWorkflow.resolve`: both raises come after the commit
  unfoldable pub resolve :
      ℕ
      → ℕ
      → Bool
      → String
      → Option String
      → ℕ
      → Exec (List (ApprovalRequest R)) (ApprovalRequest R)
  unfolding compare_and_set
  resolve t i yes_vote reviewer override now = do
    raise_if (is_blank reviewer) value_error
    outcome ← transaction (compare_and_set t i yes_vote reviewer override now)
    row ← lift (or_raise outcome.1 key_error)
    raise_if (not outcome.0) value_error
    pure row
