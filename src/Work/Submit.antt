-- ===== src/Work/Submit.antt =====
-- api/main.py: the endpoints on work requests. The caller is authenticated and its body is parsed.
use restaurant_ops_copilot.Prelude.{
  ℕ, String, Bool, true, false, Option, none, some, [], ◌∷◌, ◌++◌, ok, err, Error, Exec, pure, lift,
  gets, modify, or_raise, raise_if, find, ◌>>=◌, ◌>>◌, value_error, key_error, integrity, ◌==◌,
}
use restaurant_ops_copilot.Values.{Payload}
use restaurant_ops_copilot.Work.{
  WorkStatus, pending, no_error, WorkRequest, Office, parse_action_type, has_request, has_work_key,
}

-- `ActionAcceptedResponse`: the request's id and its status
abbrev pub Accepted : Type 0
Accepted = ℕ × WorkStatus

-- `action_type not in _VALID_ACTION_TYPES`
unfoldable pub unknown_action_type : String → Bool
unknown_action_type s = elim (parse_action_type s) [ none ↦ true | some a ↦ false ]

module _ {Num : Type 0} where
  abbrev pub new_work_request : ℕ → ℕ → String → String → Payload Num → WorkRequest Num
  new_work_request id t key action p = record {
    id = id;
    tenant_id = t;
    idempotency_key = key;
    action_type = action;
    payload = p;
    status = pending;
    result = none;
    error = no_error;
    completed_at = none;
  }

  abbrev pub is_taken : ℕ → Office Num → Bool
  is_taken id o = elim (find (λ r. r.id == id) o.requests) [ none ↦ false | some r ↦ true ]

  -- the commit of a new row, and then its message; `publish` is how SQS answers
  unfoldable pub accept_new :
      ℕ → Option Error → ℕ → String → String → Payload Num → Exec (Office Num) Accepted
  accept_new id publish t key action p = do
    taken ← gets (is_taken id)
    raise_if taken integrity
    modify (λ o. record o { requests = o.requests ++ new_work_request id t key action p ∷ [] })
    lift (elim publish [ none ↦ ok tt | some e ↦ err e ])
    modify (λ o. record o { queue = o.queue ++ (t, id) ∷ [] })
    pure (id, pending)

  -- `submit_action`; a 422 answer is `value_error`
  unfoldable pub submit_action :
      ℕ → Option Error → ℕ → String → String → Payload Num → Exec (Office Num) Accepted
  submit_action id publish t key action p = do
    raise_if (unknown_action_type action) value_error
    existing ← gets (λ o. find (has_work_key t key) o.requests)
    elim existing [ some r ↦ pure (r.id, r.status) | none ↦ accept_new id publish t key action p ]

  -- `get_action_status`; a 404 answer is `key_error`
  unfoldable pub get_action_status : ℕ → ℕ → Exec (Office Num) (WorkRequest Num)
  get_action_status t i = do
    row ← gets (λ o. find (has_request t i) o.requests)
    lift (or_raise row key_error)
