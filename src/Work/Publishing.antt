-- ===== src/Work/Publishing.antt =====
-- What `submit_action` of api/main.py leaves when the queue does not take the message.
use mathlib.Core.Path.{◌∙◌}
use restaurant_ops_copilot.Prelude.{
  ℕ, ◌≡◌, refl, String, false, Option, none, some, List, [], ◌∷◌, ◌++◌, ok, err, Error, arith, find,
  find-append_none, eq_iff,
}
use restaurant_ops_copilot.Values.{Payload}
use restaurant_ops_copilot.Work.{pending, WorkRequest, Office, has_work_key}
use restaurant_ops_copilot.Work.Submit.{
  unknown_action_type, new_work_request, is_taken, accept_new, submit_action,
}

module _ {Num : Type 0} where
  submit-unpublished :
      (id t : ℕ) (e : Error) (key action : String) (p : Payload Num) (o : Office Num)
      → unknown_action_type action ≡ false
      → find (has_work_key t key) o.requests ≡ none
      → is_taken id o ≡ false
      → submit_action id (some e) t key action p o
        ≡ (err e, record o { requests = o.requests ++ new_work_request id t key action p ∷ [] })
  unfolding submit_action accept_new
  submit-unpublished id t e key action p o valid fresh free = ground arith

  -- A known key is answered with its row, and nothing is written or published.
  submit-existing :
      (id t : ℕ) (publish : Option Error) (key action : String) (p : Payload Num) (o : Office Num)
      (r : WorkRequest Num)
      → unknown_action_type action ≡ false
      → find (has_work_key t key) o.requests ≡ some r
      → submit_action id publish t key action p o ≡ (ok (r.id, r.status), o)
  unfolding submit_action
  submit-existing id t publish key action p o r valid h = ground arith

  new_request-found :
      (id t : ℕ) (key action : String) (p : Payload Num) (rows : List (WorkRequest Num))
      → find (has_work_key t key) rows ≡ none
      → find (has_work_key t key) (rows ++ new_work_request id t key action p ∷ [])
        ≡ some (new_work_request id t key action p)
  new_request-found id t key action p rows h =
      find-append_none (has_work_key t key) rows (new_work_request id t key action p ∷ []) h
      ∙ ground (arith, eq_iff key key)

  -- If publishing the message of a new request fails, the caller sees that error, yet the row has
  -- been committed as pending; every resubmission of the key, also with a queue that works, is
  -- answered with the pending request and publishes nothing. So no message of the request is sent.
  pub unpublished_never_queued :
      (id id' t : ℕ) (e : Error) (publish' : Option Error) (key action action' : String)
      (p p' : Payload Num) (o : Office Num)
      → unknown_action_type action ≡ false
      → unknown_action_type action' ≡ false
      → find (has_work_key t key) o.requests ≡ none
      → is_taken id o ≡ false
      → let after = (submit_action id (some e) t key action p o).1 in
        ((submit_action id (some e) t key action p o).0 ≡ err e)
        × (find (has_work_key t key) after.requests ≡ some (new_work_request id t key action p))
        × (after.queue ≡ o.queue)
        × (submit_action id' publish' t key action' p' after ≡ (ok (id, pending), after))
  unpublished_never_queued id id' t e publish' key action action' p p' o valid valid' fresh free =
      let found = new_request-found id t key action p o.requests fresh in
      rw (submit-unpublished id t e key action p o valid fresh free)
        (refl, found, refl, submit-existing id' t publish' key action' p' _ _ valid' found)

  submit-accepted :
      (id t : ℕ) (key action : String) (p : Payload Num) (o : Office Num)
      → unknown_action_type action ≡ false
      → find (has_work_key t key) o.requests ≡ none
      → is_taken id o ≡ false
      → submit_action id none t key action p o ≡ (
        ok (id, pending),
        record o {
          requests = o.requests ++ new_work_request id t key action p ∷ [];
          queue = o.queue ++ (t, id) ∷ [];
        },
      )
  unfolding submit_action accept_new
  submit-accepted id t key action p o valid fresh free = ground arith

  -- A new request whose message is published is accepted as pending with one row and one message,
  -- and every resubmission of its key, with whatever valid body, answers with that request and adds
  -- neither a row nor a message.
  pub resubmission_adds_nothing :
      (id id' t : ℕ) (publish' : Option Error) (key action action' : String) (p p' : Payload Num)
      (o : Office Num)
      → unknown_action_type action ≡ false
      → unknown_action_type action' ≡ false
      → find (has_work_key t key) o.requests ≡ none
      → is_taken id o ≡ false
      → let after = (submit_action id none t key action p o).1 in
        ((submit_action id none t key action p o).0 ≡ ok (id, pending))
        × (after.requests ≡ o.requests ++ new_work_request id t key action p ∷ [])
        × (after.queue ≡ o.queue ++ (t, id) ∷ [])
        × (submit_action id' publish' t key action' p' after ≡ (ok (id, pending), after))
  resubmission_adds_nothing id id' t publish' key action action' p p' o valid valid' fresh free =
      let found = new_request-found id t key action p o.requests fresh in
      rw (submit-accepted id t key action p o valid fresh free)
        (refl, refl, refl, submit-existing id' t publish' key action' p' _ _ valid' found)
