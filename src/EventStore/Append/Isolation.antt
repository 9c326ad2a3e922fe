-- ===== src/EventStore/Append/Isolation.antt =====
-- `append_event` of Component_1/event_store.py and the logs of the other tenants.
use restaurant_ops_copilot.Prelude.{
  ℕ, String, ◌≡◌, ap, ◌∙◌, Bool, false, List, [], ◌∷◌, ◌++◌, ok, err, Error, arith, Result-cases,
  inl, inr, filter_rows, ◌==◌,
}
use restaurant_ops_copilot.Values.{Numbers, Payload, EventType}
use restaurant_ops_copilot.EventStore.Tables.{Tables, Event}
use restaurant_ops_copilot.EventStore.Append.{
  Digest, genesis_hash, sort_events, new_event, head_hash, tenant_events, append_event, verify_from,
  verify_chain_integrity,
}
use restaurant_ops_copilot.EventStore.Append.Chain.{append-events}

module _ {Num : Type 0} where
  filter_rows-append_other :
      (p : Event Num → Bool) (xs : List (Event Num)) (e : Event Num)
      → p e ≡ false
      → filter_rows p (xs ++ e ∷ []) ≡ filter_rows p xs
  filter_rows-append_other p [] e h = ground arith
  filter_rows-append_other p (x ∷ xs) e h = ground (arith, filter_rows-append_other p xs e h)

  tenant_events-append_other :
      (u : ℕ) (e : Event Num) (s s' : Tables Num)
      → (e.tenant_id == u) ≡ false
      → s'.events ≡ s.events ++ e ∷ []
      → tenant_events u s' ≡ tenant_events u s
  unfolding tenant_events
  tenant_events-append_other u e s s' other log =
      ap (λ l. sort_events (filter_rows (λ x. x.tenant_id == u) l)) log
      ∙ ap sort_events (filter_rows-append_other (λ x. x.tenant_id == u) s.events e other)

module _ (N : Numbers) (d : Digest N.Num) where
  open N use {Num}

  -- An append that raises leaves every table as it was.
  pub append-err :
      (id now t : ℕ) (k : EventType) (p : Payload Num) (source : String) (s : Tables Num)
      (e : Error)
      → (append_event N d id now t k p source s).0 ≡ err e
      → (append_event N d id now t k p source s).1 ≡ s
  unfolding append_event
  append-err id now t k p source s e h = ground arith

  pub append-other_events :
      (id now t u : ℕ) (k : EventType) (p : Payload Num) (source : String) (s : Tables Num)
      → (t == u) ≡ false
      → tenant_events u (append_event N d id now t k p source s).1 ≡ tenant_events u s
  append-other_events id now t u k p source s other =
      let done = append_event N d id now t k p source s in
      elim (Result-cases done.0) [
        | inr (e, raises) ↦ ap (tenant_events u) (append-err id now t k p source s e raises)
        | inl (ev, appended) ↦
            let ends : done ≡ (ok ev, done.1) = ground arith in
            tenant_events-append_other u
              (new_event N d id now t k p source (head_hash (tenant_events t s))) s done.1 other
              (append-events N d id now t k p source s done.1 ends)
      ]

  -- Whatever one tenant appends, and whether it is accepted or raises, the log of every other
  -- tenant stays the same list of events and its verification has the same outcome.
  pub append_keeps_other_chains :
      (id now t u : ℕ) (k : EventType) (p : Payload Num) (source : String) (s : Tables Num)
      → (t == u) ≡ false
      → let after = (append_event N d id now t k p source s).1 in
        (tenant_events u after ≡ tenant_events u s)
        × (verify_chain_integrity N d u after ≡ verify_chain_integrity N d u s)
  unfolding verify_chain_integrity
  append_keeps_other_chains id now t u k p source s other =
      let same = append-other_events id now t u k p source s other in
      (same, ap (verify_from N d genesis_hash) same)
