-- ===== src/EventStore/Append/Chain.antt =====
-- What `verify_chain_integrity` says of a chain that `append_event` has written.
use restaurant_ops_copilot.Prelude.{
  ℕ, String, ◌≡◌, ◌≢◌, refl, sym, ap, ◌∙◌, Bool, Bool-cases, inl, inr, true, none, some, List, [],
  ◌∷◌, ◌++◌, ok, err, arith, chain_corrupted, filter_rows, All, str_eq, eq_iff, ◌==◌, ◌<◌,
  if◌then◌else◌,
}
use restaurant_ops_copilot.Text.{strip}
use restaurant_ops_copilot.Values.{Numbers, Payload, EventType}
use restaurant_ops_copilot.EventStore.Tables.{Tables, Event}
use restaurant_ops_copilot.EventStore.Handlers.Frame.{apply_to_current_state-events}
use restaurant_ops_copilot.EventStore.Append.{
  Digest, genesis_hash, before, insert_event, sort_events, last_event, tenant_events, head_hash,
  new_event, append_event, verify_from, verify_chain_integrity,
}

module _ {Num : Type 0} where
  insert_event-append :
      (x e : Event Num) (ys : List (Event Num))
      → before x e ≡ true
      → insert_event x (ys ++ e ∷ []) ≡ insert_event x ys ++ e ∷ []
  unfolding insert_event
  insert_event-append x e [] h = ground arith
  insert_event-append x e (y ∷ ys) h = ground (arith, insert_event-append x e ys h)

  -- An event later than all others is sorted to the end.
  sort_events-append :
      (xs : List (Event Num)) (e : Event Num)
      → All (λ x. before x e ≡ true) xs
      → sort_events (xs ++ e ∷ []) ≡ sort_events xs ++ e ∷ []
  unfolding sort_events
  sort_events-append [] e h = refl
  sort_events-append (x ∷ xs) e h =
      ap (insert_event x) (sort_events-append xs e h.1)
      ∙ insert_event-append x e (sort_events xs) h.0

  All-filter_rows :
      (P : Event Num → Type 0) (p : Event Num → Bool) (xs : List (Event Num))
      → All P xs
      → All P (filter_rows p xs)
  All-filter_rows P p [] h = tt
  All-filter_rows P p (x ∷ xs) h = elim (Bool-cases (p x)) [
    | inl kept ↦ rw kept (h.0, All-filter_rows P p xs h.1)
    | inr dropped ↦ rw dropped (All-filter_rows P p xs h.1)
  ]

  filter_rows-append :
      (p : Event Num → Bool) (xs : List (Event Num)) (e : Event Num)
      → p e ≡ true
      → filter_rows p (xs ++ e ∷ []) ≡ filter_rows p xs ++ e ∷ []
  filter_rows-append p [] e h = ground arith
  filter_rows-append p (x ∷ xs) e h = ground (arith, filter_rows-append p xs e h)

  -- the hash that the event after these points to, in a chain that starts from `prev`
  abbrev pub head_from : String → List (Event Num) → String
  head_from prev es = elim (last_event es) [ none ↦ prev | some e ↦ e.hash ]

  last_event-cons :
      (x : Event Num) (xs : List (Event Num)) → (z : Event Num) × (last_event (x ∷ xs) ≡ some z)
  unfolding last_event
  last_event-cons x [] = (x, refl)
  last_event-cons x (y ∷ ys) = last_event-cons y ys

  pub head_from-cons :
      (prev : String) (x : Event Num) (xs : List (Event Num))
      → head_from prev (x ∷ xs) ≡ head_from x.hash xs
  unfolding last_event
  head_from-cons prev x [] = refl
  head_from-cons prev x (y ∷ ys) = let (z, e) = last_event-cons y ys in rw (e, head_from)

module _ (N : Numbers) (d : Digest N.Num) where
  open N use {Num}
  open d use {compute_sha256_hash}

  verify_from-append :
      (prev : String) (xs : List (Event Num)) (e : Event Num)
      → verify_from N d prev xs ≡ ok true
      → verify_from N d prev (xs ++ e ∷ []) ≡ verify_from N d (head_from prev xs) (e ∷ [])
  unfolding verify_from last_event
  verify_from-append prev [] e h = refl
  verify_from-append prev (x ∷ xs) e h =
      rw (head_from-cons prev x xs) (ground (arith, verify_from-append x.hash xs e))

  -- What a successful append has written.
  pub append-events :
      (id now t : ℕ) (k : EventType) (p : Payload Num) (source : String) (s s' : Tables Num)
      {ev : Event Num}
      → append_event N d id now t k p source s ≡ (ok ev, s')
      → s'.events
        ≡ s.events ++ new_event N d id now t k p source (head_hash (tenant_events t s)) ∷ []
  unfolding append_event
  append-events id now t k p source s s' h =
      let e = new_event N d id now t k p source (head_hash (tenant_events t s)) in
      ground (arith, apply_to_current_state-events N e (record s { events = s.events ++ e ∷ [] }))

  -- The clock has moved past every event of the log.
  abbrev pub IsLatest : ℕ → Tables Num → Type 0
  IsLatest now s = All (λ e. e.timestamp < now) s.events

  pub before-new :
      (id now t : ℕ) (k : EventType) (p : Payload Num) (source prev : String)
      (xs : List (Event Num))
      → All (λ e. e.timestamp < now) xs
      → All (λ x. before x (new_event N d id now t k p source prev) ≡ true) xs
  unfolding before
  before-new id now t k p source prev [] h = tt
  before-new id now t k p source prev (x ∷ xs) h =
      (ground arith, before-new id now t k p source prev xs h.1)

  pub tenant_events-append :
      (t : ℕ) (e : Event Num) (s s' : Tables Num)
      → e.tenant_id ≡ t
      → All (λ x. before x e ≡ true) s.events
      → s'.events ≡ s.events ++ e ∷ []
      → tenant_events t s' ≡ tenant_events t s ++ e ∷ []
  unfolding tenant_events
  tenant_events-append t e s s' own later log =
      ap (λ l. sort_events (filter_rows (λ x. x.tenant_id == t) l)) log
      ∙ ap sort_events (filter_rows-append (λ x. x.tenant_id == t) s.events e (ground arith))
      ∙ sort_events-append _ e (All-filter_rows _ (λ x. x.tenant_id == t) s.events later)

  -- Verification after an append comes down to the appended event.
  verify-append :
      (id now t : ℕ) (k : EventType) (p : Payload Num) (source : String) (s s' : Tables Num)
      {ev : Event Num}
      → IsLatest now s
      → verify_chain_integrity N d t s ≡ ok true
      → append_event N d id now t k p source s ≡ (ok ev, s')
      → verify_chain_integrity N d t s'
        ≡ verify_from N d
            (head_hash (tenant_events t s))
            (new_event N d id now t k p source (head_hash (tenant_events t s)) ∷ [])
  unfolding verify_chain_integrity head_hash
  verify-append id now t k p source s s' latest valid done =
      let prev : String = head_hash (tenant_events t s) in
      let e = new_event N d id now t k p source prev in
      let later = before-new id now t k p source prev s.events latest in
      let log = append-events id now t k p source s s' done in
      rw (tenant_events-append t e s s' refl later log)
        (verify_from-append genesis_hash (tenant_events t s) e valid)

  -- The test of an appended event: is the digest the same for the stripped source?
  verify_from-new_event :
      (id now t : ℕ) (k : EventType) (p : Payload Num) (source prev : String)
      → verify_from N d prev (new_event N d id now t k p source prev ∷ []) ≡ (
          if str_eq
            (compute_sha256_hash prev k p now source)
            (compute_sha256_hash prev k p now (strip source))
          then ok true
          else err chain_corrupted)
  unfolding verify_from
  verify_from-new_event id now t k p source prev = ground (arith, eq_iff prev prev)

  -- Appending keeps the chain verifiable, if the clock has moved past every event of the log and
  -- the source has no blanks at its ends.
  pub append-verifies :
      (id now t : ℕ) (k : EventType) (p : Payload Num) (source : String) (s s' : Tables Num)
      {ev : Event Num}
      → IsLatest now s
      → strip source ≡ source
      → verify_chain_integrity N d t s ≡ ok true
      → append_event N d id now t k p source s ≡ (ok ev, s')
      → verify_chain_integrity N d t s' ≡ ok true
  append-verifies id now t k p source s s' latest bare valid done =
      let prev : String = head_hash (tenant_events t s) in
      let same = ap (compute_sha256_hash prev k p now) (sym bare) in
      verify-append id now t k p source s s' latest valid done
      ∙ verify_from-new_event id now t k p source prev
      ∙ rw ((eq_iff _ _).1 same) refl

  -- An append whose source has blanks at an end succeeds and breaks the chain: the hash is taken of
  -- the source as given, and the event stores the stripped one. It is broken whenever the digest
  -- tells the two sources apart.
  pub append_padded_corrupts :
      (id now t : ℕ) (k : EventType) (p : Payload Num) (source : String) (s s' : Tables Num)
      {ev : Event Num}
      → IsLatest now s
      → ((prev : String)
          → compute_sha256_hash prev k p now source
            ≢ compute_sha256_hash prev k p now (strip source))
      → verify_chain_integrity N d t s ≡ ok true
      → append_event N d id now t k p source s ≡ (ok ev, s')
      → verify_chain_integrity N d t s' ≡ err chain_corrupted
  append_padded_corrupts id now t k p source s s' latest apart valid done =
      let prev : String = head_hash (tenant_events t s) in
      verify-append id now t k p source s s' latest valid done
      ∙ verify_from-new_event id now t k p source prev
      ∙ ground (
        arith,
        eq_iff (compute_sha256_hash prev k p now source)
            (compute_sha256_hash prev k p now (strip source)),
        apart prev,
      )
