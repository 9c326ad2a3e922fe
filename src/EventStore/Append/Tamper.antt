-- ===== src/EventStore/Append/Tamper.antt =====
-- What the hash chain of Component_1/event_store.py says of two logs that both verify.
use restaurant_ops_copilot.Prelude.{
  String, ◌≡◌, ◌≤◌, ◌==◌, refl, sym, ◌∙◌, true, List, [], ◌∷◌, ok, arith, eq_iff, length, leb, All,
  Bool-cases, inl, inr,
}
use restaurant_ops_copilot.Values.{Numbers}
use restaurant_ops_copilot.EventStore.Tables.{Event}
use restaurant_ops_copilot.EventStore.Append.{
  Digest, genesis_hash, last_event, head_hash, verify_from,
}
use restaurant_ops_copilot.EventStore.Append.Chain.{head_from, head_from-cons}

module _ (N : Numbers) (d : Digest N.Num) where
  open N use {Num}
  open d use {compute_sha256_hash}

  -- Two logs hold the same events, field by field that the digest covers.
  abbrev pub SameLog : List (Event Num) → List (Event Num) → Type 0
  SameLog [] [] = Unit
  SameLog [] (y ∷ ys) = ⊥
  SameLog (x ∷ xs) [] = ⊥
  SameLog (x ∷ xs) (y ∷ ys) =
      (x.event_type ≡ y.event_type)
      × (x.payload ≡ y.payload)
      × (x.timestamp ≡ y.timestamp)
      × (x.source ≡ y.source)
      × SameLog xs ys

  abbrev pub digest_of : Event Num → String
  digest_of e = compute_sha256_hash e.previous_hash e.event_type e.payload e.timestamp e.source

  -- Two events with one digest have one preimage.
  abbrev NoClash : Event Num → Event Num → Type 0
  NoClash x y =
      digest_of x ≡ digest_of y
      → (x.previous_hash ≡ y.previous_hash)
        × (x.event_type ≡ y.event_type)
        × (x.payload ≡ y.payload)
        × (x.timestamp ≡ y.timestamp)
        × (x.source ≡ y.source)

  -- No event of the one log collides with one of the other under the digest.
  abbrev pub NoCollision : List (Event Num) → List (Event Num) → Type 0
  NoCollision xs ys = All (λ x. All (λ y. NoClash x y) ys) xs

  -- No event's digest is the hash `p`.
  abbrev pub NoDigest : String → List (Event Num) → Type 0
  NoDigest p ys = All (λ y. digest_of y ≡ p → ⊥) ys

  NoCollision-rest :
      (y : Event Num) (xs ys : List (Event Num)) → NoCollision xs (y ∷ ys) → NoCollision xs ys
  NoCollision-rest y [] ys h = tt
  NoCollision-rest y (x ∷ xs) ys h = (h.0.1, NoCollision-rest y xs ys h.1)

  verified_head :
      (prev : String) (x : Event Num) (xs : List (Event Num))
      → verify_from N d prev (x ∷ xs) ≡ ok true
      → (x.previous_hash ≡ prev) × (x.hash ≡ digest_of x) × (verify_from N d x.hash xs ≡ ok true)
  unfolding verify_from
  verified_head prev x xs h =
      ground (arith, eq_iff x.previous_hash prev, eq_iff x.hash (digest_of x))

  same_head :
      (p q : String) (xs ys : List (Event Num))
      → length xs ≡ length ys
      → verify_from N d p xs ≡ ok true
      → verify_from N d q ys ≡ ok true
      → NoCollision xs ys
      → head_from p xs ≡ head_from q ys
      → (p ≡ q) × SameLog xs ys
  unfolding last_event
  same_head p q [] [] l hx hy n e = (e, tt)
  same_head p q [] (y ∷ ys) l hx hy n e = absurd (omega arith)
  same_head p q (x ∷ xs) [] l hx hy n e = absurd (omega arith)
  same_head p q (x ∷ xs) (y ∷ ys) l hx hy n e =
      let (from_p, x_digest, vx) = verified_head p x xs hx in
      let (from_q, y_digest, vy) = verified_head q y ys hy in
      let ends = sym (head_from-cons p x xs) ∙ e ∙ head_from-cons q y ys in
      let (same_hash, rest) =
        same_head x.hash y.hash xs ys (omega arith) vx vy (NoCollision-rest y xs ys n.1) ends in
      let (prev, kind, payload, stamp, source) = n.0.0 (sym x_digest ∙ same_hash ∙ y_digest) in
      (sym from_p ∙ prev ∙ from_q, (kind, payload, stamp, source, rest))

  -- The longer log would have the shorter one's first link in its midst.
  same_end :
      (p q : String) (xs ys : List (Event Num))
      → length xs ≤ length ys
      → verify_from N d p xs ≡ ok true
      → verify_from N d q ys ≡ ok true
      → NoCollision xs ys
      → NoDigest p ys
      → head_from p xs ≡ head_from q ys
      → (p ≡ q) × SameLog xs ys
  same_end p q [] [] l hx hy n g e = same_head p q [] [] refl hx hy n e
  same_end p q (x ∷ xs) [] l hx hy n g e = absurd (omega arith)
  same_end p q xs (y ∷ ys) l hx hy n g e = elim (Bool-cases (length xs == length (y ∷ ys))) [
    | inl same ↦ same_head p q xs (y ∷ ys) (ground arith) hx hy n e
    | inr longer ↦
        let (from_q, y_digest, vy) = verified_head q y ys hy in
        let (inside, rest) =
          same_end p y.hash xs ys (ground arith) hx vy (NoCollision-rest y xs ys n) g.1
            (e ∙ head_from-cons q y ys) in
        absurd (g.0 (sym (inside ∙ y_digest)))
  ]

  SameLog-sym : (xs ys : List (Event Num)) → SameLog xs ys → SameLog ys xs
  SameLog-sym [] [] h = tt
  SameLog-sym [] (y ∷ ys) h = absurd h
  SameLog-sym (x ∷ xs) [] h = absurd h
  SameLog-sym (x ∷ xs) (y ∷ ys) (k, p, t, s, rest) =
      (sym k, sym p, sym t, sym s, SameLog-sym xs ys rest)

  NoCollision-none : (ys : List (Event Num)) → NoCollision ys []
  NoCollision-none [] = tt
  NoCollision-none (y ∷ ys) = (tt, NoCollision-none ys)

  NoCollision-cons :
      (x : Event Num) (xs ys : List (Event Num))
      → All (λ y. NoClash x y) ys
      → NoCollision ys xs
      → NoCollision ys (x ∷ xs)
  NoCollision-cons x xs [] h hs = tt
  NoCollision-cons x xs (y ∷ ys) h hs = (
    (
      λ e.
          let (prev, kind, payload, stamp, source) = h.0 (sym e) in
          (sym prev, sym kind, sym payload, sym stamp, sym source),
      hs.0,
    ),
    NoCollision-cons x xs ys h.1 hs.1,
  )

  NoCollision-sym : (xs ys : List (Event Num)) → NoCollision xs ys → NoCollision ys xs
  NoCollision-sym [] ys h = NoCollision-none ys
  NoCollision-sym (x ∷ xs) ys h = NoCollision-cons x xs ys h.0 (NoCollision-sym xs ys h.1)

  -- Tamper evidence: two logs, of whatever lengths, that both verify from the genesis hash and end in
  -- the same hash hold the same events, one by one, in all that the digest covers, provided that no
  -- event of the one collides with an event of the other under the digest and that no event of
  -- either has the genesis hash as its digest. So neither is the other with events cut off.
  pub verified_tamper_evident :
      (xs ys : List (Event Num))
      → verify_from N d genesis_hash xs ≡ ok true
      → verify_from N d genesis_hash ys ≡ ok true
      → NoCollision xs ys
      → NoDigest genesis_hash xs
      → NoDigest genesis_hash ys
      → head_hash xs ≡ head_hash ys
      → SameLog xs ys
  unfolding head_hash
  verified_tamper_evident xs ys hx hy n gx gy e = elim (Bool-cases (leb (length xs) (length ys))) [
    | inl shorter ↦ (same_end genesis_hash genesis_hash xs ys (ground arith) hx hy n gy e).1
    | inr longer ↦
        SameLog-sym ys xs
          (same_end genesis_hash genesis_hash ys xs (ground arith) hy hx (NoCollision-sym xs ys n)
            gx (sym e)).1
  ]
