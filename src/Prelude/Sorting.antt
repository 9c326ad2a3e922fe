-- ===== src/Prelude/Sorting.antt =====
-- Python's `sorted`, as an insertion sort by a Boolean order: stable, and a rearrangement.
use restaurant_ops_copilot.Prelude.{
  ℕ, zero, suc, ◌≡◌, refl, Bool, true, false, List, [], ◌∷◌, arith, Bool-cases, inl, inr, All,
  All-take, All-filter_rows, All-append, filter_rows, ◌++◌, ap, ◌∙◌, count, take, if◌then◌else◌,
}

module _ {ℓ} {A : Type ℓ} where
  -- `precedes x y`: x has to stand before y
  abbrev pub insert_by : (A → A → Bool) → A → List A → List A
  insert_by precedes x [] = x ∷ []
  insert_by precedes x (y ∷ ys) = if precedes y x then y ∷ insert_by precedes x ys else x ∷ y ∷ ys

  abbrev pub sort_by : (A → A → Bool) → List A → List A
  sort_by precedes [] = []
  sort_by precedes (x ∷ xs) = insert_by precedes x (sort_by precedes xs)

  pub All-insert_by {κ} :
      (P : A → Type κ) (precedes : A → A → Bool) (x : A) (ys : List A)
      → P x
      → All P ys
      → All P (insert_by precedes x ys)
  All-insert_by P precedes x [] h hs = (h, tt)
  All-insert_by P precedes x (y ∷ ys) h hs = elim (Bool-cases (precedes y x)) [
    | inl first ↦ rw first (hs.0, All-insert_by P precedes x ys h hs.1)
    | inr later ↦ rw later (h, hs)
  ]

  pub All-sort_by {κ} :
      (P : A → Type κ) (precedes : A → A → Bool) (xs : List A)
      → All P xs
      → All P (sort_by precedes xs)
  All-sort_by P precedes [] h = tt
  All-sort_by P precedes (x ∷ xs) h =
      All-insert_by P precedes x (sort_by precedes xs) h.0 (All-sort_by P precedes xs h.1)

  -- Sorting loses and invents nothing: every test counts the same.
  pub count-insert_by :
      (p : A → Bool) (precedes : A → A → Bool) (x : A) (ys : List A)
      → count p (insert_by precedes x ys) ≡ count p (x ∷ ys)
  count-insert_by p precedes x [] = refl
  count-insert_by p precedes x (y ∷ ys) = ground (arith, count-insert_by p precedes x ys)

  pub count-sort_by :
      (p : A → Bool) (precedes : A → A → Bool) (xs : List A)
      → count p (sort_by precedes xs) ≡ count p xs
  count-sort_by p precedes [] = refl
  count-sort_by p precedes (x ∷ xs) =
      ground
        (arith, count-insert_by p precedes x (sort_by precedes xs), count-sort_by p precedes xs)

  -- No row stands before one that has to precede it.
  abbrev pub Ordered : (A → A → Bool) → List A → Type ℓ
  Ordered precedes [] = Unit
  Ordered precedes (x ∷ xs) = All (λ y. precedes y x ≡ false) xs × Ordered precedes xs

  module _ (precedes : A → A → Bool) (asym : (x y : A) → precedes x y ≡ true → precedes y x ≡ false)
      (trans : (x y z : A)
        → precedes x y ≡ false
        → precedes y z ≡ false
        → precedes x z ≡ false) where
    All-later :
        (x y : A) (zs : List A)
        → precedes y x ≡ false
        → All (λ z. precedes z y ≡ false) zs
        → All (λ z. precedes z x ≡ false) zs
    All-later x y [] h hs = tt
    All-later x y (z ∷ zs) h hs = (trans z y x hs.0 h, All-later x y zs h hs.1)

    insert_by-Ordered :
        (x : A) (ys : List A) → Ordered precedes ys → Ordered precedes (insert_by precedes x ys)
    insert_by-Ordered x [] h = (tt, tt)
    insert_by-Ordered x (y ∷ ys) h = elim (Bool-cases (precedes y x)) [
      | inl first ↦ rw first (
        All-insert_by (λ z. precedes z y ≡ false) precedes x ys (asym y x first) h.0,
        insert_by-Ordered x ys h.1,
      )
      | inr later ↦ rw later ((later, All-later x y ys later h.0), h)
    ]

    pub sort_by-Ordered : (xs : List A) → Ordered precedes (sort_by precedes xs)
    sort_by-Ordered [] = tt
    sort_by-Ordered (x ∷ xs) = insert_by-Ordered x (sort_by precedes xs) (sort_by-Ordered xs)

  pub Ordered-take :
      (precedes : A → A → Bool) (n : ℕ) (xs : List A)
      → Ordered precedes xs
      → Ordered precedes (take n xs)
  Ordered-take precedes zero xs h = tt
  Ordered-take precedes (suc n) [] h = tt
  Ordered-take precedes (suc n) (x ∷ xs) h =
      (All-take (λ y. precedes y x ≡ false) n xs h.0, Ordered-take precedes n xs h.1)

module _ {ℓ} {A : Type ℓ} (precedes : A → A → Bool) where
  insert_by-first :
      (x : A) (ys : List A) → All (λ y. precedes y x ≡ false) ys → insert_by precedes x ys ≡ x ∷ ys
  insert_by-first x [] h = refl
  insert_by-first x (y ∷ ys) h = rw h.0 refl

  -- Sorting leaves rows that are in order alone.
  pub sort_by-sorted : (xs : List A) → Ordered precedes xs → sort_by precedes xs ≡ xs
  sort_by-sorted [] h = refl
  sort_by-sorted (x ∷ xs) h =
      ap (insert_by precedes x) (sort_by-sorted xs h.1) ∙ insert_by-first x xs h.0

  pub Ordered-filter_rows :
      (p : A → Bool) (xs : List A) → Ordered precedes xs → Ordered precedes (filter_rows p xs)
  Ordered-filter_rows p [] h = tt
  Ordered-filter_rows p (x ∷ xs) h = elim (Bool-cases (p x)) [
    | inl kept ↦
        rw kept (All-filter_rows (λ y. precedes y x ≡ false) p xs h.0, Ordered-filter_rows p xs h.1)
    | inr dropped ↦ rw dropped (Ordered-filter_rows p xs h.1)
  ]

  pub Ordered-append :
      (xs : List A) (e : A)
      → Ordered precedes xs
      → All (λ x. precedes e x ≡ false) xs
      → Ordered precedes (xs ++ e ∷ [])
  Ordered-append [] e h k = (tt, tt)
  Ordered-append (x ∷ xs) e h k = (
    All-append (λ y. precedes y x ≡ false) xs (e ∷ []) h.0 (k.0, tt),
    Ordered-append xs e h.1 k.1,
  )
