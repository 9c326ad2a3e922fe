-- ===== src/Prelude/Lists.antt =====
-- Tables as lists of rows: the first row that a query selects, an update of the rows that a query
-- selects, and the number of rows; each query is a Boolean test.
use Prim.Native.Nat.{ℕ, zero, suc, ◌+◌, ◌≤◌}
use mathlib.Core.Path.{◌≡◌, refl, ◌∙◌, subst, sym}
use mathlib.Core.Logic.{inl, inr}
use mathlib.Core.Bool.{Bool, true, false}
use mathlib.Core.Option.{Option, none, some}
use mathlib.Core.List.{List, [], ◌∷◌, ◌++◌}
use native.Mathlib.Omega.{arith}
use restaurant_ops_copilot.Prelude.Tests.{Bool-cases, if◌then◌else◌}

module _ {ℓ} {A : Type ℓ} where
  abbrev pub length : List A → ℕ
  length [] = 0
  length (x ∷ xs) = suc (length xs)

  -- `query.filter(p).one_or_none()`, or `.first()`
  abbrev pub find : (A → Bool) → List A → Option A
  find p [] = none
  find p (x ∷ xs) = if p x then some x else find p xs

  -- `UPDATE ... WHERE p`
  abbrev pub update : (A → Bool) → (A → A) → List A → List A
  update p f [] = []
  update p f (x ∷ xs) = (if p x then f x else x) ∷ update p f xs

  -- the rows that a query selects
  abbrev pub filter_rows : (A → Bool) → List A → List A
  filter_rows p [] = []
  filter_rows p (x ∷ xs) = if p x then x ∷ filter_rows p xs else filter_rows p xs

  abbrev pub count : (A → Bool) → List A → ℕ
  count p [] = 0
  count p (x ∷ xs) = if p x then suc (count p xs) else count p xs

  -- Every row satisfies a predicate.
  abbrev pub All {κ} : (A → Type κ) → List A → Type κ
  All P [] = Unit
  All P (x ∷ xs) = P x × All P xs

  pub length-append : (xs ys : List A) → length (xs ++ ys) ≡ length xs + length ys
  length-append [] ys = omega arith
  length-append (x ∷ xs) ys = omega (arith, length-append xs ys)

  pub count-append : (p : A → Bool) (xs ys : List A) → count p (xs ++ ys) ≡ count p xs + count p ys
  count-append p [] ys = omega arith
  count-append p (x ∷ xs) ys = ground (arith, count-append p xs ys)

  pub All-append {κ} : (P : A → Type κ) (xs ys : List A) → All P xs → All P ys → All P (xs ++ ys)
  All-append P [] ys h k = k
  All-append P (x ∷ xs) ys h k = (h.0, All-append P xs ys h.1 k)

  pub All-find {κ} :
      (P : A → Type κ) (p : A → Bool) (xs : List A) (a : A) → All P xs → find p xs ≡ some a → P a
  All-find P p [] a h e = ground arith
  All-find P p (x ∷ xs) a h e = elim (Bool-cases (p x)) [
    | inl found ↦ let same : x ≡ a = ground arith in subst P same h.0
    | inr passed ↦ All-find P p xs a h.1 (ground arith)
  ]

  -- What `find` returns passes the test.
  pub find_passes : (p : A → Bool) (xs : List A) (a : A) → find p xs ≡ some a → p a ≡ true
  find_passes p [] a e = ground arith
  find_passes p (x ∷ xs) a e = ground (arith, find_passes p xs a)

  -- An update that keeps a test's answers keeps what it finds, up to the update.
  pub find-update :
      (p q : A → Bool) (f : A → A) (xs : List A)
      → ((a : A) → q (f a) ≡ q a)
      → find q (update p f xs)
        ≡ elim (find q xs) [ none ↦ none | some a ↦ some (if p a then f a else a) ]
  find-update p q f [] h = refl
  find-update p q f (x ∷ xs) h = ground (arith, find-update p q f xs h, h x)

  pub find-append :
      (q : A → Bool) (xs ys : List A) (a : A) → find q xs ≡ some a → find q (xs ++ ys) ≡ some a
  find-append q [] ys a h = ground arith
  find-append q (x ∷ xs) ys a h = ground (arith, find-append q xs ys a)

  pub find-append_none :
      (q : A → Bool) (xs ys : List A) → find q xs ≡ none → find q (xs ++ ys) ≡ find q ys
  find-append_none q [] ys h = refl
  find-append_none q (x ∷ xs) ys h = ground (arith, find-append_none q xs ys)

  -- What `find` does after an update of rows, found or not.
  pub find-update-some :
      (p q : A → Bool) (f : A → A) (xs : List A) (a : A)
      → ((b : A) → q (f b) ≡ q b)
      → find q xs ≡ some a
      → find q (update p f xs) ≡ some (if p a then f a else a)
  find-update-some p q f xs a keeps h = find-update p q f xs keeps ∙ rw h refl

  -- An update that makes no row pass the test leaves none to find.
  pub find-none-update :
      (p q : A → Bool) (f : A → A) (xs : List A)
      → ((a : A) → q a ≡ false → q (f a) ≡ false)
      → find q xs ≡ none
      → find q (update p f xs) ≡ none
  find-none-update p q f [] h e = refl
  find-none-update p q f (x ∷ xs) h e = ground (arith, find-none-update p q f xs h, h x)

  pub update_clears :
      (p : A → Bool) (f : A → A) (xs : List A)
      → ((a : A) → p (f a) ≡ false)
      → find p (update p f xs) ≡ none
  update_clears p f [] h = refl
  update_clears p f (x ∷ xs) h = ground (arith, update_clears p f xs h, h x)

  -- A test that fails on every row that another test finds.
  pub find_weaken :
      (p q : A → Bool) (xs : List A)
      → ((a : A) → q a ≡ true → p a ≡ true)
      → find p xs ≡ none
      → find q xs ≡ none
  find_weaken p q [] h e = refl
  find_weaken p q (x ∷ xs) h e = ground (arith, find_weaken p q xs h, h x)

  -- The first row that passes a test is the first for a narrower one that it passes as well.
  pub find_narrow :
      (p q : A → Bool) (xs : List A) (a : A)
      → ((b : A) → q b ≡ true → p b ≡ true)
      → q a ≡ true
      → find p xs ≡ some a
      → find q xs ≡ some a
  find_narrow p q [] a narrower passes h = ground arith
  find_narrow p q (x ∷ xs) a narrower passes h = elim (Bool-cases (p x)) [
    | inl found ↦
        let same : x ≡ a = ground arith in ground (arith, subst (λ b. q b ≡ true) (sym same) passes)
    | inr passed ↦ ground (arith, find_narrow p q xs a narrower passes, narrower x)
  ]

module _ {ℓ} {A : Type ℓ} where
  -- `xs[:n]`
  abbrev pub take : ℕ → List A → List A
  take zero xs = []
  take (suc n) [] = []
  take (suc n) (x ∷ xs) = x ∷ take n xs

  pub length-take : (n : ℕ) (xs : List A) → length (take n xs) ≤ n
  length-take zero xs = omega arith
  length-take (suc n) [] = omega arith
  length-take (suc n) (x ∷ xs) = omega (arith, length-take n xs)

  pub All-take {κ} : (P : A → Type κ) (n : ℕ) (xs : List A) → All P xs → All P (take n xs)
  All-take P zero xs h = tt
  All-take P (suc n) [] h = tt
  All-take P (suc n) (x ∷ xs) h = (h.0, All-take P n xs h.1)

  pub All-filter_rows {κ} :
      (P : A → Type κ) (p : A → Bool) (xs : List A) → All P xs → All P (filter_rows p xs)
  All-filter_rows P p [] h = tt
  All-filter_rows P p (x ∷ xs) h = elim (Bool-cases (p x)) [
    | inl kept ↦ rw kept (h.0, All-filter_rows P p xs h.1)
    | inr dropped ↦ rw dropped (All-filter_rows P p xs h.1)
  ]

  -- Every selected row passes the test.
  pub filter_rows_passes : (p : A → Bool) (xs : List A) → All (λ x. p x ≡ true) (filter_rows p xs)
  filter_rows_passes p [] = tt
  filter_rows_passes p (x ∷ xs) = elim (Bool-cases (p x)) [
    | inl kept ↦ rw kept (kept, filter_rows_passes p xs)
    | inr dropped ↦ rw dropped (filter_rows_passes p xs)
  ]

  -- `any(p(x) for x in xs)`
  abbrev pub any : (A → Bool) → List A → Bool
  any p [] = false
  any p (x ∷ xs) = if p x then true else any p xs
