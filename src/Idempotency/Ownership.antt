-- ===== src/Idempotency/Ownership.antt =====
-- Who owns an idempotency key, over every sequence of calls of the registry
-- (Component_4/idempotency.py).
use restaurant_ops_copilot.Prelude.{
  ℕ, ◌≤◌, String, ◌≡◌, refl, Bool, true, false, some, List, [], ◌∷◌, Result, ok, arith,
  Option-cases, inl, inr, find, find-update-some, find-append, find-append_none, str_eq, eq_iff,
  ◌==◌, ◌&&◌, if◌then◌else◌,
}
use restaurant_ops_copilot.Prelude.Traces.{wins_in, at_most_one}
use mathlib.Core.Path.{subst₂}
use restaurant_ops_copilot.Idempotency.{
  KeyStatus, completed, failed, Stored, result, raised, KeyRow, Claim, owned, has_key, running,
  new_key, aged, invalid_key, claim_row, claim, finish, complete, fail,
}

pub data Op (R : Type 0) : Type 0 where
  claim_op : ℕ → String → String → ℕ → Op R
  complete_op : ℕ → String → R → Op R
  fail_op : ℕ → String → Op R

module _ {R : Type 0} where
  -- what a call leaves in the table, whether it returns or raises
  unfoldable pub step : Op R → List (KeyRow R) → List (KeyRow R)
  step (claim_op t k fp now) rows = (claim t k fp now rows).1
  step (complete_op t k v) rows = (complete t k v rows).1
  step (fail_op t k) rows = fail t k rows

  abbrev pub is_owned : Result (Claim R) → Bool
  is_owned (ok owned) = true
  is_owned _ = false

  -- a claim of this tenant's key that its caller owns
  unfoldable pub owns : ℕ → String → Op R → List (KeyRow R) → Bool
  owns t k (claim_op u j fp now) rows = u == t && str_eq j k && is_owned (claim u j fp now rows).0
  owns t k _ rows = false

  abbrev pub Present : ℕ → String → List (KeyRow R) → Type 0
  Present t k rows = (r : KeyRow R) × (find (has_key t k) rows ≡ some r)

  pub claim-table :
      (u : ℕ) (j fp : String) (now : ℕ) (rows : List (KeyRow R))
      → (claim u j fp now rows).1 ≡ (if invalid_key j then rows else (claim_row u j fp now rows).1)
  unfolding claim
  claim-table u j fp now rows = ground arith

  pub aged-has_key :
      (t : ℕ) (k : String) (now : ℕ) (r : KeyRow R) → has_key t k (aged now r) ≡ has_key t k r
  aged-has_key t k now r = ground arith

  -- A claim leaves a key's row as it is, or ages it.
  claim_row-finds :
      (t u : ℕ) (k j fp : String) (now : ℕ) (rows : List (KeyRow R)) (r : KeyRow R)
      → find (has_key t k) rows ≡ some r
      → (b : Bool) × (find (has_key t k) (claim_row u j fp now rows).1
          ≡ some (if b then aged now r else r))
  unfolding claim_row
  claim_row-finds t u k j fp now rows r h = elim (Option-cases (find (has_key u j) rows)) [
    | inl absent ↦ (
      false,
      rw (absent, claim_row) (find-append (has_key t k) rows (new_key u j fp now ∷ []) r h),
    )
    | inr (found, e) ↦ (
      has_key u j r,
      rw (e, claim_row)
          (find-update-some (has_key u j) (has_key t k) (aged now) rows r (aged-has_key t k now) h),
    )
  ]

  pub claim-finds :
      (t u : ℕ) (k j fp : String) (now : ℕ) (rows : List (KeyRow R)) (r : KeyRow R)
      → find (has_key t k) rows ≡ some r
      → (b : Bool) × (find (has_key t k) (claim u j fp now rows).1
          ≡ some (if b then aged now r else r))
  claim-finds t u k j fp now rows r h =
      let (b, e) = claim_row-finds t u k j fp now rows r h in
      (if invalid_key j then false else b, rw (claim-table u j fp now rows) (ground arith))

  claim-owned :
      (u : ℕ) (j fp : String) (now : ℕ) (rows : List (KeyRow R))
      → is_owned (claim u j fp now rows).0 ≡ true
      → Present u j (claim u j fp now rows).1
  unfolding claim
  claim-owned u j fp now rows h = (
    new_key u j fp now,
    ground (arith, find-append_none (has_key u j) rows (new_key u j fp now ∷ []), eq_iff j j),
  )

  pub finish-finds :
      (t u : ℕ) (k j : String) (status : KeyStatus) (stored : Stored R) (rows : List (KeyRow R))
      (r : KeyRow R)
      → find (has_key t k) rows ≡ some r
      → find (has_key t k) (finish u j status stored rows)
        ≡ some (if running u j r then record r { status = status; stored = stored } else r)
  unfolding finish
  finish-finds t u k j status stored rows r h =
      find-update-some (running u j) (has_key t k)
        (λ r. record r { status = status; stored = stored }) rows r (λ b. refl) h

  step-Present :
      (t : ℕ) (k : String) (o : Op R) (rows : List (KeyRow R))
      → Present t k rows
      → Present t k (step o rows)
  unfolding step complete fail
  step-Present t k (claim_op u j fp now) rows (r, h) =
      let (b, e) = claim-finds t u k j fp now rows r h in (if b then aged now r else r, e)
  step-Present t k (complete_op u j v) rows (r, h) = (
    if invalid_key j
        then r
        else if running u j r
        then record r { status = completed; stored = result v }
        else r,
    ground (arith, finish-finds t u k j completed (result v) rows r h),
  )
  step-Present t k (fail_op u j) rows (r, h) = (
    if invalid_key j
        then r
        else if running u j r
        then record r { status = failed; stored = raised }
        else r,
    ground (arith, finish-finds t u k j failed raised rows r h),
  )

  owns-Present :
      (t : ℕ) (k : String) (o : Op R) (rows : List (KeyRow R))
      → owns t k o rows ≡ true
      → Present t k (step o rows)
  unfolding owns step
  owns-Present t k (claim_op u j fp now) rows h =
      let same_tenant : u ≡ t = ground arith in
      let same_key : j ≡ k = ground (arith, eq_iff j k) in
      subst₂ (λ x y. Present x y (claim u j fp now rows).1) same_tenant same_key
        (claim-owned u j fp now rows (ground arith))
  owns-Present t k _ rows h = absurd (ground arith)

  Present-owns :
      (t : ℕ) (k : String) (o : Op R) (rows : List (KeyRow R))
      → Present t k rows
      → owns t k o rows ≡ false
  unfolding owns claim
  Present-owns t k (claim_op u j fp now) rows (r, h) = ground (arith, eq_iff j k)
  Present-owns t k _ rows h = refl

  -- Whatever is called, by whomever, in whatever order and at whatever times: a tenant's key has at
  -- most one claim whose caller owns it, so at most one caller executes.
  pub at_most_one_owner :
      (t : ℕ) (k : String) (calls : List (Op R)) (rows : List (KeyRow R))
      → wins_in step (owns t k) calls rows ≤ 1
  at_most_one_owner t k =
      at_most_one step (owns t k) (Present t k) (owns-Present t k) (step-Present t k)
        (Present-owns t k)
