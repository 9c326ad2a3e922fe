-- ===== src/Approval/Resolution.antt =====
-- Resolutions of an approval request, over sequences of calls of the workflow
-- (Component_6/approval_workflow.py).
use mathlib.Core.Path.{subst₂}
use restaurant_ops_copilot.Prelude.{
  ℕ, ◌≤◌, String, ◌≡◌, refl, Bool, true, false, Option, none, some, List, [], ◌∷◌, Result, ok, err,
  arith, Option-cases, inl, inr, find, find-update, find-update-some, find-none-update, find_weaken,
  update_clears, Bool-cases, find-append, find-append_none, ◌==◌, ◌&&◌, if◌then◌else◌,
}
use restaurant_ops_copilot.Prelude.Traces.{run_all, run_all-keeps, wins_in, at_most_one}
use restaurant_ops_copilot.Text.{is_blank}
use restaurant_ops_copilot.Approval.{
  ApprovalRequest, is_pending, for_request, new_request, request, resolution, open_request, resolve,
}

-- A call of the workflow that writes.
pub data Op (R : Type 0) : Type 0 where
  request_op : ℕ → ℕ → ℕ → R → Op R
  resolve_op : ℕ → ℕ → Bool → String → Option String → ℕ → Op R

module _ {R : Type 0} where
  -- what a call leaves in the table, whether it returns or raises
  unfoldable pub step : Op R → List (ApprovalRequest R) → List (ApprovalRequest R)
  step (request_op id t d reason) rows = (request id t d reason rows).1
  step (resolve_op t i vote reviewer override now) rows =
      (resolve t i vote reviewer override now rows).1

  abbrev pub is_ok : Result (ApprovalRequest R) → Bool
  is_ok (ok r) = true
  is_ok (err e) = false

  -- a resolution of this request that returns
  unfoldable pub resolves : ℕ → ℕ → Op R → List (ApprovalRequest R) → Bool
  resolves t i (request_op id u d reason) rows = false
  resolves t i (resolve_op u j vote reviewer override now) rows =
      u == t && j == i && is_ok (resolve u j vote reviewer override now rows).0

  -- the request is resolved, as the row `r`
  abbrev pub Resolved : ℕ → ℕ → ApprovalRequest R → List (ApprovalRequest R) → Type 0
  Resolved t i r rows = (find (for_request t i) rows ≡ some r) × (is_pending r.status ≡ false)

  request-finds :
      (t i id u d : ℕ) (reason : R) (rows : List (ApprovalRequest R)) (r : ApprovalRequest R)
      → find (for_request t i) rows ≡ some r
      → find (for_request t i) (request id u d reason rows).1 ≡ some r
  unfolding request
  request-finds t i id u d reason rows r h =
      ground (arith, find-append (for_request t i) rows (new_request id u d reason ∷ []) r h)

  resolve-finds :
      (t i u j : ℕ) (vote : Bool) (reviewer : String) (override : Option String) (now : ℕ)
      (rows : List (ApprovalRequest R)) (r : ApprovalRequest R)
      → find (for_request t i) rows ≡ some r
      → find (for_request t i) (resolve u j vote reviewer override now rows).1
        ≡ some (
            if is_blank reviewer
            then r
            else if open_request u j r
            then resolution vote reviewer override now r
            else r)
  unfolding resolve
  resolve-finds t i u j vote reviewer override now rows r h = ground (
    arith,
    find-update-some (open_request u j) (for_request t i) (resolution vote reviewer override now)
        rows r (λ b. refl) h,
  )

  step-Resolved :
      (t i : ℕ) (r : ApprovalRequest R) (o : Op R) (rows : List (ApprovalRequest R))
      → Resolved t i r rows
      → Resolved t i r (step o rows)
  unfolding step
  step-Resolved t i r (request_op id u d reason) rows (h, p) =
      (request-finds t i id u d reason rows r h, p)
  step-Resolved t i r (resolve_op u j vote reviewer override now) rows (h, p) =
      (ground (arith, resolve-finds t i u j vote reviewer override now rows r h), p)

  -- A resolved request keeps its status, its reviewer and every other field, whatever calls follow.
  pub resolved_final :
      (t i : ℕ) (r : ApprovalRequest R) (calls : List (Op R)) (rows : List (ApprovalRequest R))
      → find (for_request t i) rows ≡ some r
      → is_pending r.status ≡ false
      → find (for_request t i) (run_all step calls rows) ≡ some r
  resolved_final t i r calls rows h p =
      (run_all-keeps step (Resolved t i r) (step-Resolved t i r) calls rows (h, p)).0

  -- The row is there, and no row of that tenant and id is pending.
  abbrev pub Closed : ℕ → ℕ → List (ApprovalRequest R) → Type 0
  Closed t i rows =
      (r : ApprovalRequest R) × (find (for_request t i) rows ≡ some r)
      × (find (open_request t i) rows ≡ none)

  resolve-Closed :
      (t i : ℕ) (vote : Bool) (reviewer : String) (override : Option String) (now : ℕ)
      (rows : List (ApprovalRequest R))
      → is_ok (resolve t i vote reviewer override now rows).0 ≡ true
      → Closed t i (resolve t i vote reviewer override now rows).1
  unfolding resolve
  resolve-Closed t i vote reviewer override now rows h =
      let f = resolution {R = R} vote reviewer override now in
      elim (Option-cases (find (for_request t i) rows)) [
        | inl absent ↦
            absurd
              (ground (arith, find-update (open_request t i) (for_request t i) f rows (λ b. refl)))
        | inr (r, e) ↦ (
          if open_request t i r then f r else r,
          ground
              (arith, find-update-some (open_request t i) (for_request t i) f rows r (λ b. refl) e),
          ground (arith, update_clears (open_request t i) f rows (λ a. ground arith)),
        )
      ]

  request-Closed :
      (t i id u d : ℕ) (reason : R) (rows : List (ApprovalRequest R))
      → Closed t i rows
      → Closed t i (request id u d reason rows).1
  unfolding request
  request-Closed t i id u d reason rows (r, h, c) = (
    r,
    ground (arith, request-finds t i id u d reason rows r h),
    elim (Bool-cases (id == i)) [
      | inl e ↦
          let same : id ≡ i = ground arith in
          let clash =
            find_weaken (λ (x : ApprovalRequest R). x.id == id) (for_request t i) rows
              (λ a k. ground arith) in
          ground (arith, clash)
      | inr e ↦
          ground
            (arith, find-append_none (open_request t i) rows (new_request id u d reason ∷ []) c)
    ],
  )

  resolve-open :
      (t i u j : ℕ) (vote : Bool) (reviewer : String) (override : Option String) (now : ℕ)
      (rows : List (ApprovalRequest R))
      → find (open_request t i) rows ≡ none
      → find (open_request t i) (resolve u j vote reviewer override now rows).1 ≡ none
  unfolding resolve
  resolve-open t i u j vote reviewer override now rows c = ground (
    arith,
    find-none-update (open_request u j) (open_request t i) (resolution vote reviewer override now)
        rows (λ a k. ground arith) c,
  )

  Closed-resolve :
      (t i : ℕ) (vote : Bool) (reviewer : String) (override : Option String) (now : ℕ)
      (rows : List (ApprovalRequest R))
      → Closed t i rows
      → is_ok (resolve t i vote reviewer override now rows).0 ≡ false
  unfolding resolve
  Closed-resolve t i vote reviewer override now rows (r, h, c) = ground arith

  step-Closed :
      (t i : ℕ) (o : Op R) (rows : List (ApprovalRequest R))
      → Closed t i rows
      → Closed t i (step o rows)
  unfolding step
  step-Closed t i (request_op id u d reason) rows c = request-Closed t i id u d reason rows c
  step-Closed t i (resolve_op u j vote reviewer override now) rows (r, h, c) = (
    _,
    resolve-finds t i u j vote reviewer override now rows r h,
    resolve-open t i u j vote reviewer override now rows c,
  )

  resolves-Closed :
      (t i : ℕ) (o : Op R) (rows : List (ApprovalRequest R))
      → resolves t i o rows ≡ true
      → Closed t i (step o rows)
  unfolding step resolves
  resolves-Closed t i (request_op id u d reason) rows h = absurd (ground arith)
  resolves-Closed t i (resolve_op u j vote reviewer override now) rows h =
      let same_tenant : u ≡ t = ground arith in
      let same_id : j ≡ i = ground arith in
      subst₂ (λ x y. Closed x y (resolve u j vote reviewer override now rows).1) same_tenant same_id
        (resolve-Closed u j vote reviewer override now rows (ground arith))

  Closed-resolves :
      (t i : ℕ) (o : Op R) (rows : List (ApprovalRequest R))
      → Closed t i rows
      → resolves t i o rows ≡ false
  unfolding resolves
  Closed-resolves t i (request_op id u d reason) rows c = refl
  Closed-resolves t i (resolve_op u j vote reviewer override now) rows c =
      elim (Bool-cases (u == t && j == i)) [
        | inl e ↦
            let same_tenant : t ≡ u = ground arith in
            let same_id : i ≡ j = ground arith in
            let lost =
              subst₂ (λ x y. is_ok (resolve x y vote reviewer override now rows).0 ≡ false)
                same_tenant same_id (Closed-resolve t i vote reviewer override now rows c) in
            ground (arith, lost)
        | inr e ↦ ground arith
      ]

  -- Of all the reviewers that resolve a request, in any order and among any other calls, at most
  -- one wins.
  pub at_most_one_resolution :
      (t i : ℕ) (calls : List (Op R)) (rows : List (ApprovalRequest R))
      → wins_in step (resolves t i) calls rows ≤ 1
  at_most_one_resolution t i =
      at_most_one step (resolves t i) (Closed t i) (resolves-Closed t i) (step-Closed t i)
        (Closed-resolves t i)
