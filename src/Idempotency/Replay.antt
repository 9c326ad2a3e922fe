-- ===== src/Idempotency/Replay.antt =====
-- What becomes of an attempt that completes, in time or late (Component_4/idempotency.py).
use restaurant_ops_copilot.Prelude.{
  ℕ, ◌+◌, ◌<◌, String, ◌≡◌, refl, false, some, List, ok, err, arith, key_reuse, find, find_passes,
  find-update-some, str_eq, if◌then◌else◌,
}
use restaurant_ops_copilot.Prelude.Traces.{run_all, run_all-keeps}
use restaurant_ops_copilot.Idempotency.{
  in_progress, completed, failed, result, raised, abandoned, KeyRow, replay, has_key, aged, abandon,
  invalid_key, claim_row, claim, complete, fail,
}
use restaurant_ops_copilot.Idempotency.Ownership.{
  Op, claim_op, complete_op, fail_op, step, claim-table, claim-finds, finish-finds, aged-has_key,
}

module _ {R : Type 0} where
  abbrev pub Completed : ℕ → String → String → R → List (KeyRow R) → Type 0
  Completed t k fp v rows =
      (r : KeyRow R) × (find (has_key t k) rows ≡ some r)
      × (r.status ≡ completed)
      × (r.stored ≡ result v)
      × (r.request_fingerprint ≡ fp)

  step-Completed :
      (t : ℕ) (k fp : String) (v : R) (o : Op R) (rows : List (KeyRow R))
      → Completed t k fp v rows
      → Completed t k fp v (step o rows)
  unfolding step complete fail
  step-Completed t k fp v (claim_op u j fq now) rows (r, h, c, d, f) =
      let (b, e) = claim-finds t u k j fq now rows r h in (r, ground arith, c, d, f)
  step-Completed t k fp v (complete_op u j w) rows (r, h, c, d, f) =
      (r, ground (arith, finish-finds t u k j completed (result w) rows r h), c, d, f)
  step-Completed t k fp v (fail_op u j) rows (r, h, c, d, f) =
      (r, ground (arith, finish-finds t u k j failed raised rows r h), c, d, f)

  complete-Completed :
      (t : ℕ) (k : String) (v : R) (rows : List (KeyRow R)) (r : KeyRow R)
      → invalid_key k ≡ false
      → find (has_key t k) rows ≡ some r
      → r.status ≡ in_progress
      → Completed t k r.request_fingerprint v (complete t k v rows).1
  unfolding complete
  complete-Completed t k v rows r valid h running_now = (
    record r { status = completed; stored = result v },
    ground (
      arith,
      finish-finds t t k k completed (result v) rows r h,
      find_passes (has_key t k) rows r h,
    ),
    refl,
    refl,
    refl,
  )

  Completed-claim :
      (t : ℕ) (k fp fq : String) (v : R) (now : ℕ) (rows : List (KeyRow R))
      → invalid_key k ≡ false
      → Completed t k fp v rows
      → (claim t k fq now rows).0 ≡ (if str_eq fp fq then ok (replay (result v)) else err key_reuse)
  unfolding claim
  Completed-claim t k fp fq v now rows valid (r, h, c, d, f) = ground arith

  -- Once an attempt that is in progress has completed, its result is final: after any further calls
  -- a claim with the same fingerprint, at any time, is answered with that result, and a claim with
  -- another fingerprint raises `IdempotencyKeyReuseError`.
  pub completed_replays :
      (t : ℕ) (k fp : String) (v : R) (now : ℕ) (calls : List (Op R)) (rows : List (KeyRow R))
      (r : KeyRow R)
      → invalid_key k ≡ false
      → find (has_key t k) rows ≡ some r
      → r.status ≡ in_progress
      → (claim t k fp now (run_all step calls (complete t k v rows).1)).0
        ≡ (if str_eq r.request_fingerprint fp then ok (replay (result v)) else err key_reuse)
  completed_replays t k fp v now calls rows r valid h running_now =
      let final =
        run_all-keeps step (Completed t k r.request_fingerprint v)
          (step-Completed t k r.request_fingerprint v) calls (complete t k v rows).1
          (complete-Completed t k v rows r valid h running_now) in
      Completed-claim t k r.request_fingerprint fp v now _ valid final

  claim-abandons :
      (t : ℕ) (k fp : String) (now : ℕ) (rows : List (KeyRow R)) (r : KeyRow R)
      → invalid_key k ≡ false
      → find (has_key t k) rows ≡ some r
      → r.status ≡ in_progress
      → r.created_at + 300000 < now
      → find (has_key t k) (claim t k fp now rows).1 ≡ some (abandon r)
  unfolding claim_row
  claim-abandons t k fp now rows r valid h running_now late = rw (claim-table t k fp now rows) (
      ground (
        arith,
        find-update-some (has_key t k) (has_key t k) (aged now) rows r (aged-has_key t k now) h,
        find_passes (has_key t k) rows r h,
      ))

  -- A claim on a key whose attempt has run for more than five minutes, 300000 ms, marks it failed,
  -- whoever claims; the late attempt's `complete` then returns its result but leaves the row with the
  -- status failed and the error of an abandoned attempt, otherwise as it was.
  pub abandoned_stays_failed :
      (t : ℕ) (k fp : String) (now : ℕ) (v : R) (rows : List (KeyRow R)) (r : KeyRow R)
      → invalid_key k ≡ false
      → find (has_key t k) rows ≡ some r
      → r.status ≡ in_progress
      → r.created_at + 300000 < now
      → let rows' = (claim t k fp now rows).1 in
        ((complete t k v rows').0 ≡ ok v)
        × (find (has_key t k) (complete t k v rows').1
            ≡ some (record r { status = failed; stored = abandoned }))
  unfolding complete
  abandoned_stays_failed t k fp now v rows r valid h running_now late =
      let rows' : List (KeyRow R) = (claim t k fp now rows).1 in
      let e = claim-abandons t k fp now rows r valid h running_now late in
      (ground arith, ground (arith, finish-finds t t k k completed (result v) rows' (abandon r) e))
