-- ===== src/Idempotency.antt =====
-- Component_4/idempotency.py over its table (Component_4/idempotency_models.py), for any type of
-- results. A fingerprint is the text that `request_fingerprint` computes; times are milliseconds.
pub mod Ownership
pub mod Replay
use restaurant_ops_copilot.Prelude.{
  ℕ, ◌+◌, String, Bool, true, false, Option, none, some, List, [], ◌∷◌, ◌++◌, Result, ok, err, Exec,
  raise_if, gets, lift, modify, pure, transaction, ◌>>=◌, ◌>>◌, value_error, key_reuse, find,
  update, str_eq, ltb, ◌==◌, ◌&&◌, ◌||◌, not, if◌then◌else◌,
}
use restaurant_ops_copilot.Text.{is_blank, text_length}

pub data KeyStatus : Type 0 where
  in_progress completed failed : KeyStatus

-- The column `result`: nothing yet, a tool's result, or the error of a failed attempt.
pub data Stored (R : Type 0) : Type 0 where
  nothing abandoned raised : Stored R
  result : R → Stored R

pub record KeyRow (R : Type 0) : Type 0 where
  pub tenant_id : ℕ
  pub idempotency_key : String
  pub request_fingerprint : String
  pub status : KeyStatus
  pub stored : Stored R
  pub created_at : ℕ

-- `Claim`: owned, or what to return instead
pub data Claim (R : Type 0) : Type 0 where
  owned : Claim R
  replay : Stored R → Claim R
  still_running incomplete : Claim R

-- `STALE_AFTER`, five minutes
abbrev pub stale_after : ℕ
stale_after = 300000

abbrev pub is_in_progress : KeyStatus → Bool
is_in_progress in_progress = true
is_in_progress _ = false

-- `_validate_key`
unfoldable pub invalid_key : String → Bool
invalid_key k = is_blank k || ltb 255 (text_length k)

module _ {R : Type 0} where
  abbrev pub has_key : ℕ → String → KeyRow R → Bool
  has_key t k r = r.tenant_id == t && str_eq r.idempotency_key k

  abbrev pub running : ℕ → String → KeyRow R → Bool
  running t k r = has_key t k r && is_in_progress r.status

  abbrev pub new_key : ℕ → String → String → ℕ → KeyRow R
  new_key t k fp now = record {
    tenant_id = t;
    idempotency_key = k;
    request_fingerprint = fp;
    status = in_progress;
    stored = nothing;
    created_at = now;
  }

  -- `status == IN_PROGRESS and _now() - row.created_at > STALE_AFTER`
  abbrev pub is_stale : ℕ → KeyRow R → Bool
  is_stale now r = is_in_progress r.status && ltb (r.created_at + stale_after) now

  abbrev pub abandon : KeyRow R → KeyRow R
  abandon r = record r { status = failed; stored = abandoned }

  abbrev pub aged : ℕ → KeyRow R → KeyRow R
  aged now r = if is_stale now r then abandon r else r

  -- what the rest of `claim` answers for the row as it is after the transaction
  abbrev pub answer : String → KeyRow R → Result (Claim R)
  answer fp r = if not (str_eq r.request_fingerprint fp) then err key_reuse else elim r.status [
    | completed ↦ ok (replay r.stored)
    | in_progress ↦ ok still_running
    | failed ↦ ok incomplete
  ]

  -- the transaction of `claim`: none where the row was inserted
  unfoldable pub claim_row : ℕ → String → String → ℕ → Exec (List (KeyRow R)) (Option (KeyRow R))
  claim_row t k fp now rows = elim (find (has_key t k) rows) [
    | none ↦ (ok none, rows ++ new_key t k fp now ∷ [])
    | some r ↦ (ok (some (aged now r)), update (has_key t k) (aged now) rows)
  ]

  -- `IdempotencyRegistry.claim`
  unfoldable pub claim : ℕ → String → String → ℕ → Exec (List (KeyRow R)) (Claim R)
  unfolding claim_row
  claim t k fp now = do
    raise_if (invalid_key k) value_error
    row ← transaction (claim_row t k fp now)
    lift (elim row [ none ↦ ok owned | some r ↦ answer fp r ])

  -- `IdempotencyRegistry._finish`
  unfoldable pub finish : ℕ → String → KeyStatus → Stored R → List (KeyRow R) → List (KeyRow R)
  finish t k status stored =
      update (running t k) (λ r. record r { status = status; stored = stored })

  -- `IdempotencyRegistry.complete`, on the result that is safe for JSON already
  unfoldable pub complete : ℕ → String → R → Exec (List (KeyRow R)) R
  unfolding finish
  complete t k safe = do
    raise_if (invalid_key k) value_error
    modify (finish t k completed (result safe))
    pure safe

  -- `IdempotencyRegistry.fail`: it never raises
  unfoldable pub fail : ℕ → String → List (KeyRow R) → List (KeyRow R)
  unfolding finish
  fail t k rows = if invalid_key k then rows else finish t k failed raised rows
