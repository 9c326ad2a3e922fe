-- ===== src/Ledger/Listing.antt =====
-- What `EvaluationLedger` of Component_7/observability.py lists.
use restaurant_ops_copilot.Prelude.{
  ℕ, ◌≤◌, ◌<◌, ◌≡◌, refl, ap, ◌∙◌, Bool, false, List, [], ◌∷◌, ◌++◌, map, ok, err, arith, inl, inr,
  Bool-cases, All, All-append, All-filter_rows, filter_rows, ◌==◌, any, str_eq, ◌&&◌, ◌||◌,
  if◌then◌else◌,
}
use restaurant_ops_copilot.Prelude.Sorting.{
  sort_by-sorted, Ordered, Ordered-filter_rows, Ordered-append,
}
use restaurant_ops_copilot.Values.{Numbers}
use restaurant_ops_copilot.Ledger.{
  EvaluationRecord, EvaluationRecordRow, new_row, row_fields, earlier, is_invalid,
  evaluation_record, breaks_check, record_observation, rows_to_records, list_for_tenant,
  has_record_id,
}

-- A construction of a record that is given to `record`, with the clock.
pub record Observation (Num : Type 0) : Type 0 where
  pub now : ℕ
  pub observation : EvaluationRecord Num

module _ (N : Numbers) where
  open N use {Num}

  -- The clock advances from each observation to the next.
  abbrev pub Ticks : ℕ → List (Observation Num) → Type 0
  Ticks before [] = Unit
  Ticks before (o ∷ os) = before < o.now × Ticks o.now os

  -- Each observation is built and recorded, its exceptions caught.
  unfoldable pub record_all :
      List (Observation Num) → List (EvaluationRecordRow Num) → List (EvaluationRecordRow Num)
  record_all [] rows = rows
  record_all (o ∷ os) rows = record_all os (elim (evaluation_record N o.observation) [
    | ok r ↦ (record_observation N o.now r rows).1
    | err e ↦ rows
  ])

  -- The same tenant and the same record id.
  abbrev pub same_record : EvaluationRecord Num → EvaluationRecord Num → Bool
  same_record r q = q.tenant_id == r.tenant_id && str_eq q.record_id r.record_id

  -- The reference: valid records are kept in order, the first of each tenant and id.
  unfoldable pub accepted :
      List (Observation Num) → List (EvaluationRecord Num) → List (EvaluationRecord Num)
  accepted [] rs = rs
  accepted (o ∷ os) rs = accepted os (
      if is_invalid N o.observation || any (same_record o.observation) rs
      then rs
      else rs ++ o.observation ∷ [])

  -- Rows in the order of the clock, none later than `before`, each of a valid record.
  abbrev Listed : ℕ → List (EvaluationRecordRow Num) → Type 0
  Listed before rows =
      Ordered earlier rows
      × All (λ x. x.created_at ≤ before) rows
      × All (λ x. is_invalid N (row_fields x) ≡ false) rows

  rows_to_records-valid :
      (rows : List (EvaluationRecordRow Num))
      → All (λ x. is_invalid N (row_fields x) ≡ false) rows
      → rows_to_records N rows ≡ ok (map row_fields rows)
  unfolding rows_to_records evaluation_record
  rows_to_records-valid [] h = refl
  rows_to_records-valid (x ∷ rows) h = rw h.0 (rw (rows_to_records-valid rows h.1) refl)

  filter_rows-row_fields :
      (t : ℕ) (rows : List (EvaluationRecordRow Num))
      → map row_fields (filter_rows (λ x. x.tenant_id == t) rows)
        ≡ filter_rows (λ r. r.tenant_id == t) (map row_fields rows)
  filter_rows-row_fields t [] = refl
  filter_rows-row_fields t (x ∷ rows) = elim (Bool-cases (x.tenant_id == t)) [
    | inl own ↦ rw own (ap (λ rs. row_fields x ∷ rs) (filter_rows-row_fields t rows))
    | inr foreign ↦ rw foreign (filter_rows-row_fields t rows)
  ]

  any-row_fields :
      (r : EvaluationRecord Num) (rows : List (EvaluationRecordRow Num))
      → any (has_record_id r.tenant_id r.record_id) rows ≡ any (same_record r) (map row_fields rows)
  any-row_fields r [] = refl
  any-row_fields r (x ∷ rows) = rw (any-row_fields r rows) refl

  map-append :
      (rows : List (EvaluationRecordRow Num)) (e : EvaluationRecordRow Num)
      → map row_fields (rows ++ e ∷ []) ≡ map row_fields rows ++ row_fields e ∷ []
  map-append [] e = refl
  map-append (x ∷ rows) e = ap (λ rs. row_fields x ∷ rs) (map-append rows e)

  -- A valid record breaks no CHECK.
  valid-checked :
      (now : ℕ) (r : EvaluationRecord Num)
      → is_invalid N r ≡ false
      → breaks_check N (new_row now r) ≡ false
  unfolding is_invalid breaks_check
  valid-checked now r h = ground arith

  list_for_tenant-Listed :
      (t before : ℕ) (rows : List (EvaluationRecordRow Num))
      → Listed before rows
      → list_for_tenant N t rows ≡ ok (filter_rows (λ r. r.tenant_id == t) (map row_fields rows))
  unfolding list_for_tenant
  list_for_tenant-Listed t before rows h =
      rw
        (sort_by-sorted earlier (filter_rows (λ x. x.tenant_id == t) rows)
          (Ordered-filter_rows earlier (λ x. x.tenant_id == t) rows h.0))
        (rows_to_records-valid (filter_rows (λ x. x.tenant_id == t) rows) (
            All-filter_rows (λ x. is_invalid N (row_fields x) ≡ false) (λ x. x.tenant_id == t) rows
              h.2)
          ∙ ap ok (filter_rows-row_fields t rows))

  All-later :
      (before now : ℕ) (rows : List (EvaluationRecordRow Num))
      → before ≤ now
      → All (λ x. x.created_at ≤ before) rows
      → All (λ x. x.created_at ≤ now) rows
  All-later before now [] le h = tt
  All-later before now (x ∷ rows) le h = (omega arith, All-later before now rows le h.1)

  All-not_earlier :
      (now : ℕ) (r : EvaluationRecord Num) (rows : List (EvaluationRecordRow Num))
      → All (λ x. x.created_at ≤ now) rows
      → All (λ x. earlier (new_row now r) x ≡ false) rows
  All-not_earlier now r [] h = tt
  All-not_earlier now r (x ∷ rows) h = (ground arith, All-not_earlier now r rows h.1)

  -- A valid observation with a new id adds its row at the end.
  Listed-append :
      (before now : ℕ) (r : EvaluationRecord Num) (rows : List (EvaluationRecordRow Num))
      → before ≤ now
      → is_invalid N r ≡ false
      → Listed before rows
      → Listed now (rows ++ new_row now r ∷ [])
  Listed-append before now r rows le v h =
      let older : All (λ x. x.created_at ≤ now) rows = All-later before now rows le h.1 in
      let last : now ≤ now = omega arith in
      (
        Ordered-append earlier rows (new_row now r) h.0 (All-not_earlier now r rows older),
        All-append (λ x. x.created_at ≤ now) rows (new_row now r ∷ []) older (last, tt),
        All-append (λ x. is_invalid N (row_fields x) ≡ false) rows (new_row now r ∷ []) h.2 (v, tt),
      )

  Listed-later :
      (before now : ℕ) (rows : List (EvaluationRecordRow Num))
      → before ≤ now
      → Listed before rows
      → Listed now rows
  Listed-later before now rows le h = (h.0, All-later before now rows le h.1, h.2)

  -- From any table in the order of the clock.
  lists_after :
      (t before : ℕ) (os : List (Observation Num)) (rows : List (EvaluationRecordRow Num))
      → Ticks before os
      → Listed before rows
      → list_for_tenant N t (record_all os rows)
        ≡ ok (filter_rows (λ r. r.tenant_id == t) (accepted os (map row_fields rows)))
  unfolding record_all accepted evaluation_record record_observation
  lists_after t before [] rows ticks h = list_for_tenant-Listed t before rows h
  lists_after t before (o ∷ os) rows ticks h =
      let r : EvaluationRecord Num = o.observation in
      let le : before ≤ o.now = omega arith in
      let stays : Listed o.now rows = Listed-later before o.now rows le h in
      let same : any (has_record_id r.tenant_id r.record_id) rows
          ≡ any (same_record r) (map row_fields rows) =
        any-row_fields r rows in
      elim (Bool-cases (is_invalid N r)) [
        | inl raised ↦ rw raised (lists_after t o.now os rows ticks.1 stays)
        | inr valid ↦ elim (Bool-cases (any (same_record r) (map row_fields rows))) [
          | inl taken ↦
              rw valid (rw taken (rw (same ∙ taken) (lists_after t o.now os rows ticks.1 stays)))
          | inr new ↦ rw valid (
              rw new (
                rw (same ∙ new) (
                  rw (valid-checked o.now r valid) (
                    lists_after t o.now os (rows ++ new_row o.now r ∷ []) ticks.1
                      (Listed-append before o.now r rows le valid h)
                    ∙ rw (map-append rows (new_row o.now r)) refl))))
        ]
      ]

  -- Whatever observations are built and recorded, from an empty table and with a clock that advances
  -- from each to the next, a tenant's list holds its valid observations in the order of their
  -- recording, the first of each record id, as they were given; it never raises.
  pub ledger_lists_accepted :
      (t : ℕ) (os : List (Observation Num))
      → Ticks 0 os
      → list_for_tenant N t (record_all os [])
        ≡ ok (filter_rows (λ r. r.tenant_id == t) (accepted os []))
  ledger_lists_accepted t os ticks = lists_after t 0 os [] ticks (tt, tt, tt)
