-- ===== src/Ledger/Isolation.antt =====
-- What the metrics of a tenant depend on.
use restaurant_ops_copilot.Prelude.{
  ℕ, ◌≡◌, refl, ◌∙◌, true, false, List, [], ◌∷◌, ◌++◌, arith, Bool-cases, inl, inr, any,
  filter_rows, ◌==◌, ◌||◌,
}
use restaurant_ops_copilot.Values.{Numbers}
use restaurant_ops_copilot.Ledger.{EvaluationRecord, is_invalid}
use restaurant_ops_copilot.Ledger.Listing.{
  Observation, same_record, record_all, accepted, Ticks, ledger_lists_accepted,
}
use restaurant_ops_copilot.Ledger.Metrics.{foreign, aggregate, evaluate, metrics}

module _ (N : Numbers) (t : ℕ) where
  open N use {Num}

  -- The observations of the tenant.
  abbrev pub own : List (Observation Num) → List (Observation Num)
  own os = filter_rows (λ o. o.observation.tenant_id == t) os

  abbrev own_records : List (EvaluationRecord Num) → List (EvaluationRecord Num)
  own_records rs = filter_rows (λ r. r.tenant_id == t) rs

  any-own_records :
      (r : EvaluationRecord Num) (rs : List (EvaluationRecord Num))
      → r.tenant_id == t ≡ true
      → any (same_record N r) (own_records rs) ≡ any (same_record N r) rs
  any-own_records r [] mine = refl
  any-own_records r (q ∷ rs) mine = ground (arith, any-own_records r rs)

  own_records-append :
      (rs : List (EvaluationRecord Num)) (r : EvaluationRecord Num)
      → r.tenant_id == t ≡ true
      → own_records (rs ++ r ∷ []) ≡ own_records rs ++ r ∷ []
  own_records-append [] r mine = rw mine refl
  own_records-append (q ∷ rs) r mine = ground (arith, own_records-append rs r mine)

  own_records-foreign :
      (rs : List (EvaluationRecord Num)) (r : EvaluationRecord Num)
      → r.tenant_id == t ≡ false
      → own_records (rs ++ r ∷ []) ≡ own_records rs
  own_records-foreign [] r other = rw other refl
  own_records-foreign (q ∷ rs) r other = ground (arith, own_records-foreign rs r other)

  -- The other tenants' observations do not matter to what is accepted of one tenant's.
  accepted-own :
      (os : List (Observation Num)) (rs : List (EvaluationRecord Num))
      → own_records (accepted N os rs) ≡ accepted N (own os) (own_records rs)
  unfolding accepted
  accepted-own [] rs = refl
  accepted-own (o ∷ os) rs =
      let r : EvaluationRecord Num = o.observation in
      elim (Bool-cases (r.tenant_id == t)) [
        | inl mine ↦ elim (Bool-cases (is_invalid N r || any (same_record N r) rs)) [
          | inl refused ↦ rw mine (
              rw refused
                (rw (any-own_records r rs mine, accepted) (rw refused (accepted-own os rs))))
          | inr taken_in ↦ rw mine (
              rw taken_in (
                rw (any-own_records r rs mine, accepted)
                  (rw taken_in
                    (accepted-own os (rs ++ r ∷ []) ∙ rw (own_records-append rs r mine) refl))))
        ]
        | inr other ↦ elim (Bool-cases (is_invalid N r || any (same_record N r) rs)) [
          | inl refused ↦ rw other (rw refused (accepted-own os rs))
          | inr taken_in ↦ rw other (
              rw taken_in
                (accepted-own os (rs ++ r ∷ []) ∙ rw (own_records-foreign rs r other) refl))
        ]
      ]

  none_foreign :
      (round_4 : Num → Num) (rs : List (EvaluationRecord Num))
      → any (foreign N round_4 t) (own_records rs) ≡ false
  none_foreign round_4 [] = refl
  none_foreign round_4 (r ∷ rs) = ground (arith, none_foreign round_4 rs)

  -- Whatever observations of whatever tenants are recorded in an empty table, with a clock that
  -- advances from each to the next, the metrics of a tenant are those of its own accepted
  -- observations alone: no other tenant's observation changes them, and the records are never refused
  -- as foreign.
  pub metrics_of_own :
      (round_4 : Num → Num) (os : List (Observation Num))
      → Ticks N 0 os
      → metrics N round_4 t (record_all N os []) ≡ aggregate N round_4 (accepted N (own os) [])
  unfolding metrics evaluate
  metrics_of_own round_4 os ticks =
      rw (ledger_lists_accepted N t os ticks)
        (rw (none_foreign round_4 (accepted N os [])) (rw (accepted-own os []) refl))
