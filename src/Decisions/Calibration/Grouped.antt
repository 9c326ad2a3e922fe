-- ===== src/Decisions/Calibration/Grouped.antt =====
-- `calibration_by_action_type` of Component_2/calibration.py.
use restaurant_ops_copilot.Prelude.{
  ℕ, ◌+◌, ◌*◌, ◌≡◌, refl, ap, sym, ◌∙◌, Bool, true, false, List, [], ◌∷◌, Result, ok, Option-cases,
  Result-cases, inl, inr, ◌⊎◌, length, filter_rows, invalid_operation, or_raise, arith,
}
use restaurant_ops_copilot.Prelude.Fallible.{◌>>=◌}
use restaurant_ops_copilot.Values.{
  Numbers, ActionType, price_change, supplier_switch, menu_swap, staffing_change,
}
use restaurant_ops_copilot.Decisions.{Decision}
use restaurant_ops_copilot.Decisions.Calibration.{
  OverallCalibration, errors_of, sum_errors, overall_calibration,
}
use restaurant_ops_copilot.Decisions.Calibration.Worst.{calibration_of-count}

pub record ActionCalibration (Num : Type 0) : Type 0 where
  pub action_type : ActionType
  pub error_count : ℕ
  pub mean_calibration_error : Num

abbrev is_action : ActionType → ActionType → Bool
is_action price_change price_change = true
is_action supplier_switch supplier_switch = true
is_action menu_swap menu_swap = true
is_action staffing_change staffing_change = true
is_action _ _ = false

-- in the order of their names
abbrev sorted_actions : List ActionType
sorted_actions = menu_swap ∷ price_change ∷ staffing_change ∷ supplier_switch ∷ []

module _ (N : Numbers) (round_4 : N.Num → N.Num) where
  open N use {Num, hundredths, div}

  -- `grouped_errors[k]`
  abbrev group : ActionType → List (Decision Num × Num) → List (Decision Num × Num)
  group k xs = filter_rows (λ x. is_action k x.0.action_type) xs

  -- an action type without errors is no key
  abbrev with_group :
      ActionType
      → List (Decision Num × Num)
      → Result (List (ActionCalibration Num))
      → Result (List (ActionCalibration Num))
  with_group k [] rest = rest
  with_group k (x ∷ xs) rest = do
    total ← sum_errors N round_4 (hundredths 0) (x ∷ xs)
    mean ← or_raise (div total (hundredths (length (x ∷ xs) * 100))) invalid_operation
    others ← rest
    ok (
        record {
          action_type = k;
          error_count = length (x ∷ xs);
          mean_calibration_error = round_4 mean;
        }
        ∷ others)

  abbrev grouped :
      List ActionType → List (Decision Num × Num) → Result (List (ActionCalibration Num))
  grouped [] xs = ok []
  grouped (k ∷ ks) xs = with_group k (group k xs) (grouped ks xs)

  unfoldable pub calibration_by_action_type :
      ℕ → List (Decision Num) → Result (List (ActionCalibration Num))
  calibration_by_action_type t ds = grouped sorted_actions (errors_of N round_4 t ds)

  abbrev counts : List (ActionCalibration Num) → ℕ
  counts [] = 0
  counts (g ∷ gs) = g.error_count + counts gs

  abbrev sizes : List ActionType → List (Decision Num × Num) → ℕ
  sizes [] xs = 0
  sizes (k ∷ ks) xs = length (group k xs) + sizes ks xs

  with_group-counts :
      (k : ActionType) (xs : List (Decision Num × Num))
      (rest : Result (List (ActionCalibration Num))) (gs : List (ActionCalibration Num))
      → with_group k xs rest ≡ ok gs
      → (os : List (ActionCalibration Num)) × (rest ≡ ok os) × (counts gs ≡ length xs + counts os)
  with_group-counts k [] rest gs h = (gs, h, omega arith)
  with_group-counts k (x ∷ xs) rest gs h =
      elim (Result-cases (sum_errors N round_4 (hundredths 0) (x ∷ xs))) [
        | inr (e, failed) ↦ absurd (ground arith)
        | inl (total, summed) ↦
            elim (Option-cases (div total (hundredths (length (x ∷ xs) * 100)))) [
              | inl nothing ↦ absurd (ground arith)
              | inr (mean, divided) ↦ elim (Result-cases rest) [
                | inr (e, failed) ↦ absurd (ground arith)
                | inl (os, remaining) ↦ (os, remaining, ground arith)
              ]
            ]
      ]

  grouped-counts :
      (ks : List ActionType) (xs : List (Decision Num × Num)) (gs : List (ActionCalibration Num))
      → grouped ks xs ≡ ok gs
      → counts gs ≡ sizes ks xs
  grouped-counts [] xs gs h = ground arith
  grouped-counts (k ∷ ks) xs gs h =
      let (os, remaining, sum) = with_group-counts k (group k xs) (grouped ks xs) gs h in
      sum ∙ ap (λ n. length (group k xs) + n) (grouped-counts ks xs os remaining)

  action-cases :
      (a : ActionType)
      → (a ≡ price_change) ⊎ (a ≡ supplier_switch) ⊎ (a ≡ menu_swap) ⊎ (a ≡ staffing_change)
  action-cases price_change = inl refl
  action-cases supplier_switch = inr (inl refl)
  action-cases menu_swap = inr (inr (inl refl))
  action-cases staffing_change = inr (inr (inr refl))

  -- Every error is in one group.
  sizes-length : (xs : List (Decision Num × Num)) → sizes sorted_actions xs ≡ length xs
  sizes-length [] = refl
  sizes-length (x ∷ xs) = elim (action-cases x.0.action_type) [
    | inl same ↦ rw same (omega (arith, sizes-length xs))
    | inr (inl same) ↦ rw same (omega (arith, sizes-length xs))
    | inr (inr (inl same)) ↦ rw same (omega (arith, sizes-length xs))
    | inr (inr (inr same)) ↦ rw same (omega (arith, sizes-length xs))
  ]

  -- Where both reports of a tenant's calibration return, the counts of the action types add up to the
  -- overall count: no valid error is lost or counted twice.
  grouped_counts_add_up :
      (t : ℕ) (ds : List (Decision Num)) (r : OverallCalibration Num)
      (gs : List (ActionCalibration Num))
      → overall_calibration N round_4 t ds ≡ ok r
      → calibration_by_action_type t ds ≡ ok gs
      → counts gs ≡ r.error_count
  unfolding overall_calibration calibration_by_action_type
  grouped_counts_add_up t ds r gs h k =
      grouped-counts sorted_actions (errors_of N round_4 t ds) gs k
      ∙ sizes-length (errors_of N round_4 t ds)
      ∙ sym (calibration_of-count N round_4 t (errors_of N round_4 t ds) r h)
