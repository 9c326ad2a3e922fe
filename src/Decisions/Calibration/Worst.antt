-- ===== src/Decisions/Calibration/Worst.antt =====
-- How `worst_predictions` and `overall_calibration` of Component_2/calibration.py agree.
use mathlib.Core.Path.{subst}
use restaurant_ops_copilot.Prelude.{
  ℕ, zero, suc, Option-cases, Result-cases, ◌*◌, ◌≤◌, ◌≡◌, refl, ap, sym, ◌∙◌, Bool, List, [], ◌∷◌,
  map, ok, Bool-cases, inl, inr, All, All-take, length, take, if◌then◌else◌, ◌==◌, ◌&&◌, ◌||◌, leb,
  ltb, arith,
}
use restaurant_ops_copilot.Prelude.Sorting.{insert_by, sort_by, All-sort_by}
use restaurant_ops_copilot.Values.{Numbers}
use restaurant_ops_copilot.Decisions.{Decision}
use restaurant_ops_copilot.Decisions.Calibration.{
  OverallCalibration, WorstPrediction, is_evaluated, max_worst_predictions_limit, validate_limit,
  errors_of, sum_errors, calibration_of, overall_calibration, worst_prediction, worse,
  worst_predictions, Evaluated,
}

module _ {A : Type 0} where
  length-take_min :
      (n : ℕ) (xs : List A) → length (take n xs) ≡ (if leb n (length xs) then n else length xs)
  length-take_min zero xs = ground arith
  length-take_min (suc n) [] = ground arith
  length-take_min (suc n) (x ∷ xs) = ground (arith, length-take_min n xs)

  length-insert_by :
      (precedes : A → A → Bool) (x : A) (xs : List A)
      → length (insert_by precedes x xs) ≡ suc (length xs)
  length-insert_by precedes x [] = refl
  length-insert_by precedes x (y ∷ xs) = ground (arith, length-insert_by precedes x xs)

  length-sort_by :
      (precedes : A → A → Bool) (xs : List A) → length (sort_by precedes xs) ≡ length xs
  length-sort_by precedes [] = refl
  length-sort_by precedes (x ∷ xs) =
      length-insert_by precedes x (sort_by precedes xs) ∙ ap suc (length-sort_by precedes xs)

  length-map : {B : Type 0} (f : A → B) (xs : List A) → length (map f xs) ≡ length xs
  length-map f [] = refl
  length-map f (x ∷ xs) = ap suc (length-map f xs)

module _ (N : Numbers) (round_4 : N.Num → N.Num) (t : ℕ) where
  open N use {Num, hundredths, is_finite, add, div}

  pub calibration_of-count :
      (xs : List (Decision Num × Num)) (r : OverallCalibration Num)
      → calibration_of N round_4 xs ≡ ok r
      → r.error_count ≡ length xs
  calibration_of-count [] r h = ground arith
  calibration_of-count (x ∷ xs) r h =
      elim (Result-cases (sum_errors N round_4 (hundredths 0) (x ∷ xs))) [
        | inr (e, failed) ↦ absurd (ground arith)
        | inl (total, summed) ↦
            elim (Option-cases (div total (hundredths (length (x ∷ xs) * 100)))) [
              | inl none_left ↦ absurd (ground arith)
              | inr (mean, divided) ↦ ground arith
            ]
      ]

  Evaluated-later :
      (d : Decision Num) (ds : List (Decision Num)) (xs : List (Decision Num × Num))
      → All (λ x. Evaluated N round_4 t ds (worst_prediction N round_4 x)) xs
      → All (λ x. Evaluated N round_4 t (d ∷ ds) (worst_prediction N round_4 x)) xs
  Evaluated-later d ds [] h = tt
  Evaluated-later d ds (x ∷ xs) h = (ground (arith, h.0), Evaluated-later d ds xs h.1)

  errors_of-Evaluated :
      (ds : List (Decision Num))
      → All
          (λ x. Evaluated N round_4 t ds (worst_prediction N round_4 x))
          (errors_of N round_4 t ds)
  unfolding errors_of
  errors_of-Evaluated [] = tt
  errors_of-Evaluated (d ∷ ds) =
      let later = Evaluated-later d ds (errors_of N round_4 t ds) (errors_of-Evaluated ds) in
      elim (Option-cases d.calibration_error) [
        | inl nothing ↦ rw nothing later
        | inr (e, given) ↦
            rw given (elim (Bool-cases (d.tenant_id == t && is_evaluated d.status && is_finite e)) [
              | inl kept ↦ rw kept (ground arith, later)
              | inr dropped ↦ rw dropped later
            ])
      ]

  All-map :
      (P : WorstPrediction Num → Type 0) (xs : List (Decision Num × Num))
      → All (λ x. P (worst_prediction N round_4 x)) xs
      → All P (map (worst_prediction N round_4) xs)
  All-map P [] h = tt
  All-map P (x ∷ xs) h = (h.0, All-map P xs h.1)

  -- Whatever limit and whatever decisions, worst_predictions raises for a limit outside 1 to 100, and
  -- otherwise returns as many predictions as overall_calibration counts, cut at the limit, each of an
  -- evaluated decision of the tenant.
  worst_predictions_cover :
      (limit : ℕ) (ds : List (Decision Num)) (r : OverallCalibration Num)
      (ps : List (WorstPrediction Num))
      → overall_calibration N round_4 t ds ≡ ok r
      → worst_predictions N round_4 t limit ds ≡ ok ps
      → (1 ≤ limit)
        × (limit ≤ max_worst_predictions_limit)
        × (length ps ≡ (if leb limit r.error_count then limit else r.error_count))
        × All (Evaluated N round_4 t ds) ps
  unfolding overall_calibration worst_predictions validate_limit
  worst_predictions_cover limit ds r ps h k =
      let found : List (WorstPrediction Num) =
        map (worst_prediction N round_4) (errors_of N round_4 t ds) in
      let sorted : List (WorstPrediction Num) = sort_by (worse N round_4) found in
      elim (Bool-cases (limit == 0 || ltb max_worst_predictions_limit limit)) [
        | inl refused ↦ absurd (ground arith)
        | inr allowed ↦
            let same : take limit sorted ≡ ps = ground arith in
            let counted : length sorted ≡ r.error_count =
              length-sort_by (worse N round_4) found
              ∙ length-map (worst_prediction N round_4) (errors_of N round_4 t ds)
              ∙ sym (calibration_of-count (errors_of N round_4 t ds) r h) in
            (
              ground arith,
              ground arith,
              ap length (sym same) ∙ length-take_min limit sorted ∙ rw counted refl,
              subst (All (Evaluated N round_4 t ds)) same (
                  All-take (Evaluated N round_4 t ds) limit sorted (
                    All-sort_by (Evaluated N round_4 t ds) (worse N round_4) found (
                      All-map (Evaluated N round_4 t ds) (errors_of N round_4 t ds)
                        (errors_of-Evaluated ds)))),
            )
      ]
