-- ===== src/Prelude/Traces.antt =====
-- Sequences of operations, by any number of callers in any order, on one state.
use restaurant_ops_copilot.Prelude.{
  ℕ, ◌+◌, ◌≤◌, ◌≡◌, refl, Bool, true, false, List, [], ◌∷◌, arith, Bool-cases, inl, inr,
  if◌then◌else◌,
}

module _ {Op S : Type 0} (step : Op → S → S) where
  abbrev pub run_all : List Op → S → S
  run_all [] s = s
  run_all (o ∷ os) s = run_all os (step o s)

  pub run_all-keeps :
      (P : S → Type 0)
      → ((o : Op) (s : S) → P s → P (step o s))
      → (os : List Op) (s : S) → P s
      → P (run_all os s)
  run_all-keeps P keeps [] s h = h
  run_all-keeps P keeps (o ∷ os) s h = run_all-keeps P keeps os (step o s) (keeps o s h)

  module _ (wins : Op → S → Bool) where
    -- how many operations of the sequence win
    abbrev pub wins_in : List Op → S → ℕ
    wins_in [] s = 0
    wins_in (o ∷ os) s = (if wins o s then 1 else 0) + wins_in os (step o s)

    -- A win closes the state, a closed state stays closed, and nobody wins in it.
    module _ (Closed : S → Type 0) (closes : (o : Op) (s : S) → wins o s ≡ true → Closed (step o s))
        (stays : (o : Op) (s : S) → Closed s → Closed (step o s))
        (shut : (o : Op) (s : S) → Closed s → wins o s ≡ false) where
      pub no_wins : (os : List Op) (s : S) → Closed s → wins_in os s ≡ 0
      no_wins [] s h = refl
      no_wins (o ∷ os) s h = rw (shut o s h) (ground (arith, no_wins os (step o s) (stays o s h)))

      pub at_most_one : (os : List Op) (s : S) → wins_in os s ≤ 1
      at_most_one [] s = ground arith
      at_most_one (o ∷ os) s = elim (Bool-cases (wins o s)) [
        | inl won ↦ rw won (ground (arith, no_wins os (step o s) (closes o s won)))
        | inr lost ↦ rw lost (ground (arith, at_most_one os (step o s)))
      ]
