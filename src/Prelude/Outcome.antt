-- ===== src/Prelude/Outcome.antt =====
-- Code that reads and writes a database and may raise. The state comes back beside an error as
-- well: what an earlier transaction committed stays committed.
use mathlib.Core.Path.{◌≡◌, refl, ◌∙◌}
use mathlib.Core.Logic.{◌⊎◌, inl, inr}
use mathlib.Core.Bool.{Bool}
use mathlib.Core.Option.{Option, none, some}
use restaurant_ops_copilot.Prelude.Tests.{if◌then◌else◌}

-- The exceptions of the program, and those of Python and of the libraries that reach its code.
pub data Error : Type 0 where
  value_error type_error key_error invalid_operation : Error
  tool_framework tool_busy unsupported_action : Error
  decision_not_found decision_state invalid_prediction simulator_input : Error
  key_reuse tenant_isolation invalid_event chain_corrupted event_store : Error
  integrity unavailable : Error
  candidate_validation llm_reasoner unbound_local : Error

pub data Result {ℓ} (A : Type ℓ) : Type ℓ where
  ok : A → Result A
  err : Error → Result A

-- A missing value raises.
abbrev pub or_raise {ℓ} : {A : Type ℓ} → Option A → Error → Result A
or_raise none e = err e
or_raise (some a) e = ok a

abbrev pub Exec : Type 0 → Type 0 → Type 0
Exec S A = S → Result A × S

module _ {S A : Type 0} where
  abbrev pub pure : A → Exec S A
  pure a s = (ok a, s)

  abbrev pub raise : Error → Exec S A
  raise e s = (err e, s)

  abbrev pub lift : Result A → Exec S A
  lift r s = (r, s)

  abbrev pub gets : (S → A) → Exec S A
  gets f s = (ok (f s), s)

  -- `with get_db_context(...)`: commit on success, roll back and raise again on failure.
  abbrev pub transaction : Exec S A → Exec S A
  transaction m s = elim (m s).0 [ ok a ↦ (ok a, (m s).1) | err e ↦ (err e, s) ]

infixl 5 ◌>>=◌ ◌>>◌
abbrev pub ◌>>=◌ : {S A B : Type 0} → Exec S A → (A → Exec S B) → Exec S B
◌>>=◌ m f s = elim (m s).0 [ ok a ↦ f a (m s).1 | err e ↦ (err e, (m s).1) ]

abbrev pub ◌>>◌ : {S A B : Type 0} → Exec S A → Exec S B → Exec S B
m >> k = m >>= λ _. k

module _ {S : Type 0} where
  abbrev pub raise_if : Bool → Error → Exec S (Unit {0})
  raise_if c e s = (if c then err e else ok tt, s)

  abbrev pub modify : (S → S) → Exec S (Unit {0})
  modify f s = (ok tt, f s)

module _ {S A B C : Type 0} (f : S → C) where
  after_bind :
      (k : A → Exec S B) (r : Result A) (s : S) (c : C)
      → f s ≡ c
      → ((a : A) (s : S) → f (k a s).1 ≡ f s)
      → f (elim r as (λ _. Result B × S) [ ok a ↦ k a s | err e ↦ (err e, s) ]).1 ≡ c
  after_bind k (ok a) s c h hk = hk a s ∙ h
  after_bind k (err e) s c h hk = h

  -- What both parts of a sequence leave alone, the sequence leaves alone.
  pub bind-frame :
      (m : Exec S A) (k : A → Exec S B)
      → ((s : S) → f (m s).1 ≡ f s)
      → ((a : A) (s : S) → f (k a s).1 ≡ f s)
      → (s : S) → f ((m >>= k) s).1 ≡ f s
  bind-frame m k hm hk s = after_bind k (m s).0 (m s).1 (f s) (hm s) hk

pub Result-cases {ℓ} :
    {A : Type ℓ} (r : Result A) → ((a : A) × (r ≡ ok a)) ⊎ ((e : Error) × (r ≡ err e))
Result-cases (ok a) = inl (a, refl)
Result-cases (err e) = inr (e, refl)
