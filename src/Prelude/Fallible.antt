-- ===== src/Prelude/Fallible.antt =====
-- `do` for pure code that may raise: a `Result` in place of a value.
use restaurant_ops_copilot.Prelude.{Result, ok, err}

infixl 5 ◌>>=◌
abbrev pub ◌>>=◌ {ℓ κ} : {A : Type ℓ} {B : Type κ} → Result A → (A → Result B) → Result B
ok a >>= f = f a
err e >>= f = err e
