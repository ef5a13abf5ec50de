-- ===== src/Prelude/Failure.antt =====
-- `MapacheError` and `Result` of common/error.rs. The messages are left out.

-- The variants that the modelled code returns.
pub data MapacheError : Type 0 where
  format integrity crypto compression repo backend locked not_in_index internal io : MapacheError
  -- No value of the program: a panic, or the model out of fuel.
  panicked : MapacheError

pub data Result {ℓ} (A : Type ℓ) : Type ℓ where
  err : MapacheError → Result A
  ok : A → Result A

-- The operator `?`.
infixl 5 ◌>>=◌
abbrev pub ◌>>=◌ {ℓ κ} : {A : Type ℓ} {B : Type κ} → Result A → (A → Result B) → Result B
err e >>= next = err e
ok value >>= next = next value
