-- ===== src/Base/Calls.antt =====
-- The outcome of a C++ call: a value, or a failed `assert`. `out_of_fuel` has no counterpart in the
-- program: it marks a loop of the model that was given too little fuel.

pub data Outcome {ℓ} (A : Type ℓ) : Type ℓ where
  ok : A → Outcome A
  aborted out_of_fuel : Outcome A

infixl 5 ◌>>=◌
abbrev pub ◌>>=◌ {ℓ κ} : {A : Type ℓ} {B : Type κ} → Outcome A → (A → Outcome B) → Outcome B
ok a >>= f = f a
aborted >>= f = aborted
out_of_fuel >>= f = out_of_fuel
