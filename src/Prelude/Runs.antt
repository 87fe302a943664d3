-- ===== src/Prelude/Runs.antt =====
-- The outcome of a C++ call.
-- How a call ends: with a value, by an exception, or in a state that C++ leaves undefined.
pub data Run {ℓ} (A : Type ℓ) : Type ℓ where
  done : A → Run A
  thrown : Run A
  undefined : Run A
