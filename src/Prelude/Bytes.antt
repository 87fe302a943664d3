-- ===== src/Prelude/Bytes.antt =====
-- The laws of `&` and `^` on bytes that masked comparison rests on, at every width.
use Prim.Native.Nat.{ℕ, zero, suc, ◌+◌, ◌-◌, ◌*◌, ◌/◌, ◌%◌, ◌≤◌, ◌<◌, min, max}
use Prim.Native.Nat.{bit_and, bit_xor, bitwise, digits, differ, bit_and-bitwise, bit_xor-bitwise}
use mathlib.Core.Path.{◌≡◌, refl}
use mathlib.Core.Logic.{◌↔◌}
use native.Mathlib.Omega.{arith}

-- A bitwise operation on the halves and on the lowest digits.
module _ (rest : ℕ → ℕ) (digit : ℕ → ℕ → ℕ) where
  -- Fuel that is no less than the first number gives what the operation means.
  digits-bitwise :
      (bound fuel x y : ℕ)
      → x ≤ bound
      → x ≤ fuel
      → digits rest digit fuel x y ≡ bitwise rest digit x y
  digits-bitwise bound zero zero y low enough = refl
  digits-bitwise bound (suc fuel) zero y low enough = refl
  digits-bitwise bound zero (suc x) y low enough = absurd (omega arith)
  digits-bitwise zero (suc fuel) (suc x) y low enough = absurd (omega arith)
  digits-bitwise (suc bound) (suc fuel) (suc x) y low enough =
      let here = digits-bitwise bound fuel (suc x / 2) (y / 2) (omega arith) (omega arith) in
      let there = digits-bitwise bound x (suc x / 2) (y / 2) (omega arith) (omega arith) in
      omega (arith, here, there)

  bitwise-halves :
      (x y : ℕ)
      → bitwise rest digit (suc x) y
        ≡ digit (suc x % 2) (y % 2) + 2 * bitwise rest digit (suc x / 2) (y / 2)
  bitwise-halves x y =
      omega (arith, digits-bitwise x x (suc x / 2) (y / 2) (omega arith) (omega arith))

pub bit_and_step : (x y : ℕ) → bit_and x y ≡ min (x % 2) (y % 2) + 2 * bit_and (x / 2) (y / 2)
bit_and_step zero y = simp bit_and-bitwise (omega arith)
bit_and_step (suc x) y = simp bit_and-bitwise (bitwise-halves (λ _. 0) min x y)

differ_lem : (x y : ℕ) → x < 2 → y < 2 → differ x y ≡ max x y - min x y
differ_lem zero y p q = omega arith
differ_lem (suc zero) zero p q = refl
differ_lem (suc zero) (suc zero) p q = refl
differ_lem (suc zero) (suc (suc y)) p q = absurd (omega arith)
differ_lem (suc (suc x)) y p q = absurd (omega arith)

bit_xor_step :
    (x y : ℕ)
    → bit_xor x y ≡ max (x % 2) (y % 2) - min (x % 2) (y % 2) + 2 * bit_xor (x / 2) (y / 2)
bit_xor_step zero y = simp bit_xor-bitwise (omega arith)
bit_xor_step (suc x) y =
    rw (← differ_lem (suc x % 2) (y % 2) (omega arith) (omega arith))
      (simp bit_xor-bitwise (bitwise-halves (λ z. z) differ x y))

bit_and-zero_below : (bound x : ℕ) → x ≤ bound → bit_and x 0 ≡ 0
bit_and-zero_below zero x low = let none_left : x ≡ 0 = omega arith in rw none_left refl
bit_and-zero_below (suc bound) x low =
    omega (arith, bit_and_step x 0, bit_and-zero_below bound (x / 2) (omega arith))

pub bit_and-zero : (x : ℕ) → bit_and x 0 ≡ 0
bit_and-zero x = bit_and-zero_below x x (omega arith)

bit_xor_half : (d v : ℕ) → bit_xor d v / 2 ≡ bit_xor (d / 2) (v / 2)
bit_xor_half d v = omega (arith, bit_xor_step d v)

bit_xor_low : (d v : ℕ) → bit_xor d v % 2 ≡ max (d % 2) (v % 2) - min (d % 2) (v % 2)
bit_xor_low d v = omega (arith, bit_xor_step d v)

masked_xor_fuel :
    (n d v m : ℕ) → m ≤ n → bit_and v m ≡ v → (bit_and (bit_xor d v) m ≡ 0) ↔ (bit_and d m ≡ v)
masked_xor_fuel zero d v zero h inv =
    omega (arith, bit_and-zero d, bit_and-zero v, bit_and-zero (bit_xor d v))
masked_xor_fuel zero d v (suc m) h inv = absurd (omega arith)
masked_xor_fuel (suc n) d v m h inv =
    let inner : bit_and (v / 2) (m / 2) ≡ v / 2 = omega (arith, bit_and_step v m) in
    let ih = masked_xor_fuel n (d / 2) (v / 2) (m / 2) (omega arith) inner in
    let step = bit_and_step (bit_xor d v) m in
    let half = bit_xor_half d v in
    let low = bit_xor_low d v in
    (
      λ e.
          let z : bit_and (bit_xor d v / 2) (m / 2) ≡ 0 = omega (arith, step) in
          omega (arith, step, low, bit_and_step d m, bit_and_step v m, ih.0 (rw half at z)),
      λ e.
          let y : bit_and (d / 2) (m / 2) ≡ v / 2 =
            omega (arith, bit_and_step d m, bit_and_step v m) in
          let z : bit_and (bit_xor d v / 2) (m / 2) ≡ 0 = rw half (ih.1 y) in
          omega (arith, step, low, z, bit_and_step d m, bit_and_step v m),
    )

-- The test of masked comparison, `((data ^ value) & mask) == 0`, is `(data & mask) == value`,
-- when the value has no bit outside the mask.
pub masked_xor : (d v m : ℕ) → bit_and v m ≡ v → (bit_and (bit_xor d v) m ≡ 0) ↔ (bit_and d m ≡ v)
masked_xor d v m = masked_xor_fuel m d v m (omega arith)

bit_and_bounds_fuel :
    (n v m : ℕ) → m ≤ n → (bit_and v m ≤ m) × (bit_and (bit_and v m) m ≡ bit_and v m)
bit_and_bounds_fuel zero v zero h = omega (arith, bit_and-zero v, bit_and-zero (bit_and v 0))
bit_and_bounds_fuel zero v (suc m) h = absurd (omega arith)
bit_and_bounds_fuel (suc n) v m h =
    let (below, again) = bit_and_bounds_fuel n (v / 2) (m / 2) (omega arith) in
    let half : bit_and v m / 2 ≡ bit_and (v / 2) (m / 2) = omega (arith, bit_and_step v m) in
    let twice : bit_and (bit_and v m / 2) (m / 2) ≡ bit_and v m / 2 = rw half again in
    (
      omega (arith, bit_and_step v m, below),
      omega (arith, bit_and_step v m, bit_and_step (bit_and v m) m, twice),
    )

-- Masking a byte keeps it below the mask, and masking it again changes nothing.
pub bit_and_bounds : (v m : ℕ) → (bit_and v m ≤ m) × (bit_and (bit_and v m) m ≡ bit_and v m)
bit_and_bounds v m = bit_and_bounds_fuel m v m (omega arith)
