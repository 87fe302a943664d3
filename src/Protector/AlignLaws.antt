-- ===== src/Protector/AlignLaws.antt =====
-- What masking off the low bits does, at every power of two.
use libhat.Prelude.{
  ℕ, zero, suc, ◌+◌, ◌-◌, ◌*◌, ◌/◌, ◌%◌, ◌^◌, ◌≤◌, ◌<◌, ◌≡◌, refl, sym, ap, ◌∙◌, bit_and,
  bit_and_step, arith,
}
use native.Mathlib.Nat.{
  one-le-pow, pow-zero, pow-suc, mod-eq_of_lt, mod-lt, div-add-mod', mul-add-mod_self_right,
  mul-mod_left,
}
use libhat.Protector.Align.{complement, fast_align_down, fast_align_up}

pub pow_pos : (w : ℕ) → 0 < 2 ^ w
pow_pos w = let below : 1 ≤ 2 ^ w = one-le-pow w 2 (omega arith) in omega (arith, below)

bit_and-ones : (w a : ℕ) → a < 2 ^ w → bit_and a (2 ^ w - 1) ≡ a
bit_and-ones zero a h =
    let low : a ≡ 0 = omega (arith, pow-zero 2) in
    let mask : 2 ^ zero - 1 ≡ 0 = omega (arith, pow-zero 2) in rw (low, mask) refl
bit_and-ones (suc w) a h =
    let one = pow_pos w in
    let double = pow-suc 2 w in
    let half : (2 ^ suc w - 1) / 2 ≡ 2 ^ w - 1 = omega (arith, double, one) in
    let odd : (2 ^ suc w - 1) % 2 ≡ 1 = omega (arith, double, one) in
    let ih = bit_and-ones w (a / 2) (omega (arith, double)) in
    bit_and_step a (2 ^ suc w - 1) ∙ rw (half, odd, ih) (omega arith)

-- The last bits of a number, and the bit in front of them.
mod_double : (a m : ℕ) → 0 < m → a % (m * 2) ≡ a / 2 % m * 2 + a % 2
mod_double a m pos =
    let r = a / 2 % m * 2 + a % 2 in
    let low = mod-lt (a / 2) pos in
    let whole : a / 2 / m * (m * 2) + r ≡ a = omega (arith, div-add-mod' (a / 2) m) in
    ap (λ t. t % (m * 2)) (sym whole)
    ∙ mul-add-mod_self_right (a / 2 / m) (m * 2) r
    ∙ mod-eq_of_lt (omega (arith, low))

bit_and-high : (k w a : ℕ) → k ≤ w → a < 2 ^ w → bit_and a (2 ^ w - 2 ^ k) ≡ a - a % 2 ^ k
bit_and-high zero w a le h = let one = pow-zero 2 in rw one (bit_and-ones w a h ∙ omega arith)
bit_and-high (suc k) zero a le h = absurd (omega arith)
bit_and-high (suc k) (suc w) a le h =
    let double = pow-suc 2 w in
    let double' = pow-suc 2 k in
    let half : (2 ^ suc w - 2 ^ suc k) / 2 ≡ 2 ^ w - 2 ^ k = omega (arith, double, double') in
    let even : (2 ^ suc w - 2 ^ suc k) % 2 ≡ 0 = omega (arith, double, double') in
    let ih = bit_and-high k w (a / 2) (omega arith) (omega (arith, double)) in
    let low = mod_double a (2 ^ k) (pow_pos k) in
    bit_and_step a (2 ^ suc w - 2 ^ suc k) ∙ rw (half, even, ih, double') (omega (arith, low))

complement_lem : (k : ℕ) → k ≤ 64 → complement 64 (2 ^ k - 1) ≡ 2 ^ 64 - 2 ^ k
complement_lem k le = omega (arith, pow_pos k)

-- For a power of two up to 2 ^ 64 and a number below 2 ^ 64, `fast_align_down` takes off the
-- remainder.
pub fast_align_down_lem :
    (k address : ℕ)
    → k ≤ 64
    → address < 2 ^ 64
    → fast_align_down address (2 ^ k) ≡ address - address % 2 ^ k
unfolding fast_align_down
fast_align_down_lem k address le lt = rw (complement_lem k le) (bit_and-high k 64 address le lt)

multiple : (a m : ℕ) → 0 < m → (a - a % m) % m ≡ 0
multiple a m pos =
    let whole : a - a % m ≡ a / m * m = omega (arith, div-add-mod' a m) in
    ap (λ t. t % m) whole ∙ mul-mod_left (a / m) m

-- For a power of two up to 2 ^ 64 and a sum that does not wrap round, `fast_align_up` gives a
-- multiple of it, not below the number and less than one step above it.
pub fast_align_up_lem :
    (k address : ℕ)
    → k ≤ 64
    → address + 2 ^ k ≤ 2 ^ 64
    → (fast_align_up address (2 ^ k) % 2 ^ k ≡ 0)
      × (address ≤ fast_align_up address (2 ^ k))
      × (fast_align_up address (2 ^ k) < address + 2 ^ k)
unfolding fast_align_up
fast_align_up_lem k address le fits =
    let pos = pow_pos k in
    let sum = address + 2 ^ k - 1 in
    let small : sum < 2 ^ 64 = omega (arith, pos) in
    let down = bit_and-high k 64 sum le small in
    let low = mod-lt sum pos in
    rw (mod-eq_of_lt small, complement_lem k le, down)
      (multiple sum (2 ^ k) pos, omega (arith, low), omega (arith, pos))
