-- ===== src/Scanner/Relative.antt =====
-- `rel` finds the target of a relative address that an assembler wrote.
use libhat.Prelude.{
  ℕ, zero, suc, ◌+◌, ◌-◌, ◌/◌, ◌%◌, ◌^◌, ◌<◌, ltb, Bool, true, ◌≡◌, arith, if◌then◌else◌,
}
use native.Mathlib.Nat.{pow-suc, pow-zero}
use libhat.Scanner.Context.{Memory}
use libhat.Scanner.ScanResult.{has_result, read_bytes, read, sign_extend, rel}

-- The bytes of a number stand from an address on, the lowest first.
abbrev pub Stores : Memory → ℕ → ℕ → ℕ → Type 0
Stores mem zero address value = Unit
Stores mem (suc n) address value =
    (mem address ≡ value % 256) × Stores mem n (address + 1) (value / 256)

-- Reading gives back the number that was written, if it fits the bytes.
pub read_bytes-Stores :
    (mem : Memory) (n address value : ℕ)
    → Stores mem n address value
    → value < 256 ^ n
    → read_bytes mem n address ≡ value
unfolding read_bytes
read_bytes-Stores mem zero address value stored fits = omega (arith, pow-zero 256)
read_bytes-Stores mem (suc n) address value (here, rest) fits = omega (
  arith,
  here,
  read_bytes-Stores mem n (address + 1) (value / 256) rest (omega (arith, pow-suc 256 n)),
)

-- The displacement from `next` to `target`, in 32 bits.
abbrev pub displacement : ℕ → ℕ → ℕ
displacement next target = if ltb target next then 2 ^ 32 - (next - target) else target - next

-- The two are no further apart than an `std::int32_t` reaches.
abbrev pub reaches : ℕ → ℕ → Bool
reaches next target =
    if ltb target next then ltb (next - target) (2 ^ 31 + 1) else ltb (target - next) (2 ^ 31)

sign_extend-displacement :
    (next target : ℕ)
    → next < 2 ^ 64
    → target < 2 ^ 64
    → reaches next target ≡ true
    → (next + sign_extend (displacement next target)) % 2 ^ 64 ≡ target
sign_extend-displacement next target small small' near = ground arith

displacement-lt :
    (next target : ℕ) → reaches next target ≡ true → displacement next target < 256 ^ 4
displacement-lt next target near = ground arith

-- If there is a result, the next instruction begins below 2 ^ 64, the target is within the reach
-- of 32 bits of it, and its displacement from there is stored at the offset, `rel` gives the
-- target.
pub rel-Stores :
    (mem : Memory) (result offset remaining target : ℕ)
    → has_result result ≡ true
    → result + offset + 4 + remaining < 2 ^ 64
    → target < 2 ^ 64
    → reaches (result + offset + 4 + remaining) target ≡ true
    → Stores mem 4 (result + offset) (displacement (result + offset + 4 + remaining) target)
    → rel mem result offset remaining ≡ target
unfolding rel read
rel-Stores mem result offset remaining target found small small' near stored =
    let next = result + offset + 4 + remaining in
    let d = displacement next target in
    let value =
      read_bytes-Stores mem 4 (result + offset) d stored (displacement-lt next target near) in
    let sum : result + sign_extend d + offset + 4 + remaining ≡ next + sign_extend d =
      omega arith in
    rw (found, value, sum) (sign_extend-displacement next target small small' near)
