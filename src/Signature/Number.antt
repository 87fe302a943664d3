-- ===== src/Signature/Number.antt =====
-- include/libhat/strconv.hpp: the number that `parse_int` of an unsigned type reads.
use libhat.Prelude.{ℕ, ◌+◌, ◌*◌, ◌%◌, ◌^◌, ◌/◌, ◌≤◌, ◌<◌, ◌≡◌, refl, sym, ap, ◌∙◌}
use libhat.Prelude.{List, [], ◌∷◌, Option, none, some, length, arith}
use native.Mathlib.Nat.{
  one-le-pow, pow-zero, pow-suc, mod-add-div, add-mul-mod_self_left, mod-eq_of_lt, mod-lt,
}
use libhat.Signature.Element.{Result}
use libhat.Signature.ParseInt.{ParseIntError, illegal_char, char_value, parse_digits}

abbrev pub add_digit : ℕ → Option ℕ → Option ℕ → Option ℕ
add_digit power (some d) (some below) = some (d * power + below)
add_digit power _ _ = none

-- The number that a text denotes in positional notation, if all its characters are digits: each counts
-- with a power of the base. The empty text is 0.
unfoldable pub number : ℕ → List ℕ → Option ℕ
number base [] = some 0
number base (ch ∷ rest) = add_digit (base ^ length rest) (char_value base ch) (number base rest)

-- A number as the code returns it for an unsigned type, in `w` bits.
abbrev pub in_word : ℕ → Option ℕ → Result ParseIntError ℕ
in_word w (some n) = Result.ok (n % 2 ^ w)
in_word w none = Result.err illegal_char

-- The remainder may be taken early.
mod-horner : (m x y z : ℕ) → (x % m * y + z) % m ≡ (x * y + z) % m
mod-horner m x y z =
    let product : (x % m + m * (x / m)) * y ≡ x * y = ap (λ t. t * y) (mod-add-div x m) in
    let split : x * y + z ≡ x % m * y + z + m * (x / m * y) = omega (arith, product) in
    sym (ap (λ t. t % m) split ∙ add-mul-mod_self_left (x % m * y + z) m (x / m * y))

mod-horner_twice :
    (m value base d power n : ℕ)
    → ((value * base % m + d) % m * power + n) % m ≡ (value * (power * base) + (d * power + n)) % m
mod-horner_twice m value base d power n =
    let same : value * base * power + (d * power + n) ≡ value * (power * base) + (d * power + n) =
      omega arith in
    let outer = mod-horner m (value * base % m + d) power n in
    let regroup : (value * base % m + d) * power + n ≡ value * base % m * power + (d * power + n) =
      omega arith in
    let inner = mod-horner m (value * base) power (d * power + n) in
    outer ∙ ap (λ t. t % m) regroup ∙ inner ∙ ap (λ t. t % m) same

pub pow_pos : (w : ℕ) → 0 < 2 ^ w
pow_pos w = let below : 1 ≤ 2 ^ w = one-le-pow w 2 (omega arith) in omega (arith, below)

abbrev plus_above : ℕ → ℕ → List ℕ → Option ℕ → Option ℕ
plus_above base value text none = none
plus_above base value text (some n) = some (value * base ^ length text + n)

-- What one character does, the rest being read right.
digit_step :
    (w base value ch : ℕ) (rest : List ℕ) (digit below : Option ℕ)
    → ((d : ℕ)
        → parse_digits w base ((value * base % 2 ^ w + d) % 2 ^ w) rest
          ≡ in_word w (plus_above base ((value * base % 2 ^ w + d) % 2 ^ w) rest below))
    → elim digit [
      | some d ↦ parse_digits w base ((value * base % 2 ^ w + d) % 2 ^ w) rest
      | none ↦ Result.err illegal_char
    ]
      ≡ in_word w (plus_above base value (ch ∷ rest) (add_digit (base ^ length rest) digit below))
digit_step w base value ch rest none below ih = refl
digit_step w base value ch rest (some d) none ih = ih d
digit_step w base value ch rest (some d) (some n) ih =
    rw (pow-suc base (length rest))
      (ih d ∙ ap Result.ok (mod-horner_twice (2 ^ w) value base d (base ^ length rest) n))

pub parse_digits-number :
    (w base value : ℕ) (text : List ℕ)
    → value < 2 ^ w
    → parse_digits w base value text ≡ in_word w (plus_above base value text (number base text))
unfolding parse_digits number
parse_digits-number w base value [] h =
    let whole : value * base ^ 0 + 0 ≡ value = rw (pow-zero base) (omega arith) in
    ap Result.ok (sym (ap (λ t. t % 2 ^ w) whole ∙ mod-eq_of_lt h))
parse_digits-number w base value (ch ∷ rest) h =
    let scaled = value * base % 2 ^ w in
    digit_step w base value ch rest (char_value base ch) (number base rest) (λ d.
      parse_digits-number w base ((scaled + d) % 2 ^ w) rest (mod-lt (scaled + d) (pow_pos w)))

pub plus_above_zero : (base : ℕ) (text : List ℕ) (o : Option ℕ) → plus_above base 0 text o ≡ o
plus_above_zero base text none = refl
plus_above_zero base text (some n) =
    let same : 0 * base ^ length text + n ≡ n = omega arith in ap some same
