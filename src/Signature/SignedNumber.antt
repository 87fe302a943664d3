-- ===== src/Signature/SignedNumber.antt =====
-- include/libhat/strconv.hpp: what `parse_int` reads, of an unsigned and of a signed type.
use libhat.Prelude.{
  ◌≢◌, Run, ℤ, neg, ℕ, zero, suc, ◌+◌, ◌-◌, ◌*◌, ◌^◌, ◌≤◌, ◌<◌, ◌==◌, ◌≡◌, refl, sym, ap, ◌∙◌,
  subst, ltb, Bool, true, false, ◌||◌, ◌⊎◌, inl, inr, if◌then◌else◌, List, [], ◌∷◌, ◌++◌, Option,
  none, some, length, arith, Bool-cases,
}
use mathlib.Core.Option.{some_inj}
use mathlib.Core.List.{append-nil}
use native.Mathlib.Nat.{one-le-pow, pow-suc, pow-zero}
use libhat.Signature.Element.{Result}
use libhat.Signature.ParseInt.{
  ParseIntError, illegal_char, char_value, parse_signed_digits, parse_sign, apply_sign, parse_int,
  parse_int_signed,
}
use libhat.Signature.Number.{
  number, add_digit, in_word, pow_pos, plus_above_zero, parse_digits-number,
}

-- The value of a text that continues `value` by digits that denote `n`.
abbrev continued : ℕ → ℕ → List ℕ → ℕ → ℕ
continued base value good n = value * base ^ length good + n

horner :
    (value base d power m : ℕ)
    → value * (power * base) + (d * power + m) ≡ (value * base + d) * power + m
horner value base d power m = omega arith

grown : (x power m limit : ℕ) → 1 ≤ power → limit ≤ x → limit ≤ x * power + m
grown x zero m limit pos large = absurd (omega arith)
grown x (suc k) m limit pos large = omega arith

below_product : (n base limit : ℕ) → 1 ≤ base → ltb (n * base) limit ≡ true → ltb n limit ≡ true
below_product n zero limit pos h = absurd (omega arith)
below_product n (suc k) limit pos h = ground arith

add_digit_inv :
    (power n : ℕ) (digit below : Option ℕ)
    → add_digit power digit below ≡ some n
    → (d : ℕ) × (m : ℕ) × (digit ≡ some d) × (below ≡ some m) × (n ≡ d * power + m)
add_digit_inv power n (some d) (some m) h = (d, m, refl, refl, sym (some_inj.0 h))
add_digit_inv power n (some d) none h = absurd (cc h)
add_digit_inv power n none (some m) h = absurd (cc h)
add_digit_inv power n none none h = absurd (cc h)

-- One digit: the product is not larger than the sum, so one test decides.
digit_step :
    (w base value ch d : ℕ) (tail : List ℕ)
    → char_value base ch ≡ some d
    → parse_signed_digits w base value (ch ∷ tail) ≡ (
        if ltb (value * base + d) (2 ^ (w - 1))
        then parse_signed_digits w base (value * base + d) tail
        else Run.undefined)
unfolding parse_signed_digits
digit_step w base value ch d tail digit = elim (Bool-cases (ltb (value * base) (2 ^ (w - 1)))) [
  | inl product ↦ rw (product, digit) refl
  | inr product ↦
      let large : ltb (value * base + d) (2 ^ (w - 1)) ≡ false = ground arith in
      rw (product, large) refl
]

-- Digits in front: the loop goes on behind them with their value, unless that is too large.
digits-append :
    (w base value : ℕ) (good tail : List ℕ) (n : ℕ)
    → 1 ≤ base
    → value < 2 ^ (w - 1)
    → number base good ≡ some n
    → parse_signed_digits w base value (good ++ tail) ≡ (
        if ltb (continued base value good n) (2 ^ (w - 1))
        then parse_signed_digits w base (continued base value good n) tail
        else Run.undefined)
unfolding number parse_signed_digits
digits-append w base value [] tail n pos small h =
    let zero_is : n ≡ 0 = sym (some_inj.0 h) in
    let same : continued base value [] n ≡ value = rw (zero_is, pow-zero base) (omega arith) in
    let fits : ltb (continued base value [] n) (2 ^ (w - 1)) ≡ true = rw same (ground arith) in
    rw fits (ap (λ v. parse_signed_digits w base v tail) (sym same))
digits-append w base value (ch ∷ good) tail n pos small h =
    step (λ next m fits below. digits-append w base next good tail m pos fits below)
      (add_digit_inv (base ^ length good) n (char_value base ch) (number base good) h)
  where
    step :
        ((next m : ℕ)
          → next < 2 ^ (w - 1)
          → number base good ≡ some m
          → parse_signed_digits w base next (good ++ tail) ≡ (
              if ltb (continued base next good m) (2 ^ (w - 1))
              then parse_signed_digits w base (continued base next good m) tail
              else Run.undefined))
        → ((d : ℕ) × (m : ℕ) × (char_value base ch ≡ some d)
            × (number base good ≡ some m)
            × (n ≡ d * base ^ length good + m))
        → parse_signed_digits w base value (ch ∷ good ++ tail) ≡ (
            if ltb (continued base value (ch ∷ good) n) (2 ^ (w - 1))
            then parse_signed_digits w base (continued base value (ch ∷ good) n) tail
            else Run.undefined)
    step ih (d, m, digit, below, whole) =
        let next = value * base + d in
        let power : 1 ≤ base ^ length good = one-le-pow (length good) base pos in
        let same : continued base value (ch ∷ good) n ≡ continued base next good m =
          rw (whole, pow-suc base (length good)) (horner value base d (base ^ length good) m) in
        digit_step w base value ch d (good ++ tail) digit
        ∙ elim (Bool-cases (ltb next (2 ^ (w - 1)))) [
          | inl fits ↦ rw (fits, same) (ih next m (ground arith) below)
          | inr large ↦
              let least = grown next (base ^ length good) m (2 ^ (w - 1)) power (ground arith) in
              let beyond : ltb (continued base next good m) (2 ^ (w - 1)) ≡ false =
                ground (arith, least) in
              rw (large, same, beyond) refl
        ]

-- A text with a character that is no digit, and the number in front of the first one.
abbrev pub IsIllegal : ℕ → List ℕ → ℕ → Type 0
IsIllegal base text n =
    (good : List ℕ) × (bad : ℕ) × (rest : List ℕ) × (text ≡ good ++ bad ∷ rest)
    × (number base good ≡ some n)
    × (char_value base bad ≡ none)

number-cases :
    (base : ℕ) (text : List ℕ)
    → ((n : ℕ) × (number base text ≡ some n)) ⊎ ((n : ℕ) × IsIllegal base text n)
unfolding number
number-cases base [] = inl (0, refl)
number-cases base (ch ∷ text) = go (char_value base ch) refl (number-cases base text)
  where
    go :
        (o : Option ℕ)
        → char_value base ch ≡ o
        → ((n : ℕ) × (number base text ≡ some n)) ⊎ ((n : ℕ) × IsIllegal base text n)
        → ((n : ℕ) × (number base (ch ∷ text) ≡ some n)) ⊎ ((n : ℕ) × IsIllegal base (ch ∷ text) n)
    go none e below = inr (0, ([], ch, text, refl, refl, e))
    go (some d) e (inl (n, below)) = inl (d * base ^ length text + n, rw (e, below) refl)
    go (some d) e (inr (n, (good, bad, rest, split, front, illegal))) = inr (
      d * base ^ length good + n,
      (ch ∷ good, bad, rest, ap (λ xs. ch ∷ xs) split, (rw (e, front) refl), illegal),
    )

-- What a signed type gives for the text behind the sign: the value if it fits, `illegal_char` if the number in
-- front of the first other character still fits when it is multiplied by the base, and else nothing is defined.
abbrev pub IsSignedRead : ℕ → ℕ → (ℕ → ℤ) → List ℕ → Run (Result ParseIntError ℤ) → Type 0
IsSignedRead w base value text result =
    ((n : ℕ) × (number base text ≡ some n)
      × (((n < 2 ^ (w - 1)) × (result ≡ Run.done (Result.ok (value n))))
          ⊎ ((2 ^ (w - 1) ≤ n) × (result ≡ Run.undefined))))
    ⊎ ((n : ℕ) × IsIllegal base text n
        × (((n * base < 2 ^ (w - 1)) × (result ≡ Run.done (Result.err illegal_char)))
            ⊎ ((2 ^ (w - 1) ≤ n * base) × (result ≡ Run.undefined))))

abbrev signed_value : Bool → ℕ → ℤ
signed_value negative n = if negative then neg n else ℤ.pos n

-- The loop on a text of digits, from 0 on.
digits_run :
    (w base : ℕ) (good tail : List ℕ) (n : ℕ)
    → 1 ≤ base
    → number base good ≡ some n
    → parse_signed_digits w base 0 (good ++ tail)
      ≡ (if ltb n (2 ^ (w - 1)) then parse_signed_digits w base n tail else Run.undefined)
digits_run w base good tail n pos h =
    let whole : continued base 0 good n ≡ n = omega arith in
    subst
      (λ v.
        parse_signed_digits w base 0 (good ++ tail)
        ≡ (if ltb v (2 ^ (w - 1)) then parse_signed_digits w base v tail else Run.undefined))
      whole (digits-append w base 0 good tail n pos (pow_pos (w - 1)) h)

digits-IsSignedRead :
    (w base : ℕ) (negative : Bool) (text : List ℕ)
    → 1 ≤ base
    → IsSignedRead w base
        (signed_value negative)
        text
        (apply_sign negative (parse_signed_digits w base 0 text))
unfolding parse_signed_digits apply_sign
digits-IsSignedRead w base negative text pos = elim (number-cases base text) [
  | inl (n, all) ↦
      let run =
        ap (parse_signed_digits w base 0) (sym (append-nil text))
        ∙ digits_run w base text [] n pos all in
      inl (
        n,
        all,
        elim (Bool-cases (ltb n (2 ^ (w - 1)))) [
          | inl fits ↦ inl (ground arith, given run (rw fits refl))
          | inr large ↦ inr (ground arith, given run (rw large refl))
        ],
      )
  | inr (n, (good, bad, rest, split, front, illegal)) ↦
      let run =
        ap (parse_signed_digits w base 0) split ∙ digits_run w base good (bad ∷ rest) n pos front in
      inr (
        n,
        (good, bad, rest, split, front, illegal),
        elim (Bool-cases (ltb (n * base) (2 ^ (w - 1)))) [
          | inl fits ↦
              let small : ltb n (2 ^ (w - 1)) ≡ true = below_product n base _ pos fits in
              inl (ground arith, given run (rw (small, fits, illegal) refl))
          | inr large ↦ inr (
            ground arith,
            (elim (Bool-cases (ltb n (2 ^ (w - 1)))) [
              | inl small ↦ given run (rw (small, large) refl)
              | inr big ↦ given run (rw big refl)
            ]),
          )
        ],
      )
]
  where
    given :
        {r r' : Run (Result ParseIntError ℕ)} {o : Run (Result ParseIntError ℤ)}
        → r ≡ r'
        → apply_sign negative r' ≡ o
        → apply_sign negative r ≡ o
    given e e' = ap (apply_sign negative) e ∙ e'

-- The sign of a text.
pub data Sign : Type 0 where
  unsigned : Sign
  plus : Sign
  minus : Sign

abbrev pub with_sign : Sign → List ℕ → List ℕ
with_sign Sign.unsigned text = text
with_sign Sign.plus text = b'+' ∷ text
with_sign Sign.minus text = b'-' ∷ text

abbrev pub value_of_sign : Sign → ℕ → ℤ
value_of_sign Sign.minus n = neg n
value_of_sign _ n = ℤ.pos n

-- A text without a sign does not begin with the character of one.
abbrev pub IsBehind : Sign → List ℕ → Type 0
IsBehind Sign.unsigned (ch ∷ text) = (ch ≢ b'+') × (ch ≢ b'-')
IsBehind _ _ = Unit

-- For a base from 2 to 36 and a text without a sign in it at its begin, `parse_int` of an unsigned
-- type gives the number that the text denotes modulo 2 ^ w, or `illegal_char` when some character
-- is no digit. Of a signed type of w bits, for the text with no sign, a plus or a minus in front,
-- it gives the number, negated behind a minus, if it is below 2 ^ (w - 1); `illegal_char` if there
-- is a character that is no digit and the number in front of the first one, times the base, is
-- below 2 ^ (w - 1); and otherwise an overflow, which is undefined.
pub parse_int-number :
    (w base : ℕ) (sign : Sign) (text : List ℕ)
    → 2 ≤ base
    → base ≤ 36
    → IsBehind sign text
    → (parse_int w text base ≡ in_word w (number base text))
      × IsSignedRead w base
          (value_of_sign sign)
          text
          (parse_int_signed w (with_sign sign text) base)
unfolding parse_int parse_int_signed parse_sign
parse_int-number w base sign text low high behind = rw valid (
  parse_digits-number w base 0 text (pow_pos w)
      ∙ ap (in_word w) (plus_above_zero base text (number base text)),
  by_sign sign text behind,
)
  where
    valid : (ltb base 2 || ltb 36 base) ≡ false
    valid = ground arith

    by_sign :
        (sign : Sign) (text : List ℕ)
        → IsBehind sign text
        → IsSignedRead w base (value_of_sign sign) text (
            apply_sign
              (parse_sign (with_sign sign text)).0
              (parse_signed_digits w base 0 (parse_sign (with_sign sign text)).1))
    by_sign Sign.plus text behind = digits-IsSignedRead w base false text (omega arith)
    by_sign Sign.minus text behind = digits-IsSignedRead w base true text (omega arith)
    by_sign Sign.unsigned [] behind = digits-IsSignedRead w base false [] (omega arith)
    by_sign Sign.unsigned (ch ∷ text) (no_plus, no_minus) =
        let plus_test : (ch == b'+') ≡ false = ground arith in
        let minus_test : (ch == b'-') ≡ false = ground arith in
        rw (plus_test, minus_test) (digits-IsSignedRead w base false (ch ∷ text) (omega arith))
