-- ===== src/Signature/ParseInt.antt =====
-- include/libhat/strconv.hpp: `hat::parse_int`, for an unsigned `Integer` of `w` bits, which wraps, and
-- for a signed one that is `int` or wider, where an overflow is undefined.
use libhat.Prelude.{Run, ℤ, neg, ℕ, ◌+◌, ◌-◌, ◌*◌, ◌%◌, ◌^◌, ◌==◌, ltb, leb}
use libhat.Prelude.{Bool, true, false, ◌&&◌, ◌||◌, if◌then◌else◌, List, [], ◌∷◌, Option, none, some}
use libhat.Signature.Element.{Result}

pub data ParseIntError : Type 0 where
  invalid_base : ParseIntError
  illegal_char : ParseIntError

-- The number of decimal digits and of letters that a base has.
abbrev pub digit_count : ℕ → ℕ
digit_count base = if ltb base 10 then base else 10

abbrev pub letter_count : ℕ → ℕ
letter_count base = if ltb 10 base then base - 10 else 0

-- The value of a character in a base: the chain of tests in the loop.
unfoldable pub char_value : ℕ → ℕ → Option ℕ
char_value base ch =
    if leb b'0' ch && ltb ch (b'0' + digit_count base)
    then some (ch - b'0')
    else if leb b'A' ch && ltb ch (b'A' + letter_count base)
    then some (ch - b'A' + 10)
    else if leb b'a' ch && ltb ch (b'a' + letter_count base)
    then some (ch - b'a' + 10)
    else none

-- The loop over the characters, for an unsigned type of `w` bits. The multiplication wraps, also before an
-- illegal character.
unfoldable pub parse_digits : ℕ → ℕ → ℕ → List ℕ → Result ParseIntError ℕ
parse_digits w base value [] = Result.ok value
parse_digits w base value (ch ∷ rest) =
    let scaled = (value * base) % 2 ^ w in
    elim (char_value base ch) [
      | some d ↦ parse_digits w base ((scaled + d) % 2 ^ w) rest
      | none ↦ Result.err illegal_char
    ]

-- `parse_int` of an unsigned type.
unfoldable pub parse_int : ℕ → List ℕ → ℕ → Result ParseIntError ℕ
parse_int w text base =
    if ltb base 2 || ltb 36 base then Result.err invalid_base else parse_digits w base 0 text

-- The loop for a signed type of `w` bits that is `int` or wider: `value` is not negative, and a product or a sum from
-- 2 ^ (w - 1) on overflows, which is undefined; the product is formed before the character is tested.
unfoldable pub parse_signed_digits : ℕ → ℕ → ℕ → List ℕ → Run (Result ParseIntError ℕ)
parse_signed_digits w base value [] = Run.done (Result.ok value)
parse_signed_digits w base value (ch ∷ rest) =
    if ltb (value * base) (2 ^ (w - 1))
    then elim (char_value base ch) [
      | some d ↦
          let sum = value * base + d in
          let behind = parse_signed_digits w base sum rest in
          if ltb sum (2 ^ (w - 1)) then behind else Run.undefined
      | none ↦ Run.done (Result.err illegal_char)
    ]
    else Run.undefined

-- `if (*iter == '+') … else if (*iter == '-') …`: whether the sign is -1, and what is left.
unfoldable pub parse_sign : List ℕ → Bool × List ℕ
parse_sign [] = (false, [])
parse_sign (ch ∷ rest) =
    if ch == b'+' then (false, rest) else if ch == b'-' then (true, rest) else (false, ch ∷ rest)

-- `sign * value`.
unfoldable pub apply_sign : Bool → Run (Result ParseIntError ℕ) → Run (Result ParseIntError ℤ)
apply_sign negative (Run.done (Result.ok value)) =
    Run.done (Result.ok (if negative then neg value else ℤ.pos value))
apply_sign negative (Run.done (Result.err e)) = Run.done (Result.err e)
apply_sign negative Run.thrown = Run.thrown
apply_sign negative Run.undefined = Run.undefined

-- `parse_int` of a signed type.
unfoldable pub parse_int_signed : ℕ → List ℕ → ℕ → Run (Result ParseIntError ℤ)
parse_int_signed w text base =
    if ltb base 2 || ltb 36 base
    then Run.done (Result.err invalid_base)
    else apply_sign (parse_sign text).0 (parse_signed_digits w base 0 (parse_sign text).1)
