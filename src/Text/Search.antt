-- ===== src/Text/Search.antt =====
-- include/libhat/cstring_view.hpp: the members of `basic_cstring_view` that search, as the members of
-- `std::basic_string_view` that they call.
use libhat.Prelude.{
  ℕ, zero, suc, ◌+◌, ◌-◌, ◌^◌, ◌==◌, Bool, true, false, not, ◌||◌, if◌then◌else◌, List, [], ◌∷◌,
  Option, none, some, length, take, drop, get_or,
}
use libhat.Modules.Names.{starts_with, ends_with}
use libhat.Modules.Spans.{before_zero}
use libhat.Text.CString.{View, text, CStringView, min}

-- What is searched for: a view, a character, a pointer to a C string, or to a number of characters.
pub data Needle : Type 0 where
  of_view : View → Needle
  of_char : ℕ → Needle
  of_pointer : List ℕ → Needle
  of_count : List ℕ → ℕ → Needle

abbrev pub needle_text : Needle → List ℕ
needle_text (Needle.of_view v) = text v
needle_text (Needle.of_char c) = c ∷ []
needle_text (Needle.of_pointer s) = before_zero s
needle_text (Needle.of_count s count) = take count s

abbrev pub npos : ℕ
npos = 2 ^ 64 - 1

abbrev pub or_npos : Option ℕ → ℕ
or_npos none = npos
or_npos (some i) = i

-- The first position that passes a test, of `count` from `i` on, and the last one below `count`.
unfoldable pub first_position : (ℕ → Bool) → ℕ → ℕ → Option ℕ
first_position test zero i = none
first_position test (suc count) i =
    let rest = first_position test count (i + 1) in if test i then some i else rest

unfoldable pub last_position : (ℕ → Bool) → ℕ → Option ℕ
last_position test zero = none
last_position test (suc count) =
    let rest = last_position test count in if test count then some count else rest

abbrev pub member : ℕ → List ℕ → Bool
member c [] = false
member c (d ∷ chars) = c == d || member c chars

-- The needle stands at a position.
abbrev pub stands : CStringView → List ℕ → ℕ → Bool
stands v w i = starts_with (drop i (text v)) w

abbrev pub has_char : CStringView → List ℕ → ℕ → Bool
has_char v w i = member (get_or (text v) i 0) w

-- The number of positions from which the needle fits.
abbrev pub positions : CStringView → List ℕ → ℕ
positions v w = length (text v) + 1 - length w

unfoldable pub find_position : CStringView → List ℕ → ℕ → Option ℕ
find_position v w pos = first_position (stands v w) (positions v w - pos) pos

module _ (v : CStringView) (needle : Needle) where
  unfoldable pub view_starts_with : Bool
  view_starts_with = starts_with (text v) (needle_text needle)

  unfoldable pub view_ends_with : Bool
  view_ends_with = ends_with (text v) (needle_text needle)

  unfoldable pub contains : Bool
  contains = elim (find_position v (needle_text needle) 0) [ none ↦ false | some i ↦ true ]

  unfoldable pub find : ℕ → ℕ
  find pos = or_npos (find_position v (needle_text needle) pos)

  unfoldable pub rfind : ℕ → ℕ
  rfind pos = or_npos (
      last_position (stands v (needle_text needle))
        (min (pos + 1) (positions v (needle_text needle))))

  unfoldable pub find_first_of : ℕ → ℕ
  find_first_of pos =
      or_npos (first_position (has_char v (needle_text needle)) (length (text v) - pos) pos)

  unfoldable pub find_last_of : ℕ → ℕ
  find_last_of pos =
      or_npos (last_position (has_char v (needle_text needle)) (min (pos + 1) (length (text v))))

  unfoldable pub find_first_not_of : ℕ → ℕ
  find_first_not_of pos =
      or_npos
        (first_position (λ i. not (has_char v (needle_text needle) i)) (length (text v) - pos) pos)

  unfoldable pub find_last_not_of : ℕ → ℕ
  find_last_not_of pos = or_npos (
      last_position (λ i. not (has_char v (needle_text needle) i))
        (min (pos + 1) (length (text v))))
