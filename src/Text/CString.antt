-- ===== src/Text/CString.antt =====
-- include/libhat/cstring_view.hpp: `basic_cstring_view`. A pointer is the list of the characters from it to
-- the end of the storage that it points into; a null pointer points at none.
use libhat.Prelude.{
  ℕ, ◌-◌, ◌==◌, ltb, Bool, if◌then◌else◌, List, [], ◌∷◌, ◌++◌, Option, none, some, length, take,
  drop, get_or,
}
use libhat.Modules.Spans.{before_zero}
use libhat.Modules.Names.{name_eq, name_less}
use libhat.Text.Fixed.{FixedString, copy_n}

-- `std::basic_string_view`, which is `impl`.
pub record View : Type 0 where
  pub chars : List ℕ
  pub size : ℕ

-- The characters that a view shows.
abbrev pub text : View → List ℕ
text v = take v.size v.chars

abbrev pub CStringView : Type 0
CStringView = View

-- The constructors: by default, from a pointer, from a pointer and a size with `null_terminated`, and from
-- a `std::basic_string`, whose storage ends with a zero.
abbrev pub default_view : CStringView
default_view = record { chars = []; size = 0 }

unfoldable pub of_c_str : List ℕ → CStringView
of_c_str c_str = record { chars = c_str; size = length (before_zero c_str) }

abbrev pub null_terminated : List ℕ → ℕ → CStringView
null_terminated c_str size = record { chars = c_str; size = size }

abbrev pub of_string : List ℕ → CStringView
of_string str = record { chars = str ++ 0 ∷ []; size = length str }

-- The conversion of a `basic_fixed_string`.
abbrev pub of_fixed : FixedString → CStringView
of_fixed s = null_terminated (FixedString.value s) (FixedString.size s)

-- `data` and `c_str`, `empty`, `front` and `back`.
abbrev pub c_str : CStringView → List ℕ
c_str v = v.chars

unfoldable pub is_empty : CStringView → Bool
is_empty v = v.size == 0

unfoldable pub at : CStringView → ℕ → Option ℕ
at v pos = if ltb pos v.size then some (get_or v.chars pos 0) else none

-- `remove_prefix`, and `swap` of two views.
unfoldable pub remove_prefix : ℕ → CStringView → CStringView
remove_prefix n v = record { chars = drop n v.chars; size = v.size - n }

unfoldable pub swap : CStringView → CStringView → CStringView × CStringView
swap v w = (w, v)

-- `substr(pos)` and `substr(pos, count)`; none is `std::out_of_range`.
unfoldable pub substr_from : ℕ → CStringView → Option CStringView
substr_from pos v =
    if ltb v.size pos then none else some (record { chars = drop pos v.chars; size = v.size - pos })

abbrev pub min : ℕ → ℕ → ℕ
min a b = if ltb b a then b else a

unfoldable pub substr : ℕ → ℕ → CStringView → Option View
substr pos count v =
    if ltb v.size pos
    then none
    else some (record { chars = drop pos v.chars; size = min count (v.size - pos) })

-- `copy(dest, count, pos)`: what is in `dest` afterwards, and how many characters were copied.
unfoldable pub copy : List ℕ → ℕ → ℕ → CStringView → Option (List ℕ × ℕ)
copy dest count pos v =
    let n = min count (v.size - pos) in
    if ltb v.size pos then none else some (copy_n (drop pos v.chars) n 0 dest, n)

-- `operator<=>` and `compare`, as the two tests that it answers.
unfoldable pub equal : CStringView → View → Bool
equal v w = name_eq (text v) (text w)

unfoldable pub less : CStringView → View → Bool
less v w = name_less (text v) (text w)
