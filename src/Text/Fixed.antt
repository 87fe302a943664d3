-- ===== src/Text/Fixed.antt =====
-- include/libhat/fixed_string.hpp: `basic_fixed_string`. A character is its code.
use libhat.Prelude.{
  ℕ, ◌+◌, ◌-◌, ◌==◌, Bool, List, ◌++◌, Option, none, some, length, take, drop, replicate, get_or,
}
use libhat.Modules.Names.{name_eq}
use libhat.Modules.Spans.{before_zero}

-- `N`, and `value` with its N + 1 characters.
pub record FixedString : Type 0 where
  pub size : ℕ
  pub value : List ℕ

-- `Char buf[n]{}`.
abbrev pub zeros : ℕ → List ℕ
zeros n = replicate n 0

-- `std::copy_n(source, count, buf + offset)`.
abbrev pub copy_n : List ℕ → ℕ → ℕ → List ℕ → List ℕ
copy_n source count offset buf = take offset buf ++ take count source ++ drop (offset + count) buf

-- The constructors from a `std::basic_string_view` and from an array: both copy N characters.
unfoldable pub construct : ℕ → List ℕ → FixedString
construct n str = record { size = n; value = copy_n str n 0 (zeros (n + 1)) }

-- The characters between `begin()` and `end()`: `str`, `to_view` and the conversion to a view.
unfoldable pub to_view : FixedString → List ℕ
to_view s = take s.size s.value

unfoldable pub empty : FixedString → Bool
empty s = s.size == 0

abbrev pub char_at : FixedString → ℕ → ℕ
char_at s pos = get_or s.value pos 0

unfoldable pub front : FixedString → ℕ
front s = char_at s 0

unfoldable pub back : FixedString → ℕ
back s = char_at s (s.size - 1)

-- `substr<Pos, Count>`; none stands for `npos`.
abbrev pub substr_size : FixedString → ℕ → Option ℕ → ℕ
substr_size s pos none = s.size - pos
substr_size s pos (some count) = count

unfoldable pub substr : ℕ → Option ℕ → FixedString → FixedString
substr pos count s =
    let m = substr_size s pos count in construct m (copy_n (drop pos s.value) m 0 (zeros (m + 1)))

-- `operator+`.
infixl 25 ◌+++◌
unfoldable pub ◌+++◌ : FixedString → FixedString → FixedString
s +++ t =
    let k = s.size + t.size in
    construct k (copy_n t.value t.size s.size (copy_n s.value s.size 0 (zeros (k + 1))))

-- `operator+` with an array of M characters, the last of which is dropped.
unfoldable pub append_array : FixedString → List ℕ → FixedString
append_array s str = s +++ construct (length str - 1) str

-- `operator==` with a fixed string, with a string or a view, and with a C string.
unfoldable pub equal : FixedString → FixedString → Bool
equal s t = name_eq (to_view s) (to_view t)

unfoldable pub equal_view : FixedString → List ℕ → Bool
equal_view s str = name_eq (to_view s) str

unfoldable pub equal_c_str : FixedString → List ℕ → Bool
equal_c_str s str = name_eq (to_view s) (before_zero str)
