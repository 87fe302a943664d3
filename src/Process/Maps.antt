-- ===== src/Process/Maps.antt =====
-- src/os/linux/Common.hpp: `iter_mapped_regions`, which reads the lines of /proc/self/maps.
use libhat.Prelude.{ℕ, ◌+◌, ◌*◌, ◌^◌, ◌==◌, ltb, Bool, if◌then◌else◌}
use libhat.Prelude.{List, [], ◌∷◌, Option, none, some}
use libhat.Signature.ParseInt.{char_value}

-- One mapped region: [first, last), and its protection, as PROT_READ = 1, PROT_WRITE = 2 and
-- PROT_EXEC = 4.
pub record Region : Type 0 where
  pub first : ℕ
  pub last : ℕ
  pub prot : ℕ

abbrev pub prot_read : ℕ
prot_read = 1

abbrev pub prot_write : ℕ
prot_write = 2

abbrev pub prot_exec : ℕ
prot_exec = 4

-- `std::from_chars(it, end, value, 16)`: the longest run of hexadecimal digits, the number that it
-- gives and the text behind it.
unfoldable pub hex_run : ℕ → List ℕ → ℕ × List ℕ
hex_run value [] = (value, [])
hex_run value (ch ∷ rest) = elim (char_value 16 ch) [
  | some d ↦ hex_run (value * 16 + d) rest
  | none ↦ (value, ch ∷ rest)
]

abbrev pub in_range : ℕ × List ℕ → Option (ℕ × List ℕ)
in_range (value, rest) = if ltb value (2 ^ 64) then some (value, rest) else none

-- `none` is an error: no digit at all, or a number that does not fit a `std::uintptr_t`.
unfoldable pub from_chars : List ℕ → Option (ℕ × List ℕ)
from_chars [] = none
from_chars (ch ∷ rest) = elim (char_value 16 ch) [
  | some d ↦ in_range (hex_run d rest)
  | none ↦ none
]

-- The three letters of the permissions. A test adds its flag or none.
abbrev pub letter : ℕ → ℕ → ℕ → ℕ
letter ch wanted flag = if ch == wanted then flag else 0

abbrev pub permissions : List ℕ → Option ℕ
permissions (r ∷ w ∷ x ∷ rest) =
    some (letter r b'r' prot_read + letter w b'w' prot_write + letter x b'x' prot_exec)
permissions _ = none

abbrev pub make_region : ℕ → ℕ → Option ℕ → Option Region
make_region first last (some prot) = some (record { first = first; last = last; prot = prot })
make_region first last none = none

-- Behind a number comes one character that is skipped; a line that ends there is ignored.
abbrev pub second_number : ℕ → Option (ℕ × List ℕ) → Option Region
second_number first (some (last, skipped ∷ remaining)) =
    make_region first last (permissions remaining)
second_number first _ = none

abbrev pub first_number : Option (ℕ × List ℕ) → Option Region
first_number (some (first, skipped ∷ rest)) = second_number first (from_chars rest)
first_number _ = none

-- One line: the region that the callback is called with, if it is.
unfoldable pub parse_line : List ℕ → Option Region
parse_line line = first_number (from_chars line)

-- `iter_mapped_regions`: the callback has a state of its own, and says whether to go on.
unfoldable pub iter_mapped_regions {ℓ} :
    {S : Type ℓ} → (S → Region → S × Bool) → S → List (List ℕ) → S
iter_mapped_regions callback s [] = s
iter_mapped_regions callback s (line ∷ lines) = elim (parse_line line) [
  | none ↦ iter_mapped_regions callback s lines
  | some region ↦
      let (s', go_on) = callback s region in
      let rest = iter_mapped_regions callback s' lines in if go_on then rest else s'
]

-- The regions that the lines give.
unfoldable pub regions_of : List (List ℕ) → List Region
regions_of [] = []
regions_of (line ∷ lines) = elim (parse_line line) [
  | none ↦ regions_of lines
  | some region ↦ region ∷ regions_of lines
]
