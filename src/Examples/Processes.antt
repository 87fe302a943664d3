-- ===== src/Examples/Processes.antt =====
-- The mapped regions of src/os/linux at concrete inputs.
use libhat.Prelude.{ℕ, ◌+◌, ◌≤◌, ◌<◌, ◌≡◌, ◌↔◌, refl, true, false, List, [], ◌∷◌, some, arith}
use libhat.Signature.ParseInt.{char_value}
use libhat.Process.Maps.{Region, hex_run, from_chars, parse_line, iter_mapped_regions, regions_of}
use libhat.Process.Regions.{region_step, region_has_flag, is_readable, is_writable, get_page_prot}
use libhat.Process.Covered.{region_has_flag-covered}
use libhat.Process.Answer.{covered, IsSorted}

-- "1000-2000 r-x"
abbrev code_line : List ℕ
code_line =
    b'1' ∷ b'0' ∷ b'0' ∷ b'0' ∷ b'-' ∷ b'2' ∷ b'0' ∷ b'0' ∷ b'0' ∷ b' ' ∷ b'r' ∷ b'-' ∷ b'x' ∷ []

-- "2000-3000 rw-"
abbrev data_line : List ℕ
data_line =
    b'2' ∷ b'0' ∷ b'0' ∷ b'0' ∷ b'-' ∷ b'3' ∷ b'0' ∷ b'0' ∷ b'0' ∷ b' ' ∷ b'r' ∷ b'w' ∷ b'-' ∷ []

abbrev lines : List (List ℕ)
lines = code_line ∷ (b'?' ∷ []) ∷ data_line ∷ []

abbrev regions : List Region
regions =
    (record { first = 0x1000; last = 0x2000; prot = 5 })
    ∷ (record { first = 0x2000; last = 0x3000; prot = 3 })
    ∷ []

program : Unit {0}
unfolding char_value hex_run from_chars parse_line iter_mapped_regions regions_of region_step
    region_has_flag is_readable is_writable get_page_prot
program = tt

read_lines : regions_of lines ≡ regions
unfolding program
read_lines = refl

readable_across : is_readable lines 0x1800 0x1000 ≡ true
unfolding program
readable_across = refl

not_writable_across : is_writable lines 0x1800 0x1000 ≡ false
unfolding program
not_writable_across = refl

prot_of_data : get_page_prot lines 0x2fff ≡ some 3
unfolding program
prot_of_data = refl

lines-IsSorted : IsSorted 0 (regions_of lines)
unfolding program
lines-IsSorted = (omega arith, omega arith, (omega arith, omega arith, tt))

region_has_flag-covered_example :
    (region_has_flag lines 0x1800 0x1000 1 ≡ true)
    ↔ ((a : ℕ) → 0x1800 ≤ a → a < 0x1800 + 0x1000 → covered 1 (regions_of lines) a ≡ true)
region_has_flag-covered_example =
    region_has_flag-covered lines 0x1800 0x1000 1 lines-IsSorted (omega arith) (omega arith)
