-- ===== src/Scanner/Tables.antt =====
-- The frequency tables of src/arch, and how their rows are written here.
use libhat.Prelude.{ℕ, zero, suc, ◌+◌, ◌*◌, ◌/◌, ◌%◌, ◌^◌, List, [], ◌∷◌, ◌++◌, map}
pub mod X86
pub mod Arm

-- The last `n` digits of a number to a base, the first one first.
abbrev pub unpack : ℕ → ℕ → ℕ → List ℕ
unpack base zero row = []
unpack base (suc n) row = row / base ^ n % base ∷ unpack base n row

abbrev pub to_pair : ℕ → ℕ × ℕ
to_pair digit = (digit / 256, digit % 256)

-- Eight pairs in a row.
abbrev pub unpack_pairs : List ℕ → List (ℕ × ℕ)
unpack_pairs [] = []
unpack_pairs (row ∷ rows) = map to_pair (unpack 65536 8 row) ++ unpack_pairs rows

-- Sixteen scores in a row.
abbrev pub unpack_scores : List ℕ → List ℕ
unpack_scores [] = []
unpack_scores (row ∷ rows) = unpack 4096 16 row ++ unpack_scores rows
