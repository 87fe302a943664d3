-- ===== src/Scanner/ScanResult.antt =====
-- include/libhat/scanner.hpp: `scan_result_base`, on a little-endian machine. A result is an address, and
-- null is 0.
use libhat.Prelude.{ℕ, zero, suc, ◌+◌, ◌-◌, ◌*◌, ◌/◌, ◌%◌, ◌^◌, ◌==◌, ltb, Bool, not, if◌then◌else◌}
use libhat.Scanner.Context.{Memory}

abbrev pub has_result : ℕ → Bool
has_result result = not (result == 0)

-- The number in the `n` bytes from an address on, the lowest byte first.
unfoldable pub read_bytes : Memory → ℕ → ℕ → ℕ
read_bytes mem zero address = 0
read_bytes mem (suc n) address = mem address + 256 * read_bytes mem n (address + 1)

-- `read<Int>`, for an integer of `size` bytes; a signed one is its bit pattern.
unfoldable pub read : Memory → ℕ → ℕ → ℕ → ℕ
read mem size result offset = read_bytes mem size (result + offset)

-- The conversion of an integer of `size` bytes to 64 bits, which repeats the sign of a signed one.
abbrev pub to_size_t : Bool → ℕ → ℕ → ℕ
to_size_t is_signed size value =
    if is_signed
    then (if ltb value (2 ^ (8 * size - 1)) then value else value + (2 ^ 64 - 2 ^ (8 * size)))
    else value

-- `index<Int, ArrayType>`, for elements of `element_size` bytes.
unfoldable pub index : Memory → Bool → ℕ → ℕ → ℕ → ℕ → ℕ
index mem is_signed size element_size result offset =
    to_size_t is_signed size (read mem size result offset) / element_size

-- The displacement that an `std::int32_t` adds to a pointer of 64 bits.
abbrev pub sign_extend : ℕ → ℕ
sign_extend value = if ltb value (2 ^ 31) then value else value + (2 ^ 64 - 2 ^ 32)

-- `rel`.
unfoldable pub rel : Memory → ℕ → ℕ → ℕ → ℕ
rel mem result offset remaining =
    if not (has_result result)
    then 0
    else (result + sign_extend (read mem 4 result offset) + offset + 4 + remaining) % 2 ^ 64
