-- ===== src/Protector/Align.antt =====
-- src/Utils.hpp: `fast_align_down` and `fast_align_up`, on numbers of 64 bits.
use libhat.Prelude.{ℕ, ◌+◌, ◌-◌, ◌%◌, ◌^◌, bit_and}

-- `~x`.
abbrev pub complement : ℕ → ℕ → ℕ
complement w x = 2 ^ w - 1 - x

unfoldable pub fast_align_down : ℕ → ℕ → ℕ
fast_align_down address alignment = bit_and address (complement 64 (alignment - 1))

-- `alignment` is a power of two, so `address + alignment - 1` does not go below 0.
unfoldable pub fast_align_up : ℕ → ℕ → ℕ
fast_align_up address alignment =
    bit_and ((address + alignment - 1) % 2 ^ 64) (complement 64 (alignment - 1))
