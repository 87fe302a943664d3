-- ===== src/Modules/Spans.antt =====
-- What the modules of the three systems share: byte ranges, the protections of a section or segment, and the
-- loops with a callback.
use libhat.Prelude.{ℕ, bit_and, bit_or, ◌==◌, Bool, not, if◌then◌else◌, List, [], ◌∷◌}
use libhat.Scanner.ScanResult.{read_bytes}
use libhat.Prelude.{get_or}

-- `std::span<std::byte>`.
pub record ByteSpan : Type 0 where
  pub address : ℕ
  pub size : ℕ

abbrev pub no_bytes : ByteSpan
no_bytes = record { address = 0; size = 0 }

abbrev pub is_empty : ByteSpan → Bool
is_empty s = ByteSpan.size s == 0

-- A section or a segment: its bytes and its `hat::protection`.
pub record Section : Type 0 where
  pub bytes : ByteSpan
  pub prot : ℕ

-- `flags & flag`.
abbrev pub has_bit : ℕ → ℕ → Bool
has_bit flags flag = not (bit_and flags flag == 0)

-- `if (flags & flag) prot |= protection`.
abbrev pub with_prot : ℕ → ℕ → ℕ → ℕ → ℕ
with_prot flags flag protection prot = if has_bit flags flag then bit_or prot protection else prot

-- A field of `size` bytes of a structure that was copied from these bytes.
abbrev pub field : List ℕ → ℕ → ℕ → ℕ
field bytes offset size = read_bytes (λ i. get_or bytes i 0) size offset

-- The characters before the first zero, as `strnlen` finds them.
unfoldable pub before_zero : List ℕ → List ℕ
before_zero [] = []
before_zero (c ∷ text) = if c == 0 then [] else c ∷ before_zero text

-- `if (!callback(…)) break;` over some items, where the callback has a state of its own.
unfoldable pub while_true {ℓ κ} : {A : Type ℓ} {S : Type κ} → (S → A → S × Bool) → S → List A → S
while_true callback s [] = s
while_true callback s (a ∷ items) =
    let (s', go_on) = callback s a in
    let rest = while_true callback s' items in if go_on then rest else s'
