-- ===== src/Scanner/Neon.antt =====
-- src/arch/arm/Neon.cpp: the Neon scanner. Its mask has four bits for each byte of the vector.
use libhat.Prelude.{ℕ, zero, suc, ◌+◌, ◌-◌, ◌*◌, ◌/◌, ltb, Bool, true, false, not}
use libhat.Prelude.{if◌then◌else◌, [], ◌∷◌, ◌++◌, none, some, replicate}
use libhat.Scanner.Context.{
  Memory, ScanAlignment, x1, x4, x16, ScanContext, equal_at, Outcome, returned, timeout,
}
use libhat.Scanner.Word.{Word, word_and, word_or, is_zero, tzcnt, rotl}
use libhat.Scanner.Blocks.{find_segmented}
use libhat.Scanner.Vector.{
  load, cmpeq_mask, vector_xor, test_zero, load_signature, compared_index, element_value,
}

-- `a ^ b`, as wide as `a`.
unfoldable pub word_xor : Word → Word → Word
word_xor [] b = []
word_xor (x ∷ a) [] = x ∷ a
word_xor (x ∷ a) (y ∷ b) = (if x then not y else y) ∷ word_xor a b

-- `std::uint64_t{0xF} << offset`; what passes the width is cut off where it is used.
abbrev pub nibble : ℕ → Word
nibble offset = replicate offset false ++ (true ∷ true ∷ true ∷ true ∷ [])

-- `vshrn_n_u16(…, 4)` of a comparison, read as a `std::uint64_t`.
abbrev pub spread : Word → Word
spread [] = []
spread (b ∷ w) = b ∷ b ∷ b ∷ b ∷ spread w

-- The loop of `create_alignment_mask_neon`.
unfoldable pub neon_alignment_loop : ℕ → ℕ → ℕ → Word → Word
neon_alignment_loop zero stride i mask = mask
neon_alignment_loop (suc fuel) stride i mask =
    let rest = neon_alignment_loop fuel stride (i + stride) (word_or mask (nibble (i * 4))) in
    if ltb i 16 then rest else mask

unfoldable pub create_alignment_mask_neon : ℕ → Word
unfolding neon_alignment_loop word_or
create_alignment_mask_neon stride = neon_alignment_loop 17 stride 0 (replicate 64 false)

module _ (alignment : ScanAlignment) (cmpeq2 veccmp : Bool) where
  module _ (mem : Memory) (ctx : ScanContext) where
    unfoldable pub neon_matches : ℕ → Bool
    neon_matches i =
        let (bytes, mask) = load_signature 16 ctx.signature in
        if veccmp
        then test_zero (vector_xor (load mem 16 i) bytes) mask
        else equal_at mem ctx.signature i

    -- The `while (mask)` loop over the candidates of the vector at `it`.
    unfoldable pub neon_loop : ℕ → ℕ → Word → Outcome
    neon_loop it zero mask = timeout
    neon_loop it (suc fuel) mask =
        let offset = tzcnt mask in
        let rest = neon_loop it fuel (word_xor mask (nibble offset)) in
        let i = it + offset / 4 - compared_index cmpeq2 ctx in
        if is_zero mask then returned none else if neon_matches i then returned (some i) else rest

    -- The comparison; with `cmpeq2` a second load begins one byte further on.
    unfoldable pub neon_compare : ℕ → Word
    neon_compare it =
        let cmp_index = compared_index cmpeq2 ctx in
        let first =
          cmpeq_mask (replicate 16 (element_value ctx.signature cmp_index)) (load mem 16 it) in
        let second =
          cmpeq_mask (replicate 16 (element_value ctx.signature (cmp_index + 1)))
            (load mem 16 (it + 1)) in
        if cmpeq2 then word_and first second else first

    unfoldable pub neon_mask : ℕ → Word
    neon_mask it =
        let mask = spread (neon_compare it) in
        let turn = compared_index cmpeq2 ctx * 4 in
        elim alignment [
          | x1 ↦ mask
          | x4 ↦ word_and mask (rotl 64 (create_alignment_mask_neon 4) turn)
          | x16 ↦ word_and mask (rotl 64 (create_alignment_mask_neon 16) turn)
        ]

    unfoldable pub neon_candidates : ℕ → Outcome
    neon_candidates it = neon_loop it 17 (neon_mask it)

  unfoldable pub find_pattern_neon : Memory → ℕ → ℕ → ScanContext → Outcome
  find_pattern_neon mem begin end ctx =
      find_segmented 16 alignment veccmp (compared_index cmpeq2 ctx) (neon_candidates mem ctx) mem
        begin end ctx
