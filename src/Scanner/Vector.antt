-- ===== src/Scanner/Vector.antt =====
-- src/arch/x86/SSE.cpp, AVX2.cpp and AVX512.cpp: the x86 vector scanners. The three are one template
-- over the width; a vector is the list of its bytes.
use libhat.Prelude.{ℕ, zero, suc, ◌+◌, ◌-◌, ◌==◌, Bool, true, false, ◌&&◌, bit_and, bit_xor}
use libhat.Prelude.{if◌then◌else◌, List, [], ◌∷◌, map, none, some, tabulate, replicate, get_or}
use libhat.Signature.Element.{SignatureElement, Signature, nullopt_element}
use libhat.Scanner.Context.{
  Memory, ScanAlignment, x1, x4, x16, ScanContext, equal_at, Outcome, returned, timeout,
}
use libhat.Scanner.Word.{
  Word, word_and, word_or, shr_one, one_hot, is_zero, blsr, tzcnt, rotl, create_alignment_mask,
}
use libhat.Scanner.Blocks.{find_segmented}

-- The instruction sets of x86.
pub data VectorMode : Type 0 where
  sse : VectorMode
  avx2 : VectorMode
  avx512 : VectorMode

-- `sizeof` of `__m128i`, `__m256i` and `__m512i`.
abbrev pub vector_width : VectorMode → ℕ
vector_width sse = 16
vector_width avx2 = 32
vector_width avx512 = 64

-- Whether the scanner goes on at once when the alignment mask leaves no candidate.
abbrev pub skips_empty : VectorMode → Bool
skips_empty sse = false
skips_empty avx2 = true
skips_empty avx512 = true

-- A load of `width` bytes, aligned or not.
unfoldable pub load : Memory → ℕ → ℕ → List ℕ
load mem width address = tabulate width (λ i. mem (address + i))

-- `cmpeq_epi8` and `movemask_epi8`, or `cmpeq_epi8_mask`: a bit for each byte that is the same.
unfoldable pub cmpeq_mask : List ℕ → List ℕ → Word
cmpeq_mask [] b = []
cmpeq_mask (x ∷ a) [] = []
cmpeq_mask (x ∷ a) (y ∷ b) = (x == y) ∷ cmpeq_mask a b

unfoldable pub vector_xor : List ℕ → List ℕ → List ℕ
vector_xor [] b = []
vector_xor (x ∷ a) [] = []
vector_xor (x ∷ a) (y ∷ b) = bit_xor x y ∷ vector_xor a b

-- `testz`, or `test_epi64_mask` and a test for 0: no bit of both.
unfoldable pub test_zero : List ℕ → List ℕ → Bool
test_zero [] b = true
test_zero (x ∷ a) [] = true
test_zero (x ∷ a) (y ∷ b) = bit_and x y == 0 && test_zero a b

-- The loop of `load_signature` over one of its two buffers.
unfoldable pub fill : List ℕ → List ℕ → List ℕ
fill buffer [] = buffer
fill [] (v ∷ values) = []
fill (b ∷ buffer) (v ∷ values) = v ∷ fill buffer values

-- `load_signature_128`, `_256` and `_512`: the values and the masks of the elements, then zeros.
unfoldable pub load_signature : ℕ → Signature → List ℕ × List ℕ
unfolding fill
load_signature width sig = (
  fill (replicate width 0) (map (λ e. SignatureElement.value e) sig),
  fill (replicate width 0) (map (λ e. SignatureElement.mask e) sig),
)

-- `context.pairIndex` or `context.cmpIndex`.
abbrev pub compared_index : Bool → ScanContext → ℕ
compared_index true ctx = elim (ctx.pair_index) [ some i ↦ i | none ↦ 0 ]
compared_index false ctx = ctx.cmp_index

abbrev pub element_value : Signature → ℕ → ℕ
element_value sig i = SignatureElement.value (get_or sig i nullopt_element)

module _ (mode : VectorMode) (alignment : ScanAlignment) (cmpeq2 veccmp : Bool) where
  module _ (mem : Memory) (ctx : ScanContext) where
    -- Whether the signature stands at a candidate.
    unfoldable pub candidate_matches : ℕ → Bool
    candidate_matches i =
        let (bytes, mask) = load_signature (vector_width mode) ctx.signature in
        if veccmp
        then test_zero (vector_xor (load mem (vector_width mode) i) bytes) mask
        else equal_at mem ctx.signature i

    -- The `while (mask)` loop over the candidates of the vector at `it`.
    unfoldable pub candidate_loop : ℕ → ℕ → Word → Outcome
    candidate_loop it zero mask = timeout
    candidate_loop it (suc fuel) mask =
        let rest = candidate_loop it fuel (blsr mask) in
        let i = it + tzcnt mask - compared_index cmpeq2 ctx in
        if is_zero mask
        then returned none
        else if candidate_matches i
        then returned (some i)
        else rest

    -- The mask of the candidates: the first byte compares equal, and with `cmpeq2` so does the one
    -- behind it, which the last byte of the vector takes for granted; the start is aligned.
    unfoldable pub candidate_mask : ℕ → Word
    candidate_mask it =
        let width = vector_width mode in
        let cmp_index = compared_index cmpeq2 ctx in
        let vector = load mem width it in
        let first = cmpeq_mask (replicate width (element_value ctx.signature cmp_index)) vector in
        let second =
          cmpeq_mask (replicate width (element_value ctx.signature (cmp_index + 1))) vector in
        let paired =
          if cmpeq2
          then word_and first (word_or (shr_one second) (one_hot width (width - 1)))
          else first in
        elim alignment [
          | x1 ↦ paired
          | x4 ↦ word_and paired (rotl width (create_alignment_mask width 4) cmp_index)
          | x16 ↦ word_and paired (rotl width (create_alignment_mask width 16) cmp_index)
        ]

    -- `if constexpr (alignment != scan_alignment::X1)`, where the mode has the early `continue`.
    abbrev pub may_skip : Bool
    may_skip = elim alignment [ x1 ↦ false | _ ↦ skips_empty mode ]

    -- The body of the loop over the vectors.
    unfoldable pub candidates : ℕ → Outcome
    candidates it =
        let mask = candidate_mask it in
        if may_skip && is_zero mask
        then returned none
        else candidate_loop it (suc (vector_width mode)) mask

  -- `find_pattern_sse`, `find_pattern_avx2` and `find_pattern_avx512`.
  unfoldable pub find_pattern_vector : Memory → ℕ → ℕ → ScanContext → Outcome
  find_pattern_vector mem begin end ctx =
      find_segmented (vector_width mode) alignment veccmp (compared_index cmpeq2 ctx)
        (candidates mem ctx) mem begin end ctx
