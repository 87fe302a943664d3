-- ===== src/Scanner/NeonFirst.antt =====
-- The Neon scanner finds the first aligned occurrence of the signature.
use libhat.Prelude.{ℕ, ◌+◌, ◌-◌, ◌*◌, ◌%◌, ◌<◌, ◌≤◌, ◌≡◌, refl, ◌==◌, Bool, true, ◌&&◌}
use libhat.Prelude.{length, arith, Bool-cases, inl, inr, ◌∙◌, sym, ap}
use libhat.Scanner.Context.{
  Memory, IsBytes, ScanAlignment, x1, x4, x16, to_stride, ScanContext, occurs, equal_at,
}
use libhat.Scanner.First.{Finds}
use libhat.Scanner.Word.{
  Word, bit, word_and, rotl, create_alignment_mask, bit-word_and, length-word_and, length-rotl,
}
use libhat.Scanner.Vector.{sse, compared_index, load_signature}
use libhat.Scanner.Neon.{
  create_alignment_mask_neon, spread, neon_matches, neon_compare, neon_mask, neon_candidates,
  find_pattern_neon,
}
use libhat.Scanner.Nibbles.{spread-word_and, spread-rotl, create_alignment_mask_neon_lem}
use libhat.Scanner.Mask.{same_mask-set, length-same_mask, and_false, bit-choice, length-choice}
use libhat.Scanner.Rotation.{create_alignment_mask_lem, bit-rotated}
use libhat.Scanner.BlocksFirst.{find_segmented-Finds}
use libhat.Scanner.Compare.{test_zero-equal_at}
use libhat.Scanner.NeonLoop.{neon_loop-Finds}
use libhat.Scanner.VectorFirst.{IsVectorContext}

module _ (cmpeq2 veccmp : Bool) (mem : Memory) (bytes : IsBytes mem) (ctx : ScanContext)
    (valid : IsVectorContext sse cmpeq2 veccmp ctx) where
  abbrev index_compared : ℕ
  index_compared = compared_index cmpeq2 ctx

  abbrev Compare : ScanAlignment → ℕ → Word
  Compare a it = neon_compare a cmpeq2 veccmp mem ctx it

  -- The lanes that the mask stands for.
  abbrev lanes : ScanAlignment → ℕ → Word
  lanes x1 it = Compare x1 it
  lanes x4 it = word_and (Compare x4 it) (rotl 16 (create_alignment_mask 16 4) index_compared)
  lanes x16 it = word_and (Compare x16 it) (rotl 16 (create_alignment_mask 16 16) index_compared)

  -- The rotated mask of four-bit lanes stands for the rotated mask of single bits.
  turned :
      (stride : ℕ) (v : Word)
      → create_alignment_mask_neon stride ≡ spread v
      → create_alignment_mask 16 stride ≡ v
      → (w : Word)
      → word_and (spread w) (rotl 64 (create_alignment_mask_neon stride) (index_compared * 4))
        ≡ spread (word_and w (rotl 16 (create_alignment_mask 16 stride) index_compared))
  turned stride v p q w =
      rw (p, q, spread-rotl v index_compared, spread-word_and w (rotl 16 v index_compared)) refl

  neon_mask-spread :
      (a : ScanAlignment) (it : ℕ) → neon_mask a cmpeq2 veccmp mem ctx it ≡ spread (lanes a it)
  unfolding neon_mask
  neon_mask-spread x1 it = refl
  neon_mask-spread x4 it =
      turned 4 _ create_alignment_mask_neon_lem.0 (create_alignment_mask_lem sse).0 _
  neon_mask-spread x16 it =
      turned 16 _ create_alignment_mask_neon_lem.1 (create_alignment_mask_lem sse).1 _

  length-compare : (a : ScanAlignment) (it : ℕ) → length (Compare a it) ≡ 16
  unfolding neon_compare
  length-compare a it =
      let first = length-same_mask sse a cmpeq2 veccmp mem bytes ctx it index_compared in
      let second =
        length-same_mask sse a cmpeq2 veccmp mem bytes ctx (it + 1) (index_compared + 1) in
      length-choice cmpeq2 _ _ 16 (length-word_and _ _ (first ∙ sym second) ∙ first) first

  length-lanes : (a : ScanAlignment) (it : ℕ) → length (lanes a it) ≡ 16
  length-lanes x1 it = length-compare x1 it
  length-lanes x4 it =
      length-word_and _ _ (length-compare x4 it ∙ sym (length-rotl 16 _ index_compared))
      ∙ length-compare x4 it
  length-lanes x16 it =
      length-word_and _ _ (length-compare x16 it ∙ sym (length-rotl 16 _ index_compared))
      ∙ length-compare x16 it

  compare-set :
      (a : ScanAlignment) (it o : ℕ)
      → o < 16
      → index_compared ≤ it + o
      → equal_at mem ctx.signature (it + o - index_compared) ≡ true
      → bit (Compare a it) o ≡ true
  unfolding neon_compare
  compare-set a it o lt le h =
      bit-choice cmpeq2 _ _ o
        (λ two. bit-word_and _ _ o ∙ (λ i.
          same_mask-set sse a cmpeq2 veccmp mem bytes ctx it index_compared o
            (it + o - index_compared) lt (omega arith) valid.full h i
          && same_mask-set sse a cmpeq2 veccmp mem bytes ctx (it + 1) (index_compared + 1) o
              (it + o - index_compared) lt (omega arith) (valid.next_full two) h i))
        (same_mask-set sse a cmpeq2 veccmp mem bytes ctx it index_compared o
          (it + o - index_compared) lt (omega arith) valid.full h)

  lane_bit :
      (a : ScanAlignment) (it o : ℕ)
      → it % 16 ≡ 0
      → o < 16
      → index_compared ≤ it
      → equal_at mem ctx.signature (it + o - index_compared) ≡ true
      → bit (lanes a it) o ≡ ((it + o - index_compared) % to_stride a == 0)
  lane_bit x1 it o aligned lt le h =
      let at_one : ((it + o - index_compared) % 1 == 0) ≡ true = ground arith in
      compare-set x1 it o lt (omega arith) h ∙ sym at_one
  lane_bit x4 it o aligned lt le h =
      let turn = bit-rotated sse it o index_compared le aligned lt in
      bit-word_and _ _ o ∙ (λ i. compare-set x4 it o lt (omega arith) h i && turn.0 i)
  lane_bit x16 it o aligned lt le h =
      let turn = bit-rotated sse it o index_compared le aligned lt in
      bit-word_and _ _ o ∙ (λ i. compare-set x16 it o lt (omega arith) h i && turn.1 i)

  neon_matches-equal_at :
      (a : ScanAlignment) (start : ℕ)
      → neon_matches a cmpeq2 veccmp mem ctx start ≡ equal_at mem ctx.signature start
  unfolding neon_matches load_signature
  neon_matches-equal_at a start = elim (Bool-cases veccmp) [
    | inl e ↦
        rw e (test_zero-equal_at 16 ctx.signature mem start (valid.fits e) valid.context.elements)
    | inr e ↦ rw e refl
  ]

  occurs-lanes :
      (a : ScanAlignment) (it o : ℕ)
      → it % 16 ≡ 0
      → o < 16
      → index_compared ≤ it
      → occurs mem ctx.signature a (it + o - index_compared)
        ≡ (bit (lanes a it) o && neon_matches a cmpeq2 veccmp mem ctx (it + o - index_compared))
  unfolding occurs
  occurs-lanes a it o aligned lt le =
      rw (neon_matches-equal_at a (it + o - index_compared))
        (elim (Bool-cases (equal_at mem ctx.signature (it + o - index_compared))) [
          | inr differs ↦ rw differs (and_false _ ∙ sym (and_false _))
          | inl same ↦ rw same (ap (λ b. b && true) (sym (lane_bit a it o aligned lt le same)))
        ])

  neon_candidates-Finds :
      (a : ScanAlignment) (it : ℕ)
      → it % 16 ≡ 0
      → index_compared ≤ it
      → Finds
          (λ t. occurs mem ctx.signature a t)
          (it - index_compared)
          (it + 16 - index_compared)
          (neon_candidates a cmpeq2 veccmp mem ctx it)
  unfolding neon_candidates
  neon_candidates-Finds a it aligned le =
      let size = length-lanes a it in
      let found =
        neon_loop-Finds a cmpeq2 veccmp mem ctx (λ t. occurs mem ctx.signature a t) (lanes a it) 17
          it le (omega arith) (λ o lt. occurs-lanes a it o aligned (omega arith) le) in
      rw (neon_mask-spread a it) (rw size at found)

  -- With a context that suits the scanner (the compared bytes are whole, and with `veccmp` the
  -- signature fits a vector), memory of bytes and a range with room for the signature, the Neon
  -- scanner returns the first place at the alignment where the signature stands, and null when
  -- there is none.
  pub find_pattern_neon-Finds :
      (alignment : ScanAlignment) (begin end : ℕ)
      → begin + length ctx.signature ≤ end
      → Finds
          (λ t. occurs mem ctx.signature alignment t)
          begin
          (end - length ctx.signature + 1)
          (find_pattern_neon alignment cmpeq2 veccmp mem begin end ctx)
  unfolding find_pattern_neon
  find_pattern_neon-Finds alignment begin end room =
      find_segmented-Finds 16 alignment mem bytes ctx valid.context index_compared
        (neon_candidates alignment cmpeq2 veccmp mem ctx) (omega arith)
        (neon_candidates-Finds alignment) veccmp begin end valid.full.0 valid.fits room
