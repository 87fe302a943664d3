-- ===== src/Scanner/Mask.antt =====
-- The candidate mask of the vector scanners: its bits agree with the occurrences of the signature.
use libhat.Prelude.{ℕ, suc, ◌+◌, ◌-◌, ◌%◌, ◌<◌, ◌≤◌, ◌≡◌, refl, ◌==◌, Bool, true, false, ◌&&◌}
use libhat.Prelude.{
  if◌then◌else◌, length, replicate, arith, Bool-cases, inl, inr, ◌∙◌, sym, ap, if_both,
}
use libhat.Scanner.Context.{
  Memory, IsBytes, ScanAlignment, x1, x4, x16, to_stride, ScanContext, equal_at, occurs,
}
use libhat.Scanner.Word.{
  Word, bit, word_and, word_or, shr_one, one_hot, bit-word_and, bit-word_or, bit-shr_one,
  bit-one_hot, length-word_and, length-word_or, length-shr_one, length-one_hot, length-rotl,
}
use libhat.Scanner.Valid.{IsFull, full_byte_needed}
use libhat.Scanner.Vector.{
  VectorMode, vector_width, load, cmpeq_mask, compared_index, element_value, candidate_mask,
}
use libhat.Scanner.Rotation.{bit-cmpeq_mask, length-cmpeq_mask, bit-rotated}

pub bit-choice :
    (c : Bool) (a b : Word) (o : ℕ)
    → (c ≡ true → bit a o ≡ true)
    → bit b o ≡ true
    → bit (if c then a else b) o ≡ true
bit-choice true a b o p q = p refl
bit-choice false a b o p q = q

pub length-choice :
    (c : Bool) (a b : Word) (n : ℕ) → length a ≡ n → length b ≡ n → length (if c then a else b) ≡ n
length-choice true a b n p q = p
length-choice false a b n p q = q

pub and_false : (b : Bool) → (b && false) ≡ false
and_false b = ground arith

module _ (mode : VectorMode) (alignment : ScanAlignment) (cmpeq2 veccmp : Bool) (mem : Memory)
    (bytes : IsBytes mem) (ctx : ScanContext) where
  abbrev index_compared : ℕ
  index_compared = compared_index cmpeq2 ctx

  abbrev Mask : ℕ → Word
  Mask it = candidate_mask mode alignment cmpeq2 veccmp mem ctx it

  abbrev width : ℕ
  width = vector_width mode

  -- The vector of bytes and the comparison with one byte of the signature.
  abbrev pub same_mask : ℕ → ℕ → Word
  same_mask it i = cmpeq_mask (replicate width (element_value ctx.signature i)) (load mem width it)

  bit-same_mask :
      (it i o : ℕ)
      → o < width
      → bit (same_mask it i) o ≡ (element_value ctx.signature i == mem (it + o))
  unfolding load
  bit-same_mask it i o lt =
      bit-cmpeq_mask width (element_value ctx.signature i) (λ j. mem (it + j)) o lt

  -- A bit is set where a whole byte of the signature that stands at `start` is compared.
  pub same_mask-set :
      (it i o start : ℕ)
      → o < width
      → it + o ≡ start + i
      → IsFull ctx.signature i
      → equal_at mem ctx.signature start ≡ true
      → bit (same_mask it i) o ≡ true
  same_mask-set it i o start lt e full h =
      let there = full_byte_needed mem ctx.signature start i bytes full h in
      rw (bit-same_mask it i o lt, e) (ground arith)

  pub length-same_mask : (it i : ℕ) → length (same_mask it i) ≡ width
  unfolding load
  length-same_mask it i =
      length-cmpeq_mask width (element_value ctx.signature i) (λ j. mem (it + j))

  abbrev paired : ℕ → Word
  paired it =
      if cmpeq2
      then word_and (same_mask it index_compared)
          (word_or (shr_one (same_mask it (index_compared + 1))) (one_hot width (width - 1)))
      else same_mask it index_compared

  length-paired : (it : ℕ) → length (paired it) ≡ width
  length-paired it =
      let first = length-same_mask it index_compared in
      let second = length-same_mask it (index_compared + 1) in
      let moved = length-shr_one (same_mask it (index_compared + 1)) in
      let top = length-one_hot width (width - 1) in
      let both =
        length-word_or (shr_one (same_mask it (index_compared + 1))) (one_hot width (width - 1))
          (omega arith) in
      if_both (λ w. length w ≡ width) cmpeq2
        (omega (
          arith,
          length-word_and (same_mask it index_compared)
              (word_or (shr_one (same_mask it (index_compared + 1))) (one_hot width (width - 1)))
              (omega arith),
        ))
        first

  -- The mask has a bit for each byte of the vector.
  pub length-candidate_mask : (it : ℕ) → length (Mask it) ≡ width
  length-candidate_mask it =
      let both = length-paired it in
      (elim alignment as (λ a. length (candidate_mask mode a cmpeq2 veccmp mem ctx it) ≡ width) [
        | x1 ↦ unfold candidate_mask in both
        | x4 ↦
            unfold candidate_mask in
            (length-word_and (paired it) _ (both ∙ sym (length-rotl width _ index_compared)) ∙ both)
        | x16 ↦
            unfold candidate_mask in
            (length-word_and (paired it) _ (both ∙ sym (length-rotl width _ index_compared)) ∙ both)
      ])

  -- The compared places of the signature hold whole bytes.
  module _ (full : IsFull ctx.signature index_compared)
      (next_full : cmpeq2 ≡ true → IsFull ctx.signature (index_compared + 1)) where
    second_bit :
        (it o : ℕ)
        → o < width
        → IsFull ctx.signature (index_compared + 1)
        → index_compared ≤ it + o
        → equal_at mem ctx.signature (it + o - index_compared) ≡ true
        → bit (word_or (shr_one (same_mask it (index_compared + 1))) (one_hot width (width - 1))) o
          ≡ true
    second_bit it o lt next le h =
        rw
          (
            bit-word_or (shr_one (same_mask it (index_compared + 1))) (one_hot width (width - 1)) o,
            bit-shr_one (same_mask it (index_compared + 1)) o,
            bit-one_hot width (width - 1) o lt,
          )
          (elim (Bool-cases (o == width - 1)) [
            | inl last ↦ rw last (ground arith)
            | inr inner ↦
                let inside : suc o < width = ground arith in
                rw
                  (same_mask-set it (index_compared + 1) (suc o) (it + o - index_compared) inside
                    (omega arith) next h)
                  refl
          ])

    paired-set :
        (it o : ℕ)
        → o < width
        → index_compared ≤ it + o
        → equal_at mem ctx.signature (it + o - index_compared) ≡ true
        → bit (paired it) o ≡ true
    paired-set it o lt le h =
        let first =
          same_mask-set it index_compared o (it + o - index_compared) lt (omega arith) full h in
        bit-choice cmpeq2 _ _ o
          (λ two.
            bit-word_and (same_mask it index_compared) _ o
            ∙ (λ i. first i && second_bit it o lt (next_full two) le h i))
          first

    mask-bit :
        (it o : ℕ)
        → it % width ≡ 0
        → o < width
        → index_compared ≤ it
        → equal_at mem ctx.signature (it + o - index_compared) ≡ true
        → bit (Mask it) o ≡ ((it + o - index_compared) % to_stride alignment == 0)
    mask-bit it o aligned lt le h =
        let set = paired-set it o lt (omega arith) h in
        let turned = bit-rotated mode it o index_compared le aligned lt in
        let at_one : ((it + o - index_compared) % 1 == 0) ≡ true = ground arith in
        (elim alignment
          as (λ a.
            bit (candidate_mask mode a cmpeq2 veccmp mem ctx it) o
            ≡ ((it + o - index_compared) % to_stride a == 0)) [
              | x1 ↦ unfold candidate_mask in (set ∙ sym at_one)
              | x4 ↦
                  unfold candidate_mask in
                  (bit-word_and (paired it) _ o ∙ (λ i. set i && turned.0 i))
              | x16 ↦
                  unfold candidate_mask in
                  (bit-word_and (paired it) _ o ∙ (λ i. set i && turned.1 i))
            ])

    -- At a candidate in the vector at `it`, the mask and the comparison together decide whether the
    -- signature occurs.
    pub occurs-candidate_mask :
        (it o : ℕ)
        → it % width ≡ 0
        → o < width
        → index_compared ≤ it
        → occurs mem ctx.signature alignment (it + o - index_compared)
          ≡ (bit (Mask it) o && equal_at mem ctx.signature (it + o - index_compared))
    occurs-candidate_mask it o aligned lt le =
        elim (Bool-cases (equal_at mem ctx.signature (it + o - index_compared))) [
          | inr differs ↦ unfold occurs in rw differs (and_false _ ∙ sym (and_false _))
          | inl same ↦
              unfold occurs in
              rw same (ap (λ b. b && true) (sym (mask-bit it o aligned lt le same)))
        ]
