-- ===== src/Scanner/Rotation.antt =====
-- The comparison with one byte and the rotated alignment mask, bit by bit.
use libhat.Prelude.{ℕ, zero, suc, ◌+◌, ◌-◌, ◌%◌, ◌<◌, ◌≤◌, ◌≡◌, refl, ◌==◌, false}
use libhat.Prelude.{length, tabulate, replicate, arith, ◌∙◌, ap}
use libhat.Prelude.{get_or-tabulate}
use native.Mathlib.Nat.{mod-lt}
use libhat.Scanner.Word.{bit, rotl, create_alignment_mask, bit-rotl}
use libhat.Scanner.Vector.{VectorMode, sse, avx2, avx512, vector_width, cmpeq_mask}

pub bit-cmpeq_mask :
    (n : ℕ) (b : ℕ) (f : ℕ → ℕ) (o : ℕ)
    → o < n
    → bit (cmpeq_mask (replicate n b) (tabulate n f)) o ≡ (b == f o)
unfolding cmpeq_mask
bit-cmpeq_mask zero b f o h = absurd (omega arith)
bit-cmpeq_mask (suc n) b f zero h = refl
bit-cmpeq_mask (suc n) b f (suc o) h = bit-cmpeq_mask n b (λ i. f (suc i)) o (omega arith)

pub length-cmpeq_mask :
    (n : ℕ) (b : ℕ) (f : ℕ → ℕ) → length (cmpeq_mask (replicate n b) (tabulate n f)) ≡ n
unfolding cmpeq_mask
length-cmpeq_mask zero b f = refl
length-cmpeq_mask (suc n) b f = omega (arith, length-cmpeq_mask n b (λ i. f (suc i)))

-- `create_alignment_mask` has a bit for each multiple of the stride, for every type and alignment.
pub create_alignment_mask_lem :
    (mode : VectorMode)
    → (create_alignment_mask (vector_width mode) 4 ≡ tabulate (vector_width mode) (λ i. i % 4 == 0))
      × (create_alignment_mask (vector_width mode) 16
          ≡ tabulate (vector_width mode) (λ i. i % 16 == 0))
unfolding create_alignment_mask
create_alignment_mask_lem sse = (refl, refl)
create_alignment_mask_lem avx2 = (refl, refl)
create_alignment_mask_lem avx512 = (refl, refl)

-- The bit of a candidate in the rotated alignment mask tells whether its start is aligned.
module _ (it o index : ℕ) (le : index ≤ it) where
  rotation_16 :
      it % 16 ≡ 0
      → o < 16
      → (((o + 16 - index % 16) % 16) % 4 ≡ (it + o - index) % 4)
        × (((o + 16 - index % 16) % 16) % 16 ≡ (it + o - index) % 16)
  rotation_16 h lt = omega arith

  rotation_32 :
      it % 32 ≡ 0
      → o < 32
      → (((o + 32 - index % 32) % 32) % 4 ≡ (it + o - index) % 4)
        × (((o + 32 - index % 32) % 32) % 16 ≡ (it + o - index) % 16)
  rotation_32 h lt = omega arith

  rotation_64 :
      it % 64 ≡ 0
      → o < 64
      → (((o + 64 - index % 64) % 64) % 4 ≡ (it + o - index) % 4)
        × (((o + 64 - index % 64) % 64) % 16 ≡ (it + o - index) % 16)
  rotation_64 h lt = omega arith

rotation :
    (mode : VectorMode) (it o index : ℕ)
    → index ≤ it
    → it % vector_width mode ≡ 0
    → o < vector_width mode
    → (((o + vector_width mode - index % vector_width mode) % vector_width mode) % 4
        ≡ (it + o - index) % 4)
      × (((o + vector_width mode - index % vector_width mode) % vector_width mode) % 16
          ≡ (it + o - index) % 16)
rotation sse it o index le h lt = rotation_16 it o index le h lt
rotation avx2 it o index le h lt = rotation_32 it o index le h lt
rotation avx512 it o index le h lt = rotation_64 it o index le h lt

-- Both strides of the rotated alignment mask, in each mode.
pub bit-rotated :
    (mode : VectorMode) (it o index : ℕ)
    → index ≤ it
    → it % vector_width mode ≡ 0
    → o < vector_width mode
    → (bit (rotl (vector_width mode) (create_alignment_mask (vector_width mode) 4) index) o
        ≡ ((it + o - index) % 4 == 0))
      × (bit (rotl (vector_width mode) (create_alignment_mask (vector_width mode) 16) index) o
          ≡ ((it + o - index) % 16 == 0))
bit-rotated mode it o index le aligned lt =
    let width = vector_width mode in
    let pos : 0 < width = omega arith in
    let place = (o + width - index % width) % width in
    let inside : place < width = mod-lt (o + width - index % width) pos in
    let laws = create_alignment_mask_lem mode in
    let turns = rotation mode it o index le aligned lt in
    (
      rw (bit-rotl width (create_alignment_mask width 4) index o lt, laws.0)
          (get_or-tabulate width (λ i. i % 4 == 0) place false inside ∙ ap (λ n. n == 0) turns.0),
      rw (bit-rotl width (create_alignment_mask width 16) index o lt, laws.1)
          (get_or-tabulate width (λ i. i % 16 == 0) place false inside ∙ ap (λ n. n == 0) turns.1),
    )
