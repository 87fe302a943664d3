-- ===== src/Scanner/Nibbles.antt =====
-- The four-bit lanes of the Neon mask: what the operations on them do to the comparison they stand for.
use libhat.Prelude.{ℕ, zero, suc, ◌+◌, ◌-◌, ◌*◌, ◌/◌, ◌%◌, ◌<◌, ◌≡◌, refl, ◌==◌, true, false, ◌&&◌}
use libhat.Prelude.{[], ◌∷◌, length, tabulate, arith, ap, ◌∙◌}
use libhat.Scanner.Word.{Word, bit, word_and, is_zero, rotl, bit-rotl, length-rotl}
use libhat.Scanner.Neon.{word_xor, nibble, spread, create_alignment_mask_neon}

-- Words of one length with the same bits are the same.
word_ext : (a b : Word) → length a ≡ length b → ((i : ℕ) → i < length a → bit a i ≡ bit b i) → a ≡ b
word_ext [] [] e h = refl
word_ext [] (y ∷ b) e h = absurd (omega arith)
word_ext (x ∷ a) [] e h = absurd (omega arith)
word_ext (x ∷ a) (y ∷ b) e h =
    λ i. h 0 (omega arith) i ∷ word_ext a b (omega arith) (λ j lt. h (suc j) (omega arith)) i

bit-spread : (w : Word) (i : ℕ) → bit (spread w) i ≡ bit w (i / 4)
bit-spread [] i = refl
bit-spread (b ∷ w) zero = refl
bit-spread (b ∷ w) (suc zero) = refl
bit-spread (b ∷ w) (suc (suc zero)) = refl
bit-spread (b ∷ w) (suc (suc (suc zero))) = refl
bit-spread (b ∷ w) (suc (suc (suc (suc i)))) =
    let next : suc (suc (suc (suc i))) / 4 ≡ suc (i / 4) = omega arith in rw next (bit-spread w i)

length-spread : (w : Word) → length (spread w) ≡ length w * 4
length-spread [] = refl
length-spread (b ∷ w) = omega (arith, length-spread w)

pub spread-word_and : (a b : Word) → word_and (spread a) (spread b) ≡ spread (word_and a b)
unfolding word_and
spread-word_and [] b = refl
spread-word_and (x ∷ a) [] = refl
spread-word_and (x ∷ a) (y ∷ b) =
    ap (λ w. (x && y) ∷ (x && y) ∷ (x && y) ∷ (x && y) ∷ w) (spread-word_and a b)

-- A rotation by whole lanes.
pub spread-rotl : (w : Word) (k : ℕ) → rotl 64 (spread w) (k * 4) ≡ spread (rotl 16 w k)
spread-rotl w k =
    word_ext _ _
      (length-rotl 64 (spread w) (k * 4)
        ∙ omega (arith, length-spread (rotl 16 w k), length-rotl 16 w k))
      (λ j lt.
        let inside : j < 64 = omega (arith, length-rotl 64 (spread w) (k * 4)) in
        let lane : j / 4 < 16 = omega arith in
        let same : ((j + 64 - (k * 4) % 64) % 64) / 4 ≡ (j / 4 + 16 - k % 16) % 16 = omega arith in
        rw
          (
            bit-rotl 64 (spread w) (k * 4) j inside,
            bit-spread w ((j + 64 - (k * 4) % 64) % 64),
            bit-spread (rotl 16 w k) j,
            bit-rotl 16 w k (j / 4) lane,
            same,
          )
          refl)

pub create_alignment_mask_neon_lem :
    (create_alignment_mask_neon 4 ≡ spread (tabulate 16 (λ i. i % 4 == 0)))
    × (create_alignment_mask_neon 16 ≡ spread (tabulate 16 (λ i. i % 16 == 0)))
unfolding create_alignment_mask_neon
create_alignment_mask_neon_lem = (refl, refl)

is_zero-spread : (w : Word) → is_zero (spread w) ≡ is_zero w
unfolding is_zero
is_zero-spread [] = refl
is_zero-spread (true ∷ w) = refl
is_zero-spread (false ∷ w) = is_zero-spread w

word_xor-empty : (w : Word) → word_xor w [] ≡ w
unfolding word_xor
word_xor-empty [] = refl
word_xor-empty (x ∷ w) = refl

-- Clearing the lowest lane.
pub word_xor-lane : (w : Word) → word_xor (spread (true ∷ w)) (nibble 0) ≡ spread (false ∷ w)
unfolding word_xor
word_xor-lane w = ap (λ v. false ∷ false ∷ false ∷ false ∷ v) (word_xor-empty (spread w))
