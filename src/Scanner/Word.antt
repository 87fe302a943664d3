-- ===== src/Scanner/Word.antt =====
-- The bit masks of the vector scanners (`std::uint16_t`, `std::uint32_t`, `std::uint64_t`), as their
-- bits, lowest first: the operations of src/arch/x86 on them, and `create_alignment_mask`.
use libhat.Prelude.{
  ℕ, zero, suc, ◌+◌, ◌-◌, ◌%◌, ◌<◌, ◌==◌, ltb, ◌≡◌, refl, Bool, true, false, not, ◌&&◌, ◌||◌,
}
use libhat.Prelude.{
  if◌then◌else◌, List, [], ◌∷◌, ◌++◌, tabulate, get_or, get_or-tabulate, length, arith, ap,
  length-append, length-tabulate,
}

abbrev pub Word : Type 0
Word = List Bool

-- One bit; a bit past the width is 0.
abbrev pub bit : Word → ℕ → Bool
bit w i = get_or w i false

-- `a & b`.
unfoldable pub word_and : Word → Word → Word
word_and [] b = []
word_and (x ∷ a) [] = []
word_and (x ∷ a) (y ∷ b) = (x && y) ∷ word_and a b

-- `a | b`.
unfoldable pub word_or : Word → Word → Word
word_or [] b = b
word_or (x ∷ a) [] = x ∷ a
word_or (x ∷ a) (y ∷ b) = (x || y) ∷ word_or a b

-- `w >> 1`.
unfoldable pub shr_one : Word → Word
shr_one [] = []
shr_one (x ∷ w) = w ++ false ∷ []

-- `1 << i` at a width.
unfoldable pub one_hot : ℕ → ℕ → Word
one_hot width i = tabulate width (λ j. j == i)

-- `w == 0`.
unfoldable pub is_zero : Word → Bool
is_zero [] = true
is_zero (x ∷ w) = not x && is_zero w

-- `w - 1`, with the borrow.
unfoldable pub decrement : Word → Word
decrement [] = []
decrement (true ∷ w) = false ∷ w
decrement (false ∷ w) = true ∷ decrement w

-- `w & (w - 1)`, also `_blsr_u32` and `_blsr_u64`: the lowest set bit is cleared.
unfoldable pub blsr : Word → Word
unfolding word_and decrement
blsr w = word_and w (decrement w)

-- `__builtin_ctz`, `_tzcnt_u32` and `_tzcnt_u64`: how many zeros stand below the lowest set bit.
unfoldable pub tzcnt : Word → ℕ
tzcnt [] = 0
tzcnt (true ∷ w) = 0
tzcnt (false ∷ w) = suc (tzcnt w)

-- `std::rotl(w, k)`.
unfoldable pub rotl : ℕ → Word → ℕ → Word
rotl width w k = tabulate width (λ j. bit w ((j + width - k % width) % width))

-- The loop of `create_alignment_mask`: a bit for each multiple of the stride below the width.
unfoldable pub alignment_loop : ℕ → ℕ → ℕ → ℕ → Word → Word
alignment_loop zero width stride i mask = mask
alignment_loop (suc fuel) width stride i mask =
    let rest = alignment_loop fuel width stride (i + stride) (word_or mask (one_hot width i)) in
    if ltb i width then rest else mask

unfoldable pub create_alignment_mask : ℕ → ℕ → Word
unfolding alignment_loop word_or one_hot
create_alignment_mask width stride =
    alignment_loop (suc width) width stride 0 (tabulate width (λ _. false))

pub bit-word_and : (a b : Word) (i : ℕ) → bit (word_and a b) i ≡ (bit a i && bit b i)
unfolding word_and
bit-word_and [] b i = refl
bit-word_and (x ∷ a) [] i = ground arith
bit-word_and (x ∷ a) (y ∷ b) zero = refl
bit-word_and (x ∷ a) (y ∷ b) (suc i) = bit-word_and a b i

pub bit-word_or : (a b : Word) (i : ℕ) → bit (word_or a b) i ≡ (bit a i || bit b i)
unfolding word_or
bit-word_or [] b i = refl
bit-word_or (x ∷ a) [] i = ground arith
bit-word_or (x ∷ a) (y ∷ b) zero = refl
bit-word_or (x ∷ a) (y ∷ b) (suc i) = bit-word_or a b i

bit-append_zero : (w : Word) (i : ℕ) → bit (w ++ false ∷ []) i ≡ bit w i
bit-append_zero [] zero = refl
bit-append_zero [] (suc i) = refl
bit-append_zero (x ∷ w) zero = refl
bit-append_zero (x ∷ w) (suc i) = bit-append_zero w i

pub bit-shr_one : (w : Word) (i : ℕ) → bit (shr_one w) i ≡ bit w (suc i)
unfolding shr_one
bit-shr_one [] i = refl
bit-shr_one (x ∷ w) i = bit-append_zero w i

pub bit-one_hot : (width i j : ℕ) → j < width → bit (one_hot width i) j ≡ (j == i)
unfolding one_hot
bit-one_hot width i j h = get_or-tabulate width _ j false h

pub bit-rotl :
    (width : ℕ) (w : Word) (k j : ℕ)
    → j < width
    → bit (rotl width w k) j ≡ bit w ((j + width - k % width) % width)
unfolding rotl
bit-rotl width w k j h = get_or-tabulate width _ j false h

pub length-word_and : (a b : Word) → length a ≡ length b → length (word_and a b) ≡ length a
unfolding word_and
length-word_and [] b h = refl
length-word_and (x ∷ a) [] h = absurd (omega arith)
length-word_and (x ∷ a) (y ∷ b) h = omega (arith, length-word_and a b (omega arith))

pub length-word_or : (a b : Word) → length a ≡ length b → length (word_or a b) ≡ length a
unfolding word_or
length-word_or [] [] h = refl
length-word_or [] (y ∷ b) h = absurd (omega arith)
length-word_or (x ∷ a) [] h = absurd (omega arith)
length-word_or (x ∷ a) (y ∷ b) h = omega (arith, length-word_or a b (omega arith))

pub length-shr_one : (w : Word) → length (shr_one w) ≡ length w
unfolding shr_one
length-shr_one [] = refl
length-shr_one (x ∷ w) = omega (arith, length-append w (false ∷ []))

pub length-one_hot : (width i : ℕ) → length (one_hot width i) ≡ width
unfolding one_hot
length-one_hot width i = length-tabulate width _

pub length-rotl : (width : ℕ) (w : Word) (k : ℕ) → length (rotl width w k) ≡ width
unfolding rotl
length-rotl width w k = length-tabulate width _

word_and_self : (w : Word) → word_and w w ≡ w
unfolding word_and
word_and_self [] = refl
word_and_self (true ∷ w) = ap (◌∷◌ true) (word_and_self w)
word_and_self (false ∷ w) = ap (◌∷◌ false) (word_and_self w)

-- Clearing the lowest set bit, when that is bit 0.
pub blsr-set : (w : Word) → blsr (true ∷ w) ≡ false ∷ w
unfolding blsr
blsr-set w = ap (◌∷◌ false) (word_and_self w)
