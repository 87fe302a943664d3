-- ===== src/Scanner/Occurrences.antt =====
-- The list of all the places at which a test holds, and how its first member splits it.
use libhat.Prelude.{ℕ, zero, suc, ◌+◌, ◌-◌, ◌<◌, ◌≡◌, refl, Bool, true, if◌then◌else◌}
use libhat.Prelude.{List, [], ◌∷◌, arith, none, some, ◌∙◌}
use libhat.Signature.Element.{Signature}
use libhat.Scanner.Context.{Memory, ScanAlignment, x1, x4, x16, to_stride, occurs}
use libhat.Scanner.First.{IsFirst}

-- The addresses from `lo` on, `n` of them, that pass the test.
unfoldable pub occurrences : (ℕ → Bool) → ℕ → ℕ → List ℕ
occurrences test lo zero = []
occurrences test lo (suc n) =
    if test lo then lo ∷ occurrences test (lo + 1) n else occurrences test (lo + 1) n

module _ (test : ℕ → Bool) where
  pub occurrences-none : (n lo : ℕ) → IsFirst test lo (lo + n) none → occurrences test lo n ≡ []
  unfolding occurrences
  occurrences-none zero lo h = refl
  occurrences-none (suc n) lo h =
      rw (h lo (omega arith) (omega arith))
        (occurrences-none n (lo + 1) (λ t p q. h t (omega arith) (omega arith)))

  -- Places where the test fails may be left out in front.
  pub occurrences-skip :
      (k n lo : ℕ)
      → IsFirst test lo (lo + k) none
      → occurrences test lo n ≡ occurrences test (lo + k) (n - k)
  unfolding occurrences
  occurrences-skip zero n lo h =
      let e : lo + 0 ≡ lo = omega arith in let e' : n - 0 ≡ n = omega arith in rw (e, e') refl
  occurrences-skip (suc k) zero lo h = let e : 0 - suc k ≡ 0 = omega arith in rw e refl
  occurrences-skip (suc k) (suc n) lo h =
      let e : lo + suc k ≡ lo + 1 + k = omega arith in
      let e' : suc n - suc k ≡ n - k = omega arith in
      rw (h lo (omega arith) (omega arith), e, e')
        (occurrences-skip k n (lo + 1) (λ t p q. h t (omega arith) (omega arith)))

  pub occurrences-first :
      (lo n s : ℕ)
      → IsFirst test lo (lo + n) (some s)
      → occurrences test lo n ≡ s ∷ occurrences test (s + 1) (lo + n - (s + 1))
  occurrences-first lo n s h =
      let there : lo + (s - lo) ≡ s = omega arith in
      let left : n - (s - lo) ≡ suc (lo + n - (s + 1)) = omega arith in
      occurrences-skip (s - lo) n lo (λ t p q. h.3 t p (omega arith))
      ∙ rw (there, left) (unfold occurrences in rw (h.2) refl)

-- After an occurrence the next place that is aligned is one stride on.
pub between_aligned :
    (mem : Memory) (sig : Signature) (alignment : ScanAlignment) (s : ℕ)
    → occurs mem sig alignment s ≡ true
    → IsFirst (λ t. occurs mem sig alignment t) (s + 1) (s + 1 + (to_stride alignment - 1)) none
unfolding occurs
between_aligned mem sig x1 s h t lo hi = absurd (omega arith)
between_aligned mem sig x4 s h t lo hi = ground arith
between_aligned mem sig x16 s h t lo hi = ground arith

pub to_stride-pos : (alignment : ScanAlignment) → 0 < to_stride alignment
to_stride-pos x1 = omega arith
to_stride-pos x4 = omega arith
to_stride-pos x16 = omega arith
