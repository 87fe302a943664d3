-- ===== src/Scanner/Strided.antt =====
-- `find_pattern_single` at the alignments X4 and X16: the strided loop finds the first occurrence.
use libhat.Prelude.{ℕ, zero, suc, ◌+◌, ◌-◌, ◌%◌, ◌≤◌, ◌<◌, ◌≡◌, refl, ◌==◌, Bool, false, ◌&&◌}
use libhat.Prelude.{leb, none, arith, length, Bool-cases, inl, inr, ◌≢◌}
use libhat.Scanner.Context.{Memory, IsBytes, ScanContext, align_up, equal_at, Outcome}
use libhat.Scanner.First.{IsFirst, Finds, Finds-append, Finds-bounds}
use libhat.Scanner.Valid.{IsContext, cmp_byte_missing}
use libhat.Scanner.Single.{cmp_byte, stride_loop, find_strided}

-- What the loop over X4 and X16 needs of its step.
pub record IsStride (k : ℕ) : Type 0 where
  pub positive : 0 < k
  pub again : (s : ℕ) → s % k ≡ 0 → (s + k) % k ≡ 0
  pub between : (s t : ℕ) → s % k ≡ 0 → s < t → t < s + k → t % k ≢ 0
  pub fits : (s t : ℕ) → s % k ≡ 0 → t % k ≡ 0 → s < t → s + k ≤ t
  pub up_aligned : (a : ℕ) → align_up k a % k ≡ 0
  pub up_le : (a : ℕ) → a ≤ align_up k a
  pub up_least : (a t : ℕ) → t % k ≡ 0 → a ≤ t → align_up k a ≤ t

pub four : IsStride 4
unfolding align_up
four = record {
  positive = omega arith;
  again = λ s h. omega arith;
  between = λ s t h p q. omega arith;
  fits = λ s t h p q. omega arith;
  up_aligned = λ a. ground arith;
  up_le = λ a. ground arith;
  up_least = λ a t h le. ground arith;
}

pub sixteen : IsStride 16
unfolding align_up
sixteen = record {
  positive = omega arith;
  again = λ s h. omega arith;
  between = λ s t h p q. omega arith;
  fits = λ s t h p q. omega arith;
  up_aligned = λ a. ground arith;
  up_le = λ a. ground arith;
  up_least = λ a t h le. ground arith;
}

module _ (mem : Memory) (bytes : IsBytes mem) (ctx : ScanContext) (valid : IsContext ctx) where
  module _ (k : ℕ) (stride : IsStride k) where
    abbrev aligned_at : ℕ → Bool
    aligned_at t = t % k == 0 && equal_at mem ctx.signature t

    none_until_next :
        (s : ℕ)
        → s % k ≡ 0
        → equal_at mem ctx.signature s ≡ false
        → IsFirst aligned_at s (s + k) none
    none_until_next s h miss t lo hi = elim (Bool-cases (s == t)) [
      | inl same ↦ ground arith
      | inr other ↦ ground (arith, stride.between s t h)
    ]

    go_on :
        (s hi : ℕ) (r : Outcome)
        → s % k ≡ 0
        → equal_at mem ctx.signature s ≡ false
        → Finds aligned_at (s + k) hi r
        → Finds aligned_at s hi r
    go_on s hi r h miss rest =
        Finds-append aligned_at s (s + k) (s + k) hi r (none_until_next s h miss) rest (omega arith)
          (omega arith)

    stride_loop-Finds :
        (hi : ℕ)
        → hi % k ≡ 0
        → (fuel i s : ℕ) → i ≡ s + ctx.cmp_index
        → s % k ≡ 0
        → s ≤ hi
        → hi - s < fuel
        → Finds aligned_at s hi (stride_loop mem ctx (hi + ctx.cmp_index) k fuel i)
    unfolding stride_loop
    stride_loop-Finds hi he zero i s e h le lt = absurd (omega arith)
    stride_loop-Finds hi he (suc fuel) i s e h le lt =
        let start : i - ctx.cmp_index ≡ s = omega arith in
        elim (Bool-cases (i == hi + ctx.cmp_index)) [
          | inl at_end ↦ rw at_end (λ t lo lt'. absurd (ground arith))
          | inr inside ↦
              let below : s < hi = ground arith in
              let rest =
                stride_loop-Finds hi he fuel (i + k) (s + k) (omega arith) (stride.again s h)
                  (stride.fits s hi h he below) (omega (arith, stride.positive)) in
              rw inside (elim (Bool-cases (mem i == cmp_byte ctx)) [
                | inr miss ↦
                    rw miss (go_on s hi _ h (cmp_byte_missing mem bytes ctx valid s i e miss) rest)
                | inl same ↦
                    rw (same, start)
                      (elim (Bool-cases (equal_at mem ctx.signature s)) [
                        | inl found ↦
                            rw found
                              (omega arith, below, ground arith, λ t lo lt'. absurd (omega arith))
                        | inr differs ↦ rw differs (go_on s hi _ h differs rest)
                      ])
              ])
        ]

  pub find_strided-Finds :
      (k : ℕ) (stride : IsStride k) (begin end : ℕ)
      → begin + length ctx.signature ≤ end
      → Finds
          (λ t. t % k == 0 && equal_at mem ctx.signature t)
          begin
          (end - length ctx.signature + 1)
          (find_strided k mem begin end ctx)
  unfolding find_strided
  find_strided-Finds k stride begin end fits =
      let hi = align_up k (end - length ctx.signature + 1) in
      let lo = align_up k begin in
      elim (Bool-cases (leb (hi + ctx.cmp_index) (lo + ctx.cmp_index))) [
        | inl empty ↦ rw empty (λ t p q.
            ground (arith, stride.up_least begin t, stride.up_le (end - length ctx.signature + 1)))
        | inr some_left ↦ rw some_left (
            Finds-bounds _ lo hi begin (end - length ctx.signature + 1) _
              (λ t h p q. (
                ground (arith, stride.up_least begin t),
                ground (arith, stride.up_le (end - length ctx.signature + 1)),
              ))
              (λ t h p q. (
                ground (arith, stride.up_le begin),
                ground (arith, stride.up_least (end - length ctx.signature + 1) t),
              ))
              (stride_loop-Finds k stride hi (stride.up_aligned _) _ _ lo refl (stride.up_aligned _)
                (ground arith) (omega arith)))
      ]
