-- ===== src/Scanner/Bytewise.antt =====
-- `find_pattern_single` at the alignment X1: the loop over `std::memchr` finds the first occurrence.
use libhat.Prelude.{ℕ, zero, suc, ◌+◌, ◌-◌, ◌%◌, ◌≤◌, ◌<◌, ◌≡◌, refl, ◌==◌, Bool, true, false, ◌&&◌}
use libhat.Prelude.{Option, none, some, arith, Bool-cases, inl, inr}
use libhat.Scanner.Context.{Memory, IsBytes, ScanContext, equal_at, Outcome, returned}
use libhat.Scanner.First.{IsFirst, Finds, IsFirst-append, Finds-append}
use libhat.Scanner.Valid.{IsContext, cmp_byte_missing}
use libhat.Scanner.Single.{memchr, cmp_byte, byte_loop}

-- `std::memchr` finds the first equal byte.
memchr-IsFirst : (mem : Memory) (i c n : ℕ) → IsFirst (λ t. mem t == c) i (i + n) (memchr mem i c n)
unfolding memchr
memchr-IsFirst mem i c zero = λ t lo lt. absurd (omega arith)
memchr-IsFirst mem i c (suc n) =
    let e : i + suc n ≡ i + 1 + n = omega arith in
    rw e (elim (Bool-cases (mem i == c)) [
      | inl same ↦ rw same (omega arith, omega arith, same, λ t lo lt. absurd (omega arith))
      | inr other ↦ rw other (
          IsFirst-append (λ t. mem t == c) i (i + 1) (i + 1) (i + 1 + n) _
            (λ t lo lt. let t' : t ≡ i = omega arith in rw t' other)
            (memchr-IsFirst mem (i + 1) c n) (omega arith) (omega arith))
    ])

module _ (mem : Memory) (bytes : IsBytes mem) (ctx : ScanContext) (valid : IsContext ctx) where
  abbrev pub here_matches : ℕ → Bool
  here_matches t = t % 1 == 0 && equal_at mem ctx.signature t

  none_without_byte :
      (i s u v : ℕ)
      → i ≡ s + ctx.cmp_index
      → v ≡ u + ctx.cmp_index
      → IsFirst (λ t. mem t == cmp_byte ctx) i v none
      → IsFirst here_matches s u none
  none_without_byte i s u v e e' h t lo lt = ground (
    arith,
    cmp_byte_missing mem bytes ctx valid t (t + ctx.cmp_index) refl
        (h (t + ctx.cmp_index) (omega arith) (omega arith)),
  )

  abbrev byte_step : ℕ → ℕ → Option ℕ → Outcome
  byte_step scan_end fuel found = elim found [
    | none ↦ returned none
    | some j ↦ elim (equal_at mem ctx.signature (j - ctx.cmp_index)) [
      | true ↦ returned (some (j - ctx.cmp_index))
      | false ↦ byte_loop mem ctx scan_end fuel (j + 1)
    ]
  ]

  byte_step-Finds :
      (hi fuel i s : ℕ) (found : Option ℕ)
      → i ≡ s + ctx.cmp_index
      → s < hi
      → hi - s < suc fuel
      → ((j u : ℕ)
          → j ≡ u + ctx.cmp_index
          → u ≤ hi
          → hi - u < fuel
          → Finds here_matches u hi (byte_loop mem ctx (hi + ctx.cmp_index) fuel j))
      → IsFirst (λ t. mem t == cmp_byte ctx) i (hi + ctx.cmp_index) found
      → Finds here_matches s hi (byte_step (hi + ctx.cmp_index) fuel found)
  byte_step-Finds hi fuel i s none e below lt rec first =
      none_without_byte i s hi (hi + ctx.cmp_index) e refl first
  byte_step-Finds hi fuel i s (some j) e below lt rec first =
      let u = j - ctx.cmp_index in
      let before = none_without_byte i s u j e (omega arith) first.3 in
      elim (Bool-cases (equal_at mem ctx.signature u)) [
        | inl found ↦ rw (found, Finds) (omega arith, omega arith, ground arith, before)
        | inr differs ↦
            rw (differs, Finds)
              (Finds-append here_matches s (u + 1) (u + 1) hi _
                (λ t lo lt'. elim (Bool-cases (t == u)) [
                  | inl same ↦ ground arith
                  | inr other ↦ before t lo (ground arith)
                ])
                (rec (j + 1) (u + 1) (omega arith) (omega arith) (omega arith)) (omega arith)
                (omega arith))
      ]

  pub byte_loop-Finds :
      (hi fuel i s : ℕ)
      → i ≡ s + ctx.cmp_index
      → s ≤ hi
      → hi - s < fuel
      → Finds here_matches s hi (byte_loop mem ctx (hi + ctx.cmp_index) fuel i)
  unfolding byte_loop
  byte_loop-Finds hi zero i s e le lt = absurd (omega arith)
  byte_loop-Finds hi (suc fuel) i s e le lt = elim (Bool-cases (i == hi + ctx.cmp_index)) [
    | inl at_end ↦ rw at_end (λ t lo lt'. absurd (ground arith))
    | inr inside ↦
        let span : i + (hi + ctx.cmp_index - i) ≡ hi + ctx.cmp_index = omega arith in
        rw inside (
          byte_step-Finds hi fuel i s _ e (ground arith) lt (byte_loop-Finds hi fuel)
            (rw span at (memchr-IsFirst mem i (cmp_byte ctx) (hi + ctx.cmp_index - i))))
  ]
