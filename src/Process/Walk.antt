-- ===== src/Process/Walk.antt =====
-- The loop of `regionHasFlags` in src/os/win32/Process.cpp and src/os/mac/Process.cpp: from one region to the
-- next, until one is refused or the end is reached.
use libhat.Prelude.{
  ℕ, zero, suc, ◌-◌, ◌<◌, ◌≤◌, ltb, ltb→lt, Bool, true, false, ◌≡◌, refl, ◌↔◌, Option, none, some,
  if◌then◌else◌, arith, Bool-cases, inl, inr,
}

-- `next` is the end of the region that is looked up at an address, or none where the loop returns false.
-- The outer none is fuel that ran out.
unfoldable pub walk : (ℕ → Option ℕ) → ℕ → ℕ → ℕ → Option Bool
walk next end zero addr = none
walk next end (suc fuel) addr =
    let looked_up : Option Bool = elim (next addr) [
      | none ↦ some false
      | some addr' ↦ walk next end fuel addr'
    ] in
    if ltb addr end then looked_up else some true

-- What a lookup says of the bytes: a refusal that the byte at the address fails the test, and an end that all
-- up to it pass it.
pub record IsLookup (next : ℕ → Option ℕ) (test : ℕ → Bool) (end : ℕ) : Type 0 where
  pub refused : (a : ℕ) → a < end → next a ≡ none → test a ≡ false
  pub advances : (a b : ℕ) → a < end → next a ≡ some b → a < b
  pub passes : (a b x : ℕ) → a < end → next a ≡ some b → a ≤ x → x < b → x < end → test x ≡ true

-- The answer is whether all bytes from an address on pass the test.
abbrev pub IsAnswerFor : (ℕ → Bool) → ℕ → ℕ → Option Bool → Type 0
IsAnswerFor test addr end none = ⊥
IsAnswerFor test addr end (some b) = (b ≡ true) ↔ ((x : ℕ) → addr ≤ x → x < end → test x ≡ true)

module _ (next : ℕ → Option ℕ) (test : ℕ → Bool) (end : ℕ) (lookup : IsLookup next test end) where
  pub walk-IsAnswerFor :
      (fuel addr : ℕ) → end - addr < fuel → IsAnswerFor test addr end (walk next end fuel addr)
  unfolding walk
  walk-IsAnswerFor zero addr lt = absurd (omega arith)
  walk-IsAnswerFor (suc fuel) addr lt = elim (Bool-cases (ltb addr end)) [
    | inr past ↦ rw past (λ h x lo hi. absurd (ground arith), λ f. refl)
    | inl inside ↦
        rw inside
          (step (next addr) refl (ltb→lt addr end inside) (λ b le. walk-IsAnswerFor fuel b le))
  ]
    where
      extend :
          (b : ℕ) (r : Option Bool)
          → addr < end
          → next addr ≡ some b
          → IsAnswerFor test b end r
          → IsAnswerFor test addr end r
      extend b none lt' e answer = answer
      extend b (some r) lt' e answer = (
        λ h x lo hi. elim (Bool-cases (ltb x b)) [
          | inl here ↦ lookup.passes addr b x lt' e lo (ltb→lt x b here) hi
          | inr later ↦ answer.0 h x (ground arith) hi
        ],
        λ f. answer.1 (λ x lo hi. f x (omega (arith, lookup.advances addr b lt' e)) hi),
      )

      step :
          (o : Option ℕ)
          → next addr ≡ o
          → addr < end
          → ((b : ℕ) → end - b < fuel → IsAnswerFor test b end (walk next end fuel b))
          → IsAnswerFor test addr end
              (elim o [ none ↦ some false | some addr' ↦ walk next end fuel addr' ])
      step none e lt' rec = (
        λ h. absurd (cc h),
        λ f. absurd (cc (f addr (omega arith) lt', lookup.refused addr lt' e)),
      )
      step (some b) e lt' rec =
          extend b (walk next end fuel b) lt' e
            (rec b (omega (arith, lt, lookup.advances addr b lt' e)))
