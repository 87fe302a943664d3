-- ===== src/Scanner/NeonLoop.antt =====
-- The `while (mask)` loop of the Neon scanner visits the lanes of its mask in order.
use libhat.Prelude.{
  ℕ, zero, suc, ◌+◌, ◌-◌, ◌/◌, ◌<◌, ◌≤◌, ◌≡◌, refl, Bool, true, false, ◌&&◌, [], ◌∷◌,
}
use libhat.Prelude.{if◌then◌else◌, length, arith, Bool-cases, inl, inr, some, ◌∙◌, ap}
use libhat.Scanner.Context.{Memory, ScanAlignment, ScanContext, Outcome, returned}
use libhat.Scanner.First.{Finds, Finds-append}
use libhat.Scanner.Word.{Word, bit, is_zero, tzcnt}
use libhat.Scanner.Vector.{compared_index}
use libhat.Scanner.Neon.{word_xor, nibble, spread, neon_matches, neon_loop}
use libhat.Scanner.Nibbles.{word_xor-lane}

module _ (alignment : ScanAlignment) (cmpeq2 veccmp : Bool) (mem : Memory) (ctx : ScanContext) where
  abbrev Loop : ℕ → ℕ → Word → Outcome
  Loop it fuel mask = neon_loop alignment cmpeq2 veccmp mem ctx it fuel mask

  abbrev matches_at : ℕ → Bool
  matches_at i = neon_matches alignment cmpeq2 veccmp mem ctx i

  abbrev index_compared : ℕ
  index_compared = compared_index cmpeq2 ctx

  -- A lane that is clear moves the loop on by one byte.
  neon_loop-clear :
      (fuel it : ℕ) (v : Word)
      → Loop it fuel (false ∷ false ∷ false ∷ false ∷ v) ≡ Loop (it + 1) fuel v
  unfolding neon_loop tzcnt is_zero word_xor
  neon_loop-clear zero it v = refl
  neon_loop-clear (suc fuel) it v =
      let moved : it + suc (suc (suc (suc (tzcnt v)))) / 4 ≡ it + 1 + tzcnt v / 4 = omega arith in
      rw (moved, neon_loop-clear fuel it (word_xor v (nibble (tzcnt v)))) refl

  -- A lane that is set is compared, and cleared when the comparison fails.
  neon_loop-set :
      (fuel it : ℕ) (w : Word)
      → Loop it (suc fuel) (spread (true ∷ w)) ≡ (
          if matches_at (it - index_compared)
          then returned (some (it - index_compared))
          else Loop (it + 1) fuel (spread w))
  neon_loop-set fuel it w =
      step
      ∙ ap
          (λ r.
            if matches_at (it - index_compared) then returned (some (it - index_compared)) else r)
          (ap (Loop it fuel) (word_xor-lane w) ∙ neon_loop-clear fuel it (spread w))
    where
      here : it + 0 / 4 - index_compared ≡ it - index_compared
      here = omega arith

      step : Loop it (suc fuel) (spread (true ∷ w)) ≡ (
          if matches_at (it - index_compared)
          then returned (some (it - index_compared))
          else Loop it fuel (word_xor (spread (true ∷ w)) (nibble 0)))
      step = unfold neon_loop tzcnt is_zero in rw here

  after_miss :
      (test : ℕ → Bool) (it n : ℕ) (r : Outcome)
      → index_compared ≤ it
      → test (it - index_compared) ≡ false
      → Finds test (it + 1 - index_compared) (it + 1 + n - index_compared) r
      → Finds test (it - index_compared) (it + suc n - index_compared) r
  after_miss test it n r le miss rest =
      let moved : it + suc n ≡ it + 1 + n = omega arith in
      rw moved (
        Finds-append test (it - index_compared) (it + 1 - index_compared) (it + 1 - index_compared)
          (it + 1 + n - index_compared) r
          (λ t lo hi. let same : t ≡ it - index_compared = omega arith in rw same miss) rest
          (omega arith) (omega arith))

  -- The loop finds the first of the vector's starts that passes a test, when its mask and the
  -- comparison decide the test.
  pub neon_loop-Finds :
      (test : ℕ → Bool) (mask : Word) (fuel it : ℕ)
      → index_compared ≤ it
      → length mask < fuel
      → ((o : ℕ)
          → o < length mask
          → test (it + o - index_compared) ≡ (bit mask o && matches_at (it + o - index_compared)))
      → Finds test
          (it - index_compared)
          (it + length mask - index_compared)
          (Loop it fuel (spread mask))
  neon_loop-Finds test mask zero it le lt agree = absurd (omega arith)
  neon_loop-Finds test [] (suc fuel) it le lt agree =
      unfold neon_loop is_zero in (λ t lo hi. absurd (omega arith))
  neon_loop-Finds test (false ∷ w) (suc fuel) it le lt agree =
      let here : it + 0 - index_compared ≡ it - index_compared = omega arith in
      let rest = neon_loop-Finds test w (suc fuel) (it + 1) (omega arith) (omega arith) (λ o h.
        let moved : it + suc o ≡ it + 1 + o = omega arith in
        rw moved at (agree (suc o) (omega arith))) in
      rw (neon_loop-clear (suc fuel) it (spread w))
        (after_miss test it (length w) _ le (rw here at (agree 0 (omega arith))) rest)
  neon_loop-Finds test (true ∷ w) (suc fuel) it le lt agree =
      let here : it + 0 - index_compared ≡ it - index_compared = omega arith in
      let now = rw here at (agree 0 (omega arith)) in
      let rest = neon_loop-Finds test w fuel (it + 1) (omega arith) (omega arith) (λ o h.
        let moved : it + suc o ≡ it + 1 + o = omega arith in
        rw moved at (agree (suc o) (omega arith))) in
      rw (neon_loop-set fuel it w) (elim (Bool-cases (matches_at (it - index_compared))) [
        | inl hit ↦ rw hit (omega arith, omega arith, now ∙ hit, λ t lo hi. absurd (omega arith))
        | inr miss ↦ rw miss (after_miss test it (length w) _ le (now ∙ miss) rest)
      ])
