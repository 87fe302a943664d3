-- ===== src/Scanner/Candidates.antt =====
-- The `while (mask)` loop of the vector scanners visits the set bits of its mask in order.
use libhat.Prelude.{ℕ, zero, suc, ◌+◌, ◌-◌, ◌≤◌, ◌<◌, ◌≡◌, refl, Bool, true, false, ◌&&◌, [], ◌∷◌}
use libhat.Prelude.{if◌then◌else◌, some, length, Bool-cases, inl, inr, arith, ◌∙◌, ap}
use libhat.Scanner.Context.{Memory, ScanAlignment, ScanContext, Outcome, returned}
use libhat.Scanner.First.{Finds, Finds-append}
use libhat.Scanner.Word.{Word, bit, is_zero, blsr, tzcnt, blsr-set}
use libhat.Scanner.Vector.{VectorMode, compared_index, candidate_matches, candidate_loop}

module _ (mode : VectorMode) (alignment : ScanAlignment) (cmpeq2 veccmp : Bool) (mem : Memory)
    (ctx : ScanContext) where
  abbrev Loop : ℕ → ℕ → Word → Outcome
  Loop it fuel mask = candidate_loop mode alignment cmpeq2 veccmp mem ctx it fuel mask

  abbrev matches_at : ℕ → Bool
  matches_at i = candidate_matches mode alignment cmpeq2 veccmp mem ctx i

  abbrev index_compared : ℕ
  index_compared = compared_index cmpeq2 ctx

  -- A bit that is clear moves the loop on by one byte.
  candidate_loop-clear : (fuel it : ℕ) (w : Word) → Loop it fuel (false ∷ w) ≡ Loop (it + 1) fuel w
  unfolding candidate_loop blsr tzcnt is_zero
  candidate_loop-clear zero it w = refl
  candidate_loop-clear (suc fuel) it w =
      let moved : it + suc (tzcnt w) ≡ it + 1 + tzcnt w = omega arith in
      rw (moved, candidate_loop-clear fuel it (blsr w)) refl

  -- A bit that is set is compared, and cleared when the comparison fails.
  candidate_loop-set :
      (fuel it : ℕ) (w : Word)
      → Loop it (suc fuel) (true ∷ w) ≡ (
          if matches_at (it - index_compared)
          then returned (some (it - index_compared))
          else Loop (it + 1) fuel w)
  candidate_loop-set fuel it w =
      step
      ∙ ap
          (λ r.
            if matches_at (it - index_compared) then returned (some (it - index_compared)) else r)
          (ap (Loop it fuel) (blsr-set w) ∙ candidate_loop-clear fuel it w)
    where
      here : it + 0 - index_compared ≡ it - index_compared
      here = omega arith

      step : Loop it (suc fuel) (true ∷ w) ≡ (
          if matches_at (it - index_compared)
          then returned (some (it - index_compared))
          else Loop it fuel (blsr (true ∷ w)))
      step = unfold candidate_loop tzcnt is_zero in rw here

  after_miss :
      (test : ℕ → Bool) (it n : ℕ) (r : Outcome)
      → index_compared ≤ it
      → test (it - index_compared) ≡ false
      → Finds test (it + 1 - index_compared) (it + 1 + n - index_compared) r
      → Finds test (it - index_compared) (it + suc n - index_compared) r
  after_miss test it n r le miss rest =
      let moved : it + suc n ≡ it + 1 + n = omega arith in
      rw moved (
        Finds-append test (it - index_compared) (it + 1 - index_compared) (it + 1 - index_compared)
          (it + 1 + n - index_compared) r
          (λ t lo hi. let same : t ≡ it - index_compared = omega arith in rw same miss) rest
          (omega arith) (omega arith))

  -- The loop finds the first of the vector's starts that passes a test, when its mask and the
  -- comparison decide the test.
  pub candidate_loop-Finds :
      (test : ℕ → Bool) (mask : Word) (fuel it : ℕ)
      → index_compared ≤ it
      → length mask < fuel
      → ((o : ℕ)
          → o < length mask
          → test (it + o - index_compared) ≡ (bit mask o && matches_at (it + o - index_compared)))
      → Finds test (it - index_compared) (it + length mask - index_compared) (Loop it fuel mask)
  candidate_loop-Finds test mask zero it le lt agree = absurd (omega arith)
  candidate_loop-Finds test [] (suc fuel) it le lt agree =
      unfold candidate_loop is_zero in (λ t lo hi. absurd (omega arith))
  candidate_loop-Finds test (false ∷ w) (suc fuel) it le lt agree =
      let here : it + 0 - index_compared ≡ it - index_compared = omega arith in
      let rest = candidate_loop-Finds test w (suc fuel) (it + 1) (omega arith) (omega arith) (λ o h.
        let moved : it + suc o ≡ it + 1 + o = omega arith in
        rw moved at (agree (suc o) (omega arith))) in
      rw (candidate_loop-clear (suc fuel) it w)
        (after_miss test it (length w) _ le (rw here at (agree 0 (omega arith))) rest)
  candidate_loop-Finds test (true ∷ w) (suc fuel) it le lt agree =
      let here : it + 0 - index_compared ≡ it - index_compared = omega arith in
      let now = rw here at (agree 0 (omega arith)) in
      let rest = candidate_loop-Finds test w fuel (it + 1) (omega arith) (omega arith) (λ o h.
        let moved : it + suc o ≡ it + 1 + o = omega arith in
        rw moved at (agree (suc o) (omega arith))) in
      rw (candidate_loop-set fuel it w) (elim (Bool-cases (matches_at (it - index_compared))) [
        | inl hit ↦ rw hit (omega arith, omega arith, now ∙ hit, λ t lo hi. absurd (omega arith))
        | inr miss ↦ rw miss (after_miss test it (length w) _ le (now ∙ miss) rest)
      ])
