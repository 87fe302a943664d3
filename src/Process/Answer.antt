-- ===== src/Process/Answer.antt =====
-- When a search through the mapped regions of src/os/linux/Process.cpp gives the right answer.
use libhat.Prelude.{ℕ, ◌≤◌, ◌<◌, ltb, leb, ◌≡◌, refl, Bool, true, false, ◌&&◌, ◌||◌}
use libhat.Prelude.{List, [], ◌∷◌, ◌↔◌, arith, Bool-cases, inl, inr}
use libhat.Process.Maps.{Region}
use libhat.Process.Regions.{has_flag, Cursor}

abbrev pub inside : Region → ℕ → Bool
inside r address = leb r.first address && ltb address r.last

-- Whether some region that has the flag holds an address.
abbrev pub covered : ℕ → List Region → ℕ → Bool
covered flags [] address = false
covered flags (r ∷ regions) address =
    (inside r address && has_flag flags r.prot) || covered flags regions address

-- As the kernel lists them: no region is empty, they rise and do not overlap, and lie at `low` or above.
abbrev pub IsSorted : ℕ → List Region → Type 0
IsSorted low [] = Unit
IsSorted low (r ∷ regions) = (low ≤ r.first) × (r.first < r.last) × IsSorted r.last regions

pub covered-below :
    (flags low : ℕ) (regions : List Region) (a : ℕ)
    → IsSorted low regions
    → a < low
    → covered flags regions a ≡ false
covered-below flags low [] a h lt = refl
covered-below flags low (r ∷ regions) a (le, pos, rest) lt =
    let below = covered-below flags r.last regions a rest (omega arith) in ground arith

-- Whether the search reached the end is whether everything from `b` on is covered.
abbrev pub IsAnswer : ℕ → ℕ → ℕ → List Region → Cursor → Type 0
IsAnswer flags end b regions s =
    (end ≤ s.begin) ↔ ((a : ℕ) → b ≤ a → a < end → covered flags regions a ≡ true)

-- A search that stopped at `b`, which is not covered.
pub stopped-IsAnswer :
    (flags end b : ℕ) (regions : List Region) (s : Cursor)
    → s.begin ≡ b
    → b < end
    → covered flags regions b ≡ false
    → IsAnswer flags end b regions s
stopped-IsAnswer flags end b regions s same lt miss =
    (λ h. absurd (omega (arith, same)), λ f. absurd (cc (f b (omega arith) lt, miss)))

-- A region without the flag that holds `b`.
pub refused-IsAnswer :
    (flags end b : ℕ) (r : Region) (regions : List Region) (s : Cursor)
    → s.begin ≡ b
    → b < end
    → b < r.last
    → has_flag flags r.prot ≡ false
    → IsSorted r.last regions
    → IsAnswer flags end b (r ∷ regions) s
refused-IsAnswer flags end b r regions s same lt inside_r lacking sorted =
    stopped-IsAnswer flags end b (r ∷ regions) s same lt
      (let later = covered-below flags r.last regions b sorted inside_r in ground arith)

-- A region with the flag, from `b` to its end, and the answer for what lies behind it.
pub accepted-IsAnswer :
    (flags end b : ℕ) (r : Region) (regions : List Region) (s : Cursor)
    → r.first ≤ b
    → has_flag flags r.prot ≡ true
    → b < r.last
    → IsAnswer flags end r.last regions s
    → IsAnswer flags end b (r ∷ regions) s
accepted-IsAnswer flags end b r regions s le flagged lt answer = (
  λ h a lo hi. elim (Bool-cases (ltb a r.last)) [
    | inl here ↦ ground arith
    | inr later ↦ let rest = answer.0 h a (ground arith) hi in ground arith
  ],
  λ f. answer.1 (λ a lo hi. let all = f a (omega arith) hi in ground arith),
)

-- A region that lies before `b`.
pub skipped-IsAnswer :
    (flags end b : ℕ) (r : Region) (regions : List Region) (s : Cursor)
    → r.last ≤ b
    → IsAnswer flags end b regions s
    → IsAnswer flags end b (r ∷ regions) s
skipped-IsAnswer flags end b r regions s past answer = (
  λ h a lo hi. let rest = answer.0 h a lo hi in ground arith,
  λ f. answer.1 (λ a lo hi. let all = f a lo hi in ground arith),
)

-- Nothing is left to cover.
pub done-IsAnswer :
    (flags end b : ℕ) (regions : List Region) (s : Cursor)
    → end ≤ s.begin
    → end ≤ b
    → IsAnswer flags end b regions s
done-IsAnswer flags end b regions s h k = (λ _ a lo hi. absurd (omega arith), λ _. h)
