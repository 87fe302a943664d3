-- ===== src/Scanner/First.antt =====
-- The specification of a scan: the first address of a range at which a test holds.
use libhat.Prelude.{ℕ, ◌≤◌, ◌<◌, ◌≡◌, refl, Bool, true, false, Option, none, some, arith}
use libhat.Scanner.Context.{Outcome, returned, timeout}

-- `r` is the first address of `[lo, hi)` that passes the test, or none does.
abbrev pub IsFirst : (ℕ → Bool) → ℕ → ℕ → Option ℕ → Type 0
IsFirst test lo hi none = (t : ℕ) → lo ≤ t → t < hi → test t ≡ false
IsFirst test lo hi (some s) =
    (lo ≤ s) × (s < hi) × (test s ≡ true) × ((t : ℕ) → lo ≤ t → t < s → test t ≡ false)

-- A scan that returns, and returns that address.
abbrev pub Finds : (ℕ → Bool) → ℕ → ℕ → Outcome → Type 0
Finds test lo hi (returned r) = IsFirst test lo hi r
Finds test lo hi timeout = ⊥

module _ (test : ℕ → Bool) where
  -- There is only one such result.
  pub IsFirst-unique :
      (lo hi : ℕ) (r r' : Option ℕ) → IsFirst test lo hi r → IsFirst test lo hi r' → r ≡ r'
  IsFirst-unique lo hi none none p q = refl
  IsFirst-unique lo hi none (some s) p q = ground (arith, p s)
  IsFirst-unique lo hi (some s) none p q = ground (arith, q s)
  IsFirst-unique lo hi (some s) (some s') p q = ground (arith, p.3 s', q.3 s)

  pub Finds-unique :
      (lo hi : ℕ) (r r' : Outcome) → Finds test lo hi r → Finds test lo hi r' → r ≡ r'
  Finds-unique lo hi (returned r) (returned r') p q =
      λ i. returned (IsFirst-unique lo hi r r' p q i)
  Finds-unique lo hi (returned r) timeout p q = absurd q
  Finds-unique lo hi timeout r' p q = absurd p

  -- A search goes on from where an earlier one that found nothing stopped, or before it.
  pub IsFirst-append :
      (a b c d : ℕ) (r : Option ℕ)
      → IsFirst test a b none
      → IsFirst test c d r
      → a ≤ c
      → c ≤ b
      → IsFirst test a d r
  IsFirst-append a b c d none p q h k = λ t lo hi. ground (arith, p t, q t)
  IsFirst-append a b c d (some s) p q h k =
      (omega arith, q.1, q.2, λ t lo hi. ground (arith, p t, q.3 t))

  pub Finds-append :
      (a b c d : ℕ) (r : Outcome)
      → IsFirst test a b none
      → Finds test c d r
      → a ≤ c
      → c ≤ b
      → Finds test a d r
  Finds-append a b c d (returned r) p q h k = IsFirst-append a b c d r p q h k
  Finds-append a b c d timeout p q h k = q

  -- A search may stop at the first hit of a shorter range.
  pub IsFirst-widen : (a b d s : ℕ) → IsFirst test a b (some s) → b ≤ d → IsFirst test a d (some s)
  IsFirst-widen a b d s p h = (p.0, omega arith, p.2, p.3)

-- The result depends on the test alone, and on the part of the range where it can hold.
pub Finds-bounds :
    (test : ℕ → Bool) (a b a' b' : ℕ) (r : Outcome)
    → ((t : ℕ) → test t ≡ true → (a' ≤ t) → (t < b') → (a ≤ t) × (t < b))
    → ((t : ℕ) → test t ≡ true → (a ≤ t) → (t < b) → (a' ≤ t) × (t < b'))
    → Finds test a b r
    → Finds test a' b' r
Finds-bounds test a b a' b' (returned none) f g h = λ t lo hi. ground (arith, f t, h t)
Finds-bounds test a b a' b' (returned (some s)) f g h = ground (arith, g s, h.3, f)
Finds-bounds test a b a' b' timeout f g h = h
