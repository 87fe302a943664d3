-- ===== src/Protector/Pages.antt =====
-- Calls that change the protection of every page with a byte in a range, as those of Windows and macOS do.
use libhat.Prelude.{
  ℕ, ◌+◌, ◌-◌, ◌%◌, ◌≤◌, ◌<◌, ltb, leb, Bool, true, ◌&&◌, if◌then◌else◌, Option, some, ◌≡◌, refl,
  sym, ◌∙◌, Bool-cases, inl, inr, arith,
}
use native.Mathlib.Nat.{mod-lt}

-- Whether a byte lies in a page with a byte of the range.
abbrev pub in_pages : ℕ → ℕ → ℕ → ℕ → Bool
in_pages page begin size a =
    leb (begin - begin % page) a
    && ltb a (begin + size + (page - 1) - (begin + size + (page - 1)) % page)

pub in_pages-range :
    (page begin size a : ℕ)
    → 0 < page
    → begin ≤ a
    → a < begin + size
    → in_pages page begin size a ≡ true
in_pages-range page begin size a pos lo hi =
    let low = mod-lt (begin + size + (page - 1)) pos in ground (arith, low)

-- Protections by address: all of a range are set to one, and then back to the one that they had.
pub restored {ℓ} :
    {S : Type ℓ} (protection_at : S → ℕ → Option ℕ) (inside : ℕ → Bool) (s s' s'' : S)
    (prot old a : ℕ)
    → protection_at s' a ≡ (if inside a then some prot else protection_at s a)
    → protection_at s'' a ≡ (if inside a then some old else protection_at s' a)
    → (inside a ≡ true → protection_at s a ≡ some old)
    → protection_at s'' a ≡ protection_at s a
restored protection_at inside s s' s'' prot old a first second uniform =
    elim (Bool-cases (inside a)) [
      | inl here ↦ second ∙ rw here (sym (uniform here))
      | inr other ↦ second ∙ rw other (first ∙ rw other refl)
    ]
