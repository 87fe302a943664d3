-- ===== src/Text/SearchLaws.antt =====
-- What the members of `basic_cstring_view` that search find.
use libhat.Prelude.{
  ℕ, zero, suc, ◌+◌, ◌-◌, ◌<◌, Bool, true, false, ◌≡◌, refl, sym, ap, ◌∙◌, ◌↔◌, List, ◌++◌, Option,
  none, some, length, take, drop, length-append, take-drop, drop-append, Bool-cases, inl, inr,
  arith,
}
use libhat.Modules.Names.{starts_with, starts_with-append, starts_with_self}
use libhat.Scanner.First.{IsFirst}
use libhat.Text.CString.{text, CStringView}
use libhat.Text.Search.{
  Needle, needle_text, first_position, stands, positions, find_position, contains,
}

first_position-IsFirst :
    (test : ℕ → Bool) (count i : ℕ) → IsFirst test i (i + count) (first_position test count i)
unfolding first_position
first_position-IsFirst test zero i = λ t lo hi. absurd (omega arith)
first_position-IsFirst test (suc count) i = elim (Bool-cases (test i)) [
  | inl here ↦ rw here (omega arith, omega arith, here, λ t lo hi. absurd (omega arith))
  | inr other ↦
      rw other (
        later (first_position test count (i + 1)) other (first_position-IsFirst test count (i + 1)))
]
  where
    later :
        (r : Option ℕ)
        → test i ≡ false
        → IsFirst test (i + 1) (i + 1 + count) r
        → IsFirst test i (i + suc count) r
    later none other f = λ t lo hi. ground (arith, f t)
    later (some s) other f = (omega arith, omega arith, f.2, λ t lo hi. ground (arith, f.3 t))

module _ (v : CStringView) (needle : Needle) where
  -- The text is the needle between two others.
  abbrev pub IsInside : Type 0
  IsInside =
      (before : List ℕ) × (after : List ℕ) × (text v ≡ before ++ (needle_text needle ++ after))

  contains-IsInside : (contains v needle ≡ true) ↔ IsInside
  unfolding contains find_position
  contains-IsInside =
      let w = needle_text needle in
      let count = positions v w - 0 in
      go (first_position (stands v w) count 0) (first_position-IsFirst (stands v w) count 0)
    where
      go :
          (r : Option ℕ)
          → IsFirst (stands v (needle_text needle)) 0 (0 + (positions v (needle_text needle) - 0)) r
          → (elim r [ none ↦ false | some i ↦ true ] ≡ true) ↔ IsInside
      go none first = (λ h. absurd (cc h), λ inside. absurd (missed inside first))
        where
          missed :
              IsInside
              → IsFirst
                  (stands v (needle_text needle))
                  0
                  (0 + (positions v (needle_text needle) - 0))
                  none
              → ⊥
          missed (before, after, e) none_there =
              let w = needle_text needle in
              let at : drop (length before) (text v) ≡ w ++ after =
                ap (drop (length before)) e
                ∙ drop-append (length before) before (w ++ after) refl in
              let stands_there : stands v w (length before) ≡ true =
                ap (λ t. starts_with t w) at ∙ starts_with_self w after in
              let size : length before < 0 + (positions v w - 0) =
                omega
                  (arith, ap length e, length-append before (w ++ after), length-append w after) in
              cc (stands_there, none_there (length before) (omega arith) size)
      go (some i) first =
          let w = needle_text needle in
          let (rest, e) = starts_with-append (drop i (text v)) w first.2 in
          (
            λ h. (
              take i (text v),
              rest,
              sym (take-drop i (text v)) ∙ ap (λ t. take i (text v) ++ t) e,
            ),
            λ inside. refl,
          )
