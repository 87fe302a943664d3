-- ===== src/Modules/Names.antt =====
-- Names of sections: lists of character codes, with the comparisons of `std::string`.
use libhat.Prelude.{
  ℕ, ◌==◌, ==_iff, ==_self, ltb, leb, ◌-◌, ◌++◌, length, drop, Bool, true, false, ◌&&◌, ◌≡◌, refl,
  List, [], ◌∷◌, if◌then◌else◌, arith, Bool-cases, inl, inr,
}

-- `operator==`.
unfoldable pub name_eq : List ℕ → List ℕ → Bool
name_eq [] [] = true
name_eq [] (d ∷ y) = false
name_eq (c ∷ x) [] = false
name_eq (c ∷ x) (d ∷ y) = c == d && name_eq x y

-- `std::less`: the order of the characters, from the first one on.
unfoldable pub name_less : List ℕ → List ℕ → Bool
name_less [] [] = false
name_less [] (d ∷ y) = true
name_less (c ∷ x) [] = false
name_less (c ∷ x) (d ∷ y) = if c == d then name_less x y else ltb c d

pub name_eq_sound : (x y : List ℕ) → name_eq x y ≡ true → x ≡ y
unfolding name_eq
name_eq_sound [] [] h = refl
name_eq_sound [] (d ∷ y) h = absurd (cc h)
name_eq_sound (c ∷ x) [] h = absurd (cc h)
name_eq_sound (c ∷ x) (d ∷ y) h = elim (Bool-cases (c == d)) [
  | inl same ↦
      let e : c ≡ d = (==_iff c d).0 same in
      let rest : name_eq x y ≡ true = rw same at h in (λ i. e i ∷ name_eq_sound x y rest i)
  | inr differs ↦ absurd (cc (rw differs at h))
]

pub name_eq_self : (x : List ℕ) → name_eq x x ≡ true
unfolding name_eq
name_eq_self [] = refl
name_eq_self (c ∷ x) = rw (name_eq_self x) (ground arith)

pub name_less_trans :
    (x y z : List ℕ) → name_less x y ≡ true → name_less y z ≡ true → name_less x z ≡ true
unfolding name_less
name_less_trans [] [] z p q = absurd (cc p)
name_less_trans [] (d ∷ y) [] p q = absurd (cc q)
name_less_trans [] (d ∷ y) (e ∷ z) p q = refl
name_less_trans (c ∷ x) [] z p q = absurd (cc p)
name_less_trans (c ∷ x) (d ∷ y) [] p q = absurd (cc q)
name_less_trans (c ∷ x) (d ∷ y) (e ∷ z) p q = ground (arith, name_less_trans x y z)

-- Of two names one is less, or they are the same.
pub name_less-cases :
    (x y : List ℕ) → name_eq x y ≡ false → name_less x y ≡ false → name_less y x ≡ true
unfolding name_less name_eq
name_less-cases [] [] p q = absurd (cc p)
name_less-cases [] (d ∷ y) p q = absurd (cc q)
name_less-cases (c ∷ x) [] p q = refl
name_less-cases (c ∷ x) (d ∷ y) p q = ground (arith, name_less-cases x y)

pub name_less_irrefl : (x : List ℕ) → name_less x x ≡ false
unfolding name_less
name_less_irrefl [] = refl
name_less_irrefl (c ∷ x) = ground (arith, name_less_irrefl x)

pub name_eq_comm : (x y : List ℕ) → name_eq x y ≡ name_eq y x
unfolding name_eq
name_eq_comm [] [] = refl
name_eq_comm [] (d ∷ y) = refl
name_eq_comm (c ∷ x) [] = refl
name_eq_comm (c ∷ x) (d ∷ y) = rw (name_eq_comm x y) (ground arith)

-- `std::string_view::starts_with` and `ends_with`.
unfoldable pub starts_with : List ℕ → List ℕ → Bool
starts_with text [] = true
starts_with [] (c ∷ prefix) = false
starts_with (d ∷ text) (c ∷ prefix) = d == c && starts_with text prefix

unfoldable pub ends_with : List ℕ → List ℕ → Bool
ends_with text suffix =
    leb (length suffix) (length text) && name_eq (drop (length text - length suffix) text) suffix

pub starts_with-append :
    (text prefix : List ℕ)
    → starts_with text prefix ≡ true
    → (rest : List ℕ) × (text ≡ prefix ++ rest)
unfolding starts_with
starts_with-append text [] h = (text, refl)
starts_with-append [] (c ∷ prefix) h = absurd (cc h)
starts_with-append (d ∷ text) (c ∷ prefix) h = elim (Bool-cases (d == c)) [
  | inl same ↦
      let (rest, e) = starts_with-append text prefix (rw same at h) in
      (rest, λ i. (==_iff d c).0 same i ∷ e i)
  | inr other ↦ absurd (cc (rw other at h))
]

pub starts_with_self : (prefix rest : List ℕ) → starts_with (prefix ++ rest) prefix ≡ true
unfolding starts_with
starts_with_self [] rest = refl
starts_with_self (c ∷ prefix) rest = rw (==_self c) (starts_with_self prefix rest)
