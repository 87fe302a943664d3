-- ===== src/Text/FixedLaws.antt =====
-- What the operations of `basic_fixed_string` show, and that they keep the terminating zero.
use libhat.Prelude.{
  ℕ, zero, suc, ◌+◌, ◌-◌, ◌≤◌, true, ◌≡◌, refl, sym, ap, ◌∙◌, List, [], ◌∷◌, ◌++◌, none, some,
  length, take, drop, get_or, length-append, length-take, length-drop, take-append, drop-append,
  drop-replicate, drop_add, arith,
}
use mathlib.Core.List.{append_assoc}
use libhat.Modules.Names.{name_eq, name_eq_self}
use libhat.Text.Fixed.{FixedString, zeros, copy_n, construct, to_view, substr, ◌+++◌, equal}

-- The array has N + 1 characters, and the last is zero.
pub record IsFixed (s : FixedString) : Type 0 where
  pub sized : length s.value ≡ s.size + 1
  pub terminated : get_or s.value s.size 1 ≡ 0

get_or_last : (xs : List ℕ) (n : ℕ) → length xs ≡ n → get_or (xs ++ 0 ∷ []) n 1 ≡ 0
get_or_last [] zero h = refl
get_or_last [] (suc n) h = absurd (omega (arith, h))
get_or_last (x ∷ xs) zero h = absurd (omega (arith, h))
get_or_last (x ∷ xs) (suc n) h = get_or_last xs n (omega (arith, h))

-- A copy to the start of a buffer of zeros.
copy_n-zeros : (n m : ℕ) (str : List ℕ) → copy_n str n 0 (zeros (n + m)) ≡ take n str ++ zeros m
copy_n-zeros n m str =
    let e : 0 + n ≡ n = omega arith in
    ap (λ xs. take n str ++ xs) (ap (λ k. drop k (zeros (n + m))) e ∙ drop-replicate n m 0)

-- The characters and a zero.
construct-value :
    (n : ℕ) (str : List ℕ) → FixedString.value (construct n str) ≡ take n str ++ 0 ∷ []
unfolding construct
construct-value n str = copy_n-zeros n 1 str

module _ (n : ℕ) (str : List ℕ) (enough : n ≤ length str) where
  construct-IsFixed : IsFixed (construct n str)
  construct-IsFixed = record {
    sized =
        ap length (construct-value n str)
        ∙ omega (arith, length-append (take n str) (0 ∷ []), length-take n str enough, same_size);
    terminated =
        ap (λ v. get_or v (FixedString.size (construct n str)) 1) (construct-value n str)
        ∙ get_or_last (take n str) _ (length-take n str enough ∙ sym same_size);
  }
    where
      same_size : FixedString.size (construct n str) ≡ n
      same_size = unfold construct in refl

  to_view-construct : to_view (construct n str) ≡ take n str
  unfolding to_view construct
  to_view-construct =
      ap (take n) (copy_n-zeros n 1 str)
      ∙ take-append n (take n str) (0 ∷ []) (length-take n str enough)

length-to_view : (s : FixedString) → IsFixed s → length (to_view s) ≡ s.size
unfolding to_view
length-to_view s ok = length-take s.size s.value (omega (arith, ok.sized))

-- A second copy, behind what is there.
copy_n-behind :
    (xs : List ℕ) (n m : ℕ) (str : List ℕ)
    → length xs ≡ n
    → copy_n str m n (xs ++ zeros (m + 1)) ≡ xs ++ take m str ++ 0 ∷ []
copy_n-behind xs n m str size =
    let kept = take-append n xs (zeros (m + 1)) size in
    let left : drop (n + m) (xs ++ zeros (m + 1)) ≡ 0 ∷ [] =
      drop_add n m (xs ++ zeros (m + 1))
      ∙ ap (drop m) (drop-append n xs (zeros (m + 1)) size)
      ∙ drop-replicate m 1 0 in
    λ i. kept i ++ take m str ++ left i

module _ (s t : FixedString) (ok : IsFixed s) (ok' : IsFixed t) where
  -- The buffer of `operator+` after the two copies.
  abbrev joined : List ℕ
  joined = copy_n t.value t.size s.size (copy_n s.value s.size 0 (zeros (s.size + t.size + 1)))

  joined_lem : joined ≡ to_view s ++ to_view t ++ 0 ∷ []
  unfolding to_view
  joined_lem =
      let n = s.size in
      let m = t.size in
      let e : n + m + 1 ≡ n + (m + 1) = omega arith in
      let first : copy_n s.value n 0 (zeros (n + m + 1)) ≡ take n s.value ++ zeros (m + 1) =
        ap (λ k. copy_n s.value n 0 (zeros k)) e ∙ copy_n-zeros n (m + 1) s.value in
      ap (copy_n t.value m n) first
      ∙ copy_n-behind (take n s.value) n m t.value (length-to_view s ok)

  length-both : length (to_view s ++ to_view t) ≡ s.size + t.size
  length-both =
      omega
        (arith, length-append (to_view s) (to_view t), length-to_view s ok, length-to_view t ok')

  length-joined : s.size + t.size ≤ length joined
  length-joined =
      omega
        (arith, ap length joined_lem, length-append (to_view s ++ to_view t) (0 ∷ []), length-both)

  append-IsFixed : IsFixed (s +++ t)
  unfolding ◌+++◌
  append-IsFixed = construct-IsFixed (s.size + t.size) joined length-joined

  to_view-append : to_view (s +++ t) ≡ to_view s ++ to_view t
  unfolding ◌+++◌
  to_view-append =
      to_view-construct (s.size + t.size) joined length-joined
      ∙ ap (take (s.size + t.size)) joined_lem
      ∙ take-append (s.size + t.size) (to_view s ++ to_view t) (0 ∷ []) length-both

  append-value : FixedString.value (s +++ t) ≡ to_view s ++ (to_view t ++ 0 ∷ [])
  unfolding ◌+++◌
  append-value =
      construct-value (s.size + t.size) joined
      ∙ ap (λ xs. xs ++ 0 ∷ [])
          (ap (take (s.size + t.size)) joined_lem
            ∙ take-append (s.size + t.size) (to_view s ++ to_view t) (0 ∷ []) length-both)
      ∙ append_assoc (to_view s) (to_view t) (0 ∷ [])

module _ (s : FixedString) (ok : IsFixed s) where
  -- The characters of a part.
  substr-construct :
      (pos m : ℕ)
      → pos + m ≤ s.size
      → IsFixed (construct m (copy_n (drop pos s.value) m 0 (zeros (m + 1))))
        × (to_view (construct m (copy_n (drop pos s.value) m 0 (zeros (m + 1))))
            ≡ take m (drop pos s.value))
  substr-construct pos m fits =
      let part = drop pos s.value in
      let long : m ≤ length part = omega (arith, length-drop pos s.value, ok.sized) in
      let buf = copy_n-zeros m 1 part in
      let size = length-take m part long in
      let enough : m ≤ length (copy_n part m 0 (zeros (m + 1))) =
        omega (arith, ap length buf, length-append (take m part) (0 ∷ []), size) in
      (
        construct-IsFixed m _ enough,
        to_view-construct m _ enough ∙ ap (take m) buf ∙ take-append m (take m part) (0 ∷ []) size,
      )

-- For two strings whose array has one character more than their size and ends with a zero,
-- `operator+` gives such a string, and `substr` gives the two parts back: the first by its size,
-- and the second from there to the end.
pub substr-append :
    (s t : FixedString)
    → IsFixed s
    → IsFixed t
    → IsFixed (s +++ t)
      × (equal (substr 0 (some s.size) (s +++ t)) s ≡ true)
      × (equal (substr s.size none (s +++ t)) t ≡ true)
unfolding substr equal
substr-append s t ok ok' =
    let u = s +++ t in
    let good = append-IsFixed s t ok ok' in
    let total : FixedString.size u ≡ s.size + t.size = unfold ◌+++◌ construct in refl in
    let value = append-value s t ok ok' in
    let size = length-to_view s ok in
    let first : take s.size (FixedString.value u) ≡ to_view s =
      ap (take s.size) value ∙ take-append s.size (to_view s) (to_view t ++ 0 ∷ []) size in
    let left : FixedString.size u - s.size ≡ t.size = omega (arith, total) in
    let second : take (FixedString.size u - s.size) (drop s.size (FixedString.value u))
        ≡ to_view t =
      (λ i. take (left i) (drop s.size (value i)))
      ∙ ap (take t.size) (drop-append s.size (to_view s) (to_view t ++ 0 ∷ []) size)
      ∙ take-append t.size (to_view t) (0 ∷ []) (length-to_view t ok') in
    (
      good,
      ap (λ x. name_eq x (to_view s))
            ((substr-construct u good 0 s.size (omega (arith, total))).1 ∙ first)
          ∙ name_eq_self (to_view s),
      ap (λ x. name_eq x (to_view t))
            ((substr-construct u good s.size (FixedString.size u - s.size) (omega (arith, total))).1
              ∙ second)
          ∙ name_eq_self (to_view t),
    )
