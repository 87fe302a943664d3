-- ===== src/Text/CStringLaws.antt =====
-- The invariant of `basic_cstring_view`: a zero stands behind its characters.
use libhat.Prelude.{
  ℕ, zero, suc, ◌+◌, ◌-◌, ◌<◌, ◌≤◌, ◌==◌, ==_iff, ltb, true, false, ◌≡◌, ◌≢◌, refl, sym, ap, ◌∙◌,
  List, [], ◌∷◌, ◌++◌, Option, none, some, length, take, drop, get_or, All, length-append,
  length-drop, length-take, ltb→lt, get_or-drop, Bool-cases, inl, inr, if◌then◌else◌, arith,
}
use libhat.Modules.Spans.{before_zero}
use libhat.Text.Fixed.{FixedString}
use libhat.Text.FixedLaws.{IsFixed}
use libhat.Text.CString.{
  text, CStringView, of_c_str, of_string, of_fixed, c_str, remove_prefix, substr_from,
}

-- There is a character behind those of the view, and it is zero.
pub record IsTerminated (v : CStringView) : Type 0 where
  pub inside : v.size < length (c_str v)
  pub zero_behind : get_or (c_str v) v.size 1 ≡ 0

-- A list of characters in which some character is zero.
abbrev pub HasZero : List ℕ → Type 0
HasZero [] = ⊥
HasZero (c ∷ chars) = if c == 0 then Unit else HasZero chars

of_c_str-IsTerminated : (chars : List ℕ) → HasZero chars → IsTerminated (of_c_str chars)
unfolding of_c_str before_zero
of_c_str-IsTerminated [] h = absurd h
of_c_str-IsTerminated (c ∷ chars) h = elim (Bool-cases (c == 0)) [
  | inl end ↦ rw end (record { inside = omega arith; zero_behind = (==_iff c 0).0 end })
  | inr more ↦ rw more (
      let rest = of_c_str-IsTerminated chars (rw more at h) in
      record { inside = omega (arith, rest.inside); zero_behind = rest.zero_behind })
]

of_string-IsTerminated : (str : List ℕ) → IsTerminated (of_string str)
of_string-IsTerminated str = record {
  inside = omega (arith, length-append str (0 ∷ []));
  zero_behind = last str;
}
  where
    last : (xs : List ℕ) → get_or (xs ++ 0 ∷ []) (length xs) 1 ≡ 0
    last [] = refl
    last (x ∷ xs) = last xs

pub of_fixed-IsTerminated : (s : FixedString) → IsFixed s → IsTerminated (of_fixed s)
of_fixed-IsTerminated s ok = record {
  inside = omega (arith, ok.sized);
  zero_behind = ok.terminated;
}

before_zero-take :
    (chars : List ℕ) (n : ℕ)
    → n < length chars
    → get_or chars n 1 ≡ 0
    → All (λ c. c ≢ 0) (take n chars)
    → before_zero chars ≡ take n chars
unfolding before_zero
before_zero-take [] n lt end inner = absurd (omega arith)
before_zero-take (c ∷ chars) zero lt end inner =
    let test : (c == 0) ≡ true = (==_iff c 0).1 end in rw test refl
before_zero-take (c ∷ chars) (suc n) lt end inner =
    let test : (c == 0) ≡ false = apart c inner.0 in
    rw (test, before_zero-take chars n (omega arith) end inner.1) refl
  where
    apart : (c : ℕ) → c ≢ 0 → (c == 0) ≡ false
    apart c h = ground arith

drop-take : (n m : ℕ) (xs : List ℕ) → drop n (take m xs) ≡ take (m - n) (drop n xs)
drop-take zero m xs = let e : m - 0 ≡ m = omega arith in ap (λ k. take k xs) (sym e)
drop-take (suc n) zero xs =
    let e : 0 - suc n ≡ 0 = omega arith in ap (λ k. take k (drop (suc n) xs)) (sym e)
drop-take (suc n) (suc m) [] = sym (take_nil (suc m - suc n))
  where
    take_nil : (k : ℕ) → take {A = ℕ} k [] ≡ []
    take_nil zero = refl
    take_nil (suc k) = refl
drop-take (suc n) (suc m) (x ∷ xs) =
    let e : suc m - suc n ≡ m - n = omega arith in
    drop-take n m xs ∙ ap (λ k. take k (drop n xs)) (sym e)

module _ (v : CStringView) (ok : IsTerminated v) where
  dropped-IsTerminated :
      (n : ℕ) → n ≤ v.size → IsTerminated (record { chars = drop n v.chars; size = v.size - n })
  dropped-IsTerminated n le = record {
    inside = omega (arith, length-drop n v.chars, ok.inside);
    zero_behind =
        get_or-drop n (v.size - n) v.chars 1
        ∙ (let e : n + (v.size - n) ≡ v.size = omega arith in ap (λ k. get_or v.chars k 1) e)
        ∙ ok.zero_behind;
  }

  remove_prefix-IsTerminated : (n : ℕ) → n ≤ v.size → IsTerminated (remove_prefix n v)
  unfolding remove_prefix
  remove_prefix-IsTerminated n le = dropped-IsTerminated n le

  -- An exception for a position behind the end, and else a terminated view of the rest.
  abbrev pub IsRest : ℕ → Option CStringView → Type 0
  IsRest pos none = v.size < pos
  IsRest pos (some w) =
      (pos ≤ v.size) × IsTerminated w × (text w ≡ drop pos (text v)) × (w ≡ remove_prefix pos v)

  -- For a view with a zero behind its characters, `substr(pos)` throws exactly when the position
  -- is behind the end, and otherwise gives a view of the characters from there on, again with a
  -- zero behind them, which is what `remove_prefix` leaves.
  pub substr_from-IsRest : (pos : ℕ) → IsRest pos (substr_from pos v)
  unfolding substr_from remove_prefix
  substr_from-IsRest pos = elim (Bool-cases (ltb v.size pos)) [
    | inl behind ↦ rw behind (ltb→lt v.size pos behind)
    | inr inside ↦
        let le : pos ≤ v.size = ground arith in
        rw inside (le, dropped-IsTerminated pos le, sym (drop-take pos v.size v.chars), refl)
  ]

  -- For a view with a zero behind its characters and none among them, the view that is made from
  -- its `c_str()` is that view.
  pub of_c_str-c_str : All (λ c. c ≢ 0) (text v) → of_c_str (c_str v) ≡ v
  unfolding of_c_str
  of_c_str-c_str inner =
      let same = before_zero-take v.chars v.size ok.inside ok.zero_behind inner in
      let size : length (before_zero v.chars) ≡ v.size =
        ap length same ∙ length-take v.size v.chars (omega (arith, ok.inside)) in
      λ i. record { chars = v.chars; size = size i }
