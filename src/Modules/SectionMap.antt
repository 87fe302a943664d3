-- ===== src/Modules/SectionMap.antt =====
-- `std::map<std::string, …, std::less<>>`, as the list of its entries in order: `emplace` and `find`.
use libhat.Prelude.{
  ℕ, Bool, true, false, ◌≡◌, refl, ap, sym, ◌∙◌, List, [], ◌∷◌, Option, none, some, if◌then◌else◌,
  Bool-cases, inl, inr,
}
use libhat.Modules.Names.{
  name_eq, name_less, name_eq_sound, name_eq_self, name_less_trans, name_less-cases,
}

abbrev pub SectionMap {ℓ} : Type ℓ → Type ℓ
SectionMap V = List (List ℕ × V)

-- The value kept, or else the other.
abbrev pub or_else {ℓ} : {A : Type ℓ} → Option A → Option A → Option A
or_else (some a) b = some a
or_else none b = b

module _ {ℓ} {V : Type ℓ} where
  unfoldable pub find : List ℕ → SectionMap V → Option V
  find k [] = none
  find k ((j, v) ∷ m) = if name_eq k j then some v else find k m

  unfoldable pub insert_sorted : List ℕ → V → SectionMap V → SectionMap V
  insert_sorted k v [] = (k, v) ∷ []
  insert_sorted k v ((j, w) ∷ m) =
      if name_less k j then (k, v) ∷ (j, w) ∷ m else (j, w) ∷ insert_sorted k v m

  abbrev pub emplace_at : List ℕ → V → SectionMap V → Option V → SectionMap V
  emplace_at k v m (some old) = m
  emplace_at k v m none = insert_sorted k v m

  -- `emplace` keeps an entry that is there.
  unfoldable pub emplace : List ℕ → V → SectionMap V → SectionMap V
  emplace k v m = emplace_at k v m (find k m)

  find-insert_sorted :
      (q k : List ℕ) (v : V) (m : SectionMap V)
      → find k m ≡ none
      → find q (insert_sorted k v m) ≡ (if name_eq q k then some v else find q m)
  unfolding find insert_sorted
  find-insert_sorted q k v [] h = refl
  find-insert_sorted q k v ((j, w) ∷ m) h = elim (Bool-cases (name_eq k j)) [
    | inl same ↦ absurd (cc (rw same at h))
    | inr differs ↦
        let fresh : find k m ≡ none = rw differs at h in
        elim (Bool-cases (name_less k j)) [
          | inl before ↦ rw before refl
          | inr behind ↦
              rw (behind, find-insert_sorted q k v m fresh)
                (choices (name_eq q k) (name_eq q j) (λ at_k at_j.
                  let e : k ≡ j = sym (name_eq_sound q k at_k) ∙ name_eq_sound q j at_j in
                  cc (ap (λ x. name_eq x j) e, name_eq_self j, differs)))
        ]
  ]
    where
      choices :
          (a b : Bool)
          → (a ≡ true → b ≡ true → ⊥)
          → (if b then some w else (if a then some v else find q m))
            ≡ (if a then some v else (if b then some w else find q m))
      choices true true clash = absurd (clash refl refl)
      choices true false clash = refl
      choices false b clash = refl

  find-emplace :
      (q k : List ℕ) (v : V) (m : SectionMap V)
      → find q (emplace k v m) ≡ or_else (find q m) (if name_eq q k then some v else none)
  unfolding emplace
  find-emplace q k v m = elim (Bool-cases (name_eq q k)) [
    | inl same ↦
        let e : q ≡ k = name_eq_sound q k same in
        rw e (ap (find k) (kept (find k m) refl) ∙ at_key (find k m) refl)
    | inr differs ↦ rw differs (elsewhere differs (find k m) refl ∙ sym (or_else-none (find q m)))
  ]
    where
      or_else-none : (o : Option V) → or_else o none ≡ o
      or_else-none none = refl
      or_else-none (some a) = refl

      kept : (o : Option V) → find k m ≡ o → emplace_at k v m (find k m) ≡ emplace_at k v m o
      kept o e = ap (emplace_at k v m) e

      at_key :
          (o : Option V)
          → find k m ≡ o
          → find k (emplace_at k v m o) ≡ or_else (find k m) (if name_eq k k then some v else none)
      at_key (some old) e = rw e refl
      at_key none e = rw (name_eq_self k, find-insert_sorted k k v m e, e, name_eq_self k) refl

      elsewhere :
          name_eq q k ≡ false
          → (o : Option V) → find k m ≡ o
          → find q (emplace_at k v m (find k m)) ≡ find q m
      elsewhere differs (some old) e = rw e refl
      elsewhere differs none e = rw (e, find-insert_sorted q k v m e, differs) refl

  -- The names rise.
  abbrev pub IsBelow : List ℕ → SectionMap V → Type 0
  IsBelow k [] = Unit
  IsBelow k ((j, w) ∷ m) = (name_less k j ≡ true) × IsBelow k m

  abbrev pub IsSorted : SectionMap V → Type 0
  IsSorted [] = Unit
  IsSorted ((k, v) ∷ m) = IsBelow k m × IsSorted m

  IsBelow-trans :
      (i k : List ℕ) (m : SectionMap V) → name_less i k ≡ true → IsBelow k m → IsBelow i m
  IsBelow-trans i k [] h below = tt
  IsBelow-trans i k ((j, w) ∷ m) h below =
      (name_less_trans i k j h below.0, IsBelow-trans i k m h below.1)

  insert_sorted-IsBelow :
      (i k : List ℕ) (v : V) (m : SectionMap V)
      → name_less i k ≡ true
      → IsBelow i m
      → IsBelow i (insert_sorted k v m)
  unfolding insert_sorted
  insert_sorted-IsBelow i k v [] h below = (h, tt)
  insert_sorted-IsBelow i k v ((j, w) ∷ m) h below = elim (Bool-cases (name_less k j)) [
    | inl before ↦ rw before (h, below)
    | inr behind ↦ rw behind (below.0, insert_sorted-IsBelow i k v m h below.1)
  ]

  insert_sorted-IsSorted :
      (k : List ℕ) (v : V) (m : SectionMap V)
      → find k m ≡ none
      → IsSorted m
      → IsSorted (insert_sorted k v m)
  unfolding insert_sorted find
  insert_sorted-IsSorted k v [] fresh sorted = (tt, tt)
  insert_sorted-IsSorted k v ((j, w) ∷ m) fresh sorted = elim (Bool-cases (name_eq k j)) [
    | inl same ↦ absurd (cc (rw same at fresh))
    | inr differs ↦ elim (Bool-cases (name_less k j)) [
      | inl before ↦ rw before ((before, IsBelow-trans k j m before sorted.0), sorted)
      | inr behind ↦ rw behind (
        insert_sorted-IsBelow j k v m (name_less-cases k j differs behind) sorted.0,
        insert_sorted-IsSorted k v m (rw differs at fresh) sorted.1,
      )
    ]
  ]

  emplace-IsSorted : (k : List ℕ) (v : V) (m : SectionMap V) → IsSorted m → IsSorted (emplace k v m)
  unfolding emplace
  emplace-IsSorted k v m sorted = go (find k m) refl
    where
      go : (o : Option V) → find k m ≡ o → IsSorted (emplace_at k v m o)
      go (some old) e = sorted
      go none e = insert_sorted-IsSorted k v m e sorted

  -- The entries in the order in which they come.
  unfoldable pub emplace_all : List (List ℕ × V) → SectionMap V → SectionMap V
  emplace_all [] m = m
  emplace_all ((k, v) ∷ entries) m = emplace_all entries (emplace k v m)

  pub find-emplace_all :
      (q : List ℕ) (entries : List (List ℕ × V)) (m : SectionMap V)
      → find q (emplace_all entries m) ≡ or_else (find q m) (find q entries)
  unfolding emplace_all
  find-emplace_all q [] m = unfold find in or_else-none (find q m)
    where
      or_else-none : (o : Option V) → o ≡ or_else o none
      or_else-none none = refl
      or_else-none (some a) = refl
  find-emplace_all q ((k, v) ∷ entries) m =
      find-emplace_all q entries (emplace k v m)
      ∙ ap (λ o. or_else o (find q entries)) (find-emplace q k v m)
      ∙ unfold find in join (find q m) (name_eq q k)
    where
      join :
          (o : Option V) (b : Bool)
          → or_else (or_else o (if b then some v else none)) (find q entries)
            ≡ or_else o (if b then some v else find q entries)
      join (some a) b = refl
      join none true = refl
      join none false = refl

  pub emplace_all-IsSorted :
      (entries : List (List ℕ × V)) (m : SectionMap V)
      → IsSorted m
      → IsSorted (emplace_all entries m)
  unfolding emplace_all
  emplace_all-IsSorted [] m sorted = sorted
  emplace_all-IsSorted ((k, v) ∷ entries) m sorted =
      emplace_all-IsSorted entries (emplace k v m) (emplace-IsSorted k v m sorted)
