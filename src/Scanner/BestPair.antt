-- ===== src/Scanner/BestPair.antt =====
-- The first loop of `apply_hints` picks a pair with the highest score.
use libhat.Prelude.{ℕ, zero, suc, ◌+◌, ltb, true, ◌&&◌, ap, ◌∙◌, Option-cases}
use libhat.Prelude.{
  [], ◌∷◌, Option, none, some, ◌≡◌, refl, ◌≤◌, length, get_or, arith, Bool-cases, inl, inr, ◌⊎◌,
}
use libhat.Signature.Element.{SignatureElement, Signature, nullopt_element, all}
use libhat.Scanner.Valid.{IsFull}
use libhat.Scanner.Hints.{PairHint, get_score, better, best_pair}

-- Two whole bytes side by side.
abbrev pub IsPairAt : Signature → ℕ → Type 0
IsPairAt sig j = IsFull sig j × IsFull sig (suc j)

-- The score of the two elements at a place.
abbrev pub score_at : PairHint → Signature → ℕ → ℕ
score_at hint sig j =
    get_score hint (SignatureElement.value (get_or sig j nullopt_element))
      (SignatureElement.value (get_or sig (suc j) nullopt_element))

-- What the first loop keeps: it started at index `i` with `best`, and looked at `sig`.
abbrev pub IsBest : PairHint → ℕ → Option (ℕ × ℕ) → Signature → Option (ℕ × ℕ) → Type 0
IsBest hint i best sig none = (best ≡ none) × ((j : ℕ) → ¬ (IsPairAt sig j))
IsBest hint i best sig (some (k, s)) =
    ((best ≡ some (k, s)) ⊎ ((j : ℕ) × (k ≡ i + j) × (IsPairAt sig j) × (s ≡ score_at hint sig j)))
    × ((j : ℕ) → IsPairAt sig j → score_at hint sig j ≤ s)
    × ((k' s' : ℕ) → best ≡ some (k', s') → s' ≤ s)

no_pair_short : (sig : Signature) → length sig ≤ 1 → (j : ℕ) → ¬ (IsPairAt sig j)
no_pair_short sig h j p = omega (arith, p.1.0)

IsBest-short :
    (hint : PairHint) (i : ℕ) (best : Option (ℕ × ℕ)) (sig : Signature)
    → length sig ≤ 1
    → IsBest hint i best sig best
IsBest-short hint i none sig h = (refl, no_pair_short sig h)
IsBest-short hint i (some (k, s)) sig h =
    (inl refl, λ j p. absurd (no_pair_short sig h j p), λ k' s' e. ground arith)

-- What the loop's body makes of `best`: it is at least as good, and new only at a pair.
better-cases :
    (hint : PairHint) (i : ℕ) (a b : SignatureElement) (best : Option (ℕ × ℕ)) (k s : ℕ)
    → better hint i a b best ≡ some (k, s)
    → (best ≡ some (k, s))
      ⊎ ((k ≡ i)
          × (all a ≡ true)
          × (all b ≡ true)
          × (s ≡ get_score hint (SignatureElement.value a) (SignatureElement.value b)))
better-cases hint i a b none k s h = ground arith
better-cases hint i a b (some (j, old)) k s h = ground arith

better-keeps :
    (hint : PairHint) (i : ℕ) (a b : SignatureElement) (k s : ℕ)
    → (k' s' : ℕ) × (better hint i a b (some (k, s)) ≡ some (k', s')) × (s ≤ s')
better-keeps hint i a b k s =
    let score = get_score hint (SignatureElement.value a) (SignatureElement.value b) in
    elim (Bool-cases (all a && all b)) [
      | inr other ↦ rw other (k, s, refl, omega arith)
      | inl pair ↦ rw pair (elim (Bool-cases (ltb s score)) [
        | inl more ↦ rw more (i, score, refl, ground arith)
        | inr less ↦ rw less (k, s, refl, omega arith)
      ])
    ]

better-counts :
    (hint : PairHint) (i : ℕ) (a b : SignatureElement) (best : Option (ℕ × ℕ))
    → all a ≡ true
    → all b ≡ true
    → (k' s' : ℕ) × (better hint i a b best ≡ some (k', s'))
      × (get_score hint (SignatureElement.value a) (SignatureElement.value b) ≤ s')
better-counts hint i a b none p q = rw (p, q) (i, _, refl, omega arith)
better-counts hint i a b (some (k, s)) p q =
    let score = get_score hint (SignatureElement.value a) (SignatureElement.value b) in
    rw (p, q)
      (elim (Bool-cases (ltb s score)) [
        | inl more ↦ rw more (i, score, refl, omega arith)
        | inr less ↦ rw less (k, s, refl, ground arith)
      ])

IsBest-step :
    (hint : PairHint) (i : ℕ) (a b : SignatureElement) (best : Option (ℕ × ℕ)) (sig : Signature)
    (r : Option (ℕ × ℕ))
    → IsBest hint (i + 1) (better hint i a b best) (b ∷ sig) r
    → IsBest hint i best (a ∷ b ∷ sig) r
IsBest-step hint i a b best sig none h = (
  elim (Option-cases best) [
    | inl e ↦ e
    | inr ((k, s), e) ↦
        let (k2, s2, e2, le) = better-keeps hint i a b k s in
        absurd (cc (h.0, ap (better hint i a b) e ∙ e2))
  ],
  λ j. elim j as (λ j. ¬ (IsPairAt (a ∷ b ∷ sig) j)) [
    | zero ↦ λ p. let (k, s, e, le) = better-counts hint i a b best (p.0.1) (p.1.1) in cc (h.0, e)
    | suc j ↦ λ p. h.1 j ((omega (arith, p.0.0), p.0.1), (omega (arith, p.1.0), p.1.1))
  ],
)
IsBest-step hint i a b best sig (some (k, s)) h = (
  (elim (h.0) [
    | inr (j, e, p, q) ↦
        inr (suc j, omega arith, ((omega (arith, p.0.0), p.0.1), (omega (arith, p.1.0), p.1.1)), q)
    | inl e ↦ elim (better-cases hint i a b best k s e) [
      | inl old ↦ inl old
      | inr (at, fa, fb, score) ↦
          inr (0, omega arith, ((omega arith, fa), (omega arith, fb)), score)
    ]
  ]),
  λ j. elim j as (λ j. IsPairAt (a ∷ b ∷ sig) j → score_at hint (a ∷ b ∷ sig) j ≤ s) [
    | zero ↦ λ p.
        let (k', s', e, le) = better-counts hint i a b best (p.0.1) (p.1.1) in
        omega (arith, h.2 k' s' e)
    | suc j ↦ λ p. h.1 j ((omega (arith, p.0.0), p.0.1), (omega (arith, p.1.0), p.1.1))
  ],
  λ k' s' e.
      let (k2, s2, e2, le) = better-keeps hint i a b k' s' in
      omega (arith, h.2 k2 s2 (ap (better hint i a b) e ∙ e2)),
)

pub best_pair-IsBest :
    (hint : PairHint) (i : ℕ) (best : Option (ℕ × ℕ)) (sig : Signature)
    → IsBest hint i best sig (best_pair hint i best sig)
unfolding best_pair
best_pair-IsBest hint i best [] = IsBest-short hint i best [] (omega arith)
best_pair-IsBest hint i best (a ∷ []) = IsBest-short hint i best (a ∷ []) (omega arith)
best_pair-IsBest hint i best (a ∷ b ∷ sig) =
    IsBest-step hint i a b best sig _
      (best_pair-IsBest hint (i + 1) (better hint i a b best) (b ∷ sig))
