-- ===== src/Scanner/Pairs.antt =====
-- The pair that `apply_hints` picks: two whole bytes of the signature, side by side, and with a
-- frequency table the pair with the best score.
use libhat.Prelude.{ℕ, suc, ◌+◌, ◌==◌, Bool, true, false, not, ◌&&◌, ap, ◌∙◌, sym}
use libhat.Prelude.{[], ◌∷◌, Option, none, some, ◌≡◌, ◌≤◌, ◌<◌, arith, Bool-cases, inl, inr}
use libhat.Signature.Element.{Signature, all}
use libhat.Scanner.Context.{ScanContext, has_hint, pair0_hint}
use libhat.Scanner.Hints.{
  PairHint, HintTables, get_pair_hint, best_pair, first_pair, from_best, hinted_pair, some_pair,
  apply_hints,
}
use libhat.Scanner.BestPair.{IsPairAt, score_at, IsBest, best_pair-IsBest}

first_pair-IsPairAt :
    (pair0 : Bool) (i : ℕ) (sig : Signature) (k : ℕ)
    → first_pair pair0 i sig ≡ some k
    → (j : ℕ) × (k ≡ i + j) × (IsPairAt sig j)
unfolding first_pair
first_pair-IsPairAt pair0 i [] k h = absurd (cc h)
first_pair-IsPairAt pair0 i (a ∷ []) k h = absurd (cc h)
first_pair-IsPairAt pair0 i (a ∷ b ∷ sig) k h = elim (Bool-cases (all a && all b)) [
  | inl pair ↦ (0, ground arith, ((omega arith, ground arith), (omega arith, ground arith)))
  | inr other ↦
      let rest : first_pair pair0 (i + 1) (b ∷ sig) ≡ some k = ground arith in
      let (j, e, p) = first_pair-IsPairAt pair0 (i + 1) (b ∷ sig) k rest in
      (suc j, omega arith, ((omega (arith, p.0.0), p.0.1), (omega (arith, p.1.0), p.1.1)))
]

-- No other pair has a higher score.
abbrev pub IsHighest : PairHint → Signature → ℕ → Type 0
IsHighest hint sig k = (j : ℕ) → IsPairAt sig j → score_at hint sig j ≤ score_at hint sig k

from_best-IsHighest :
    (hint : PairHint) (sig : Signature) (r : Option (ℕ × ℕ)) (k : ℕ)
    → IsBest hint 0 none sig r
    → from_best r none ≡ some k
    → IsPairAt sig k × IsHighest hint sig k
from_best-IsHighest hint sig none k best h = absurd (cc h)
from_best-IsHighest hint sig (some (i, s)) k best h = elim (best.0) [
  | inl e ↦ absurd (cc e)
  | inr (j, e, p, q) ↦
      let same : k ≡ j = ground arith in rw same (p, λ j' p'. omega (arith, best.1 j' p', q))
]

from_best-none :
    (hint : PairHint) (sig : Signature) (r : Option (ℕ × ℕ))
    → IsBest hint 0 none sig r
    → from_best r none ≡ none
    → (j : ℕ) → ¬ (IsPairAt sig j)
from_best-none hint sig none best h = best.1
from_best-none hint sig (some (i, s)) best h = absurd (cc h)

hinted_pair-IsPairAt :
    (table : Option PairHint) (wanted : Bool) (ctx : ScanContext) (k : ℕ)
    → ctx.pair_index ≡ none
    → hinted_pair table wanted ctx ≡ some k
    → IsPairAt ctx.signature k
unfolding hinted_pair
hinted_pair-IsPairAt none wanted ctx k fresh h = absurd (cc (fresh, h))
hinted_pair-IsPairAt (some hint) false ctx k fresh h = absurd (cc (fresh, h))
hinted_pair-IsPairAt (some hint) true ctx k fresh h =
    (from_best-IsHighest hint ctx.signature _ k (best_pair-IsBest hint 0 none ctx.signature)
      (ap (from_best (best_pair hint 0 none ctx.signature)) (sym fresh) ∙ h)).0

some_pair-IsPairAt :
    (hinted : Option ℕ) (pair0 : Bool) (sig : Signature) (k : ℕ)
    → ((i : ℕ) → hinted ≡ some i → IsPairAt sig i)
    → some_pair hinted pair0 sig ≡ some k
    → IsPairAt sig k
unfolding some_pair
some_pair-IsPairAt (some i) pair0 sig k good h = good k h
some_pair-IsPairAt none pair0 sig k good h =
    let (j, e, p) = first_pair-IsPairAt pair0 0 sig k h in
    let same : k ≡ j = omega arith in rw same p

-- For a context without a pair, a pair index that `apply_hints` sets names two whole bytes of the
-- signature side by side.
pub apply_hints-IsPairAt :
    (tables : HintTables) (vector_size : ℕ) (ctx : ScanContext) (k : ℕ)
    → ctx.pair_index ≡ none
    → ScanContext.pair_index (apply_hints tables vector_size ctx) ≡ some k
    → IsPairAt ctx.signature k
unfolding apply_hints
apply_hints-IsPairAt tables vector_size ctx k fresh h =
    some_pair-IsPairAt _ (has_hint ctx.hints pair0_hint) ctx.signature k
      (λ i. hinted_pair-IsPairAt _ _ ctx i fresh) h

best_choice :
    (hint : PairHint) (sig : Signature) (r : Option (ℕ × ℕ)) (pair0 : Bool) (k : ℕ)
    → IsBest hint 0 none sig r
    → some_pair (from_best r none) pair0 sig ≡ some k
    → IsHighest hint sig k
unfolding some_pair
best_choice hint sig none pair0 k best h =
    let (j, e, p) = first_pair-IsPairAt pair0 0 sig k h in absurd (best.1 j p)
best_choice hint sig (some (i, s)) pair0 k best h =
    (from_best-IsHighest hint sig (some (i, s)) k best h).1

-- With a frequency table for the hints, without the hint `pair0`, for a scanner with vectors and a
-- context without a pair, a pair that `apply_hints` sets has the highest score of all pairs of
-- whole bytes side by side.
pub apply_hints-IsHighest :
    (tables : HintTables) (vector_size : ℕ) (ctx : ScanContext) (hint : PairHint) (k : ℕ)
    → ctx.pair_index ≡ none
    → get_pair_hint tables ctx.hints ≡ some hint
    → has_hint ctx.hints pair0_hint ≡ false
    → 0 < vector_size
    → ScanContext.pair_index (apply_hints tables vector_size ctx) ≡ some k
    → IsHighest hint ctx.signature k
unfolding apply_hints hinted_pair
apply_hints-IsHighest tables vector_size ctx hint k fresh table plain size h =
    let best = best_pair hint 0 none ctx.signature in
    let pair0 = has_hint ctx.hints pair0_hint in
    let wanted : (not pair0 && not (vector_size == 0)) ≡ true = ground arith in
    let hinted : hinted_pair (get_pair_hint tables ctx.hints) (not pair0 && not (vector_size == 0))
          ctx
        ≡ from_best best none =
      rw (table, wanted) (ap (from_best best) fresh) in
    best_choice hint ctx.signature best pair0 k (best_pair-IsBest hint 0 none ctx.signature)
      (ap (λ x. some_pair x pair0 ctx.signature) (sym hinted) ∙ h)
