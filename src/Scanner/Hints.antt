-- ===== src/Scanner/Hints.antt =====
-- src/Scanner.cpp: `get_pair_hint` and `scan_context::apply_hints`, which pick the pair of bytes that
-- the vector scanners look for.
use libhat.Prelude.{ℕ, suc, ◌+◌, ◌==◌, ltb, Bool, not, ◌&&◌, ◌||◌, if◌then◌else◌}
use libhat.Prelude.{List, [], ◌∷◌, Option, none, some, length, get_or}
use libhat.Signature.Element.{SignatureElement, Signature, all}
use libhat.Scanner.Context.{ScanContext, has_hint, x86_64_hint, pair0_hint, aarch64_hint}

-- src/arch/x86/Frequency.hpp and src/arch/arm/Frequency.hpp: the pairs in order, and their scores.
pub record PairHint : Type 0 where
  pub pairs : List (ℕ × ℕ)
  pub scores : List ℕ

-- The tables that were compiled in: LIBHAT_HINT_X86_64 and LIBHAT_HINT_AARCH64.
pub record HintTables : Type 0 where
  pub x86_64 : Option PairHint
  pub aarch64 : Option PairHint

abbrev pub num_pairs : ℕ
num_pairs = 512

unfoldable pub get_pair_hint : HintTables → ℕ → Option PairHint
get_pair_hint tables hints =
    let second : Option PairHint = if has_hint hints aarch64_hint then tables.aarch64 else none in
    elim (tables.x86_64) [
      | some table ↦ if has_hint hints x86_64_hint then some table else second
      | none ↦ second
    ]

-- `operator<` of `std::pair<std::byte, std::byte>`.
abbrev pub pair_less : ℕ × ℕ → ℕ × ℕ → Bool
pair_less (a, b) (c, d) = ltb a c || (a == c && ltb b d)

abbrev pub pair_eq : ℕ × ℕ → ℕ × ℕ → Bool
pair_eq (a, b) (c, d) = a == c && b == d

-- `std::ranges::lower_bound` on a sorted range: the index of the first pair that is not less.
unfoldable pub lower_bound : ℕ × ℕ → List (ℕ × ℕ) → ℕ
lower_bound pair [] = 0
lower_bound pair (p ∷ pairs) = if pair_less p pair then suc (lower_bound pair pairs) else 0

-- The lambda `getScore`.
unfoldable pub get_score : PairHint → ℕ → ℕ → ℕ
get_score hint a b =
    let index = lower_bound (a, b) hint.pairs in
    if ltb index (length hint.pairs) && pair_eq (get_or hint.pairs index (0, 0)) (a, b)
    then get_or hint.scores index 0
    else num_pairs

-- The body of the first loop: a pair of whole bytes with a higher score is better.
abbrev pub better :
    PairHint → ℕ → SignatureElement → SignatureElement → Option (ℕ × ℕ) → Option (ℕ × ℕ)
better hint i a b best =
    let score = get_score hint (SignatureElement.value a) (SignatureElement.value b) in
    if all a && all b
    then (elim best [
      | none ↦ some (i, score)
      | some (j, old) ↦ if ltb old score then some (i, score) else some (j, old)
    ])
    else best

unfoldable pub best_pair : PairHint → ℕ → Option (ℕ × ℕ) → Signature → Option (ℕ × ℕ)
best_pair hint i best (a ∷ b ∷ sig) = best_pair hint (i + 1) (better hint i a b best) (b ∷ sig)
best_pair hint i best _ = best

-- The second loop: the first pair of whole bytes, or only the one at the start.
unfoldable pub first_pair : Bool → ℕ → Signature → Option ℕ
first_pair pair0 i (a ∷ b ∷ sig) =
    let rest = first_pair pair0 (i + 1) (b ∷ sig) in
    if all a && all b then some i else if i == 0 && pair0 then none else rest
first_pair pair0 i _ = none

-- `if (bestPair) { this->pairIndex = bestPair->first; }`.
abbrev pub from_best : Option (ℕ × ℕ) → Option ℕ → Option ℕ
from_best none index = index
from_best (some (i, score)) index = some i

-- The first half of `apply_hints`: the pair index after it, where `wanted` is
-- `!pair0 && scanner.vectorSize`.
unfoldable pub hinted_pair : Option PairHint → Bool → ScanContext → Option ℕ
hinted_pair none wanted ctx = ctx.pair_index
hinted_pair (some hint) wanted ctx =
    if wanted
    then from_best (best_pair hint 0 none ctx.signature) ctx.pair_index
    else ctx.pair_index

-- The second half: without a pair so far, the first one.
unfoldable pub some_pair : Option ℕ → Bool → Signature → Option ℕ
some_pair (some i) pair0 sig = some i
some_pair none pair0 sig = first_pair pair0 0 sig

unfoldable pub apply_hints : HintTables → ℕ → ScanContext → ScanContext
apply_hints tables vector_size ctx =
    let pair0 = has_hint ctx.hints pair0_hint in
    let hinted =
      hinted_pair (get_pair_hint tables ctx.hints) (not pair0 && not (vector_size == 0)) ctx in
    record ctx { pair_index = some_pair hinted pair0 ctx.signature }
