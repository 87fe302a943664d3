-- ===== src/Scanner/Blocks.antt =====
-- What `find_pattern_sse`, `find_pattern_avx2`, `find_pattern_avx512` and `find_pattern_neon` share: the
-- part before the vectors goes byte by byte, then come the vectors, then the part behind them. What is
-- done with one vector is an argument.
use libhat.Prelude.{ℕ, zero, suc, ◌+◌, ◌-◌, ◌==◌, Bool, if◌then◌else◌, none, some, length}
use libhat.Scanner.Context.{Memory, ScanAlignment, ScanContext, Outcome, returned, timeout}
use libhat.Scanner.Segment.{Span, segment_scan}
use libhat.Scanner.Single.{find_pattern_single}

-- Go on when nothing was found: `if (result.has_result()) return result;`.
abbrev pub or_else : Outcome → Outcome → Outcome
or_else rest r = elim r [
  | returned none ↦ rest
  | returned (some i) ↦ returned (some i)
  | timeout ↦ timeout
]

-- The loop over the vectors, from `it` to `vec_end`.
unfoldable pub block_loop : ℕ → (ℕ → Outcome) → ℕ → ℕ → ℕ → Outcome
block_loop width candidates vec_end zero it = timeout
block_loop width candidates vec_end (suc fuel) it =
    let rest = block_loop width candidates vec_end fuel (it + width) in
    let here : Outcome = elim (candidates it) [
      | returned none ↦ rest
      | returned (some i) ↦ returned (some i)
      | timeout ↦ timeout
    ] in
    if it == vec_end then returned none else here

-- A part of the range that goes byte by byte, if it is not empty.
unfoldable pub scan_span : ScanAlignment → Memory → ScanContext → Span → Outcome
scan_span alignment mem ctx s =
    if s.first == s.last
    then returned none
    else find_pattern_single alignment mem s.first s.last ctx

unfoldable pub find_segmented :
    ℕ → ScanAlignment → Bool → ℕ → (ℕ → Outcome) → Memory → ℕ → ℕ → ScanContext → Outcome
find_segmented width alignment veccmp index candidates mem begin end ctx =
    let segments = segment_scan width veccmp begin end (length ctx.signature) index in
    let vec = segments.vec in
    or_else
      (or_else (scan_span alignment mem ctx segments.post) (
        block_loop width candidates (Span.last vec) (suc (Span.last vec - Span.first vec))
          (Span.first vec)))
      (scan_span alignment mem ctx segments.pre)
