-- ===== src/Scanner/BlocksFirst.antt =====
-- The frame that the vector scanners share finds the first occurrence, when the scan of one vector does.
use libhat.Prelude.{ℕ, zero, suc, ◌+◌, ◌-◌, ◌*◌, ◌%◌, ◌<◌, ◌≤◌, ◌≡◌, refl, ◌==◌, Bool, true, false}
use libhat.Prelude.{if◌then◌else◌, length, arith, Bool-cases, inl, inr, none, some, ◌∙◌}
use native.Mathlib.Nat.{add-mod_right, le_refl}
use libhat.Scanner.Context.{
  Memory, IsBytes, ScanAlignment, ScanContext, occurs, Outcome, returned, timeout,
}
use libhat.Scanner.First.{Finds, Finds-append, IsFirst-widen}
use libhat.Scanner.Valid.{IsContext}
use libhat.Scanner.SingleFirst.{find_pattern_single-Finds}
use libhat.Scanner.Segment.{
  Span, span, empty_span, Segments, IsSegmented, whole, split, segment_scan-IsSegmented,
}
use libhat.Scanner.Blocks.{or_else, block_loop, scan_span, find_segmented}

-- The two together search both ranges.
Finds-or_else :
    (test : ℕ → Bool) (a b c d : ℕ) (r rest : Outcome)
    → Finds test a b r
    → Finds test c d rest
    → a ≤ c
    → c ≤ b
    → b ≤ d
    → Finds test a d (or_else rest r)
Finds-or_else test a b c d (returned none) rest p q h k l = Finds-append test a b c d rest p q h k
Finds-or_else test a b c d (returned (some i)) rest p q h k l = IsFirst-widen test a b d i p l
Finds-or_else test a b c d timeout rest p q h k l = p

-- A width, a context, the place compared first, and a scan of one vector that finds what starts there.
module _ (width : ℕ) (alignment : ScanAlignment) (mem : Memory) (bytes : IsBytes mem)
    (ctx : ScanContext) (valid : IsContext ctx) (Index : ℕ) (candidates : ℕ → Outcome)
    (positive : 0 < width)
    (one_vector : (it : ℕ)
      → it % width ≡ 0
      → Index ≤ it
      → Finds
          (λ t. occurs mem ctx.signature alignment t)
          (it - Index)
          (it + width - Index)
          (candidates it)) where
  abbrev occurs_at : ℕ → Bool
  occurs_at t = occurs mem ctx.signature alignment t

  block_loop-Finds :
      (vec_end n fuel it : ℕ)
      → it + n * width ≡ vec_end
      → n < fuel
      → it % width ≡ 0
      → Index ≤ it
      → Finds occurs_at (it - Index) (vec_end - Index) (block_loop width candidates vec_end fuel it)
  unfolding block_loop
  block_loop-Finds vec_end n zero it e lt aligned le = absurd (omega arith)
  block_loop-Finds vec_end zero (suc fuel) it e lt aligned le =
      let last : (it == vec_end) ≡ true = ground arith in rw last (λ t lo hi. absurd (omega arith))
  block_loop-Finds vec_end (suc n) (suc fuel) it e lt aligned le =
      let more : (it == vec_end) ≡ false = ground arith in
      let moved : it + width + n * width ≡ vec_end = omega arith in
      let again : (it + width) % width ≡ 0 = add-mod_right it width ∙ aligned in
      let rest =
        block_loop-Finds vec_end n fuel (it + width) moved (omega arith) again (omega arith) in
      rw more (
        Finds-or_else occurs_at (it - Index) (it + width - Index) (it + width - Index)
          (vec_end - Index) _ _ (one_vector it aligned le) rest (omega arith) (omega arith)
          (omega arith))

  scan_span-Finds :
      (lo hi : ℕ)
      → lo + length ctx.signature ≤ hi
      → Finds occurs_at lo
          (hi - length ctx.signature + 1)
          (scan_span alignment mem ctx (span lo hi))
  unfolding scan_span
  scan_span-Finds lo hi room =
      let inside = valid.cmp_inside in
      let filled : (lo == hi) ≡ false = ground arith in
      rw filled (find_pattern_single-Finds mem bytes ctx valid alignment lo hi room)

  no_vectors :
      or_else (scan_span alignment mem ctx empty_span) (block_loop width candidates 0 1 0)
      ≡ returned none
  unfolding scan_span block_loop
  no_vectors = refl

  abbrev Sequence : Segments → Outcome
  Sequence segments =
      or_else
        (or_else (scan_span alignment mem ctx segments.post) (
          block_loop width candidates (Span.last (segments.vec))
            (suc (Span.last (segments.vec) - Span.first (segments.vec)))
            (Span.first (segments.vec))))
        (scan_span alignment mem ctx segments.pre)

  Sequence-Finds :
      (begin end required : ℕ) {segments : Segments}
      → begin + length ctx.signature ≤ end
      → IsSegmented width required begin end (length ctx.signature) Index segments
      → length ctx.signature ≤ required
      → Finds occurs_at begin (end - length ctx.signature + 1) (Sequence segments)
  Sequence-Finds begin end required room whole enough =
      let hi = end - length ctx.signature + 1 in
      rw no_vectors (
        Finds-or_else occurs_at begin hi hi hi _ (returned none) (scan_span-Finds begin end room)
          (λ t lo lt. absurd (omega arith)) (omega arith) (omega arith) (omega arith))
  Sequence-Finds begin end required room (split vec_begin count aligned le pos ends) enough =
      let size = length ctx.signature in
      let vec_end = vec_begin + count * width in
      let hi = end - size + 1 in
      let tail : vec_begin - Index + size - size + 1 ≡ vec_begin - Index + 1 = omega arith in
      let pre = rw tail at (scan_span-Finds begin (vec_begin - Index + size) (omega arith)) in
      let fuel : count < suc (vec_end - vec_begin) = grind arith in
      let middle =
        block_loop-Finds vec_end count (suc (vec_end - vec_begin)) vec_begin refl fuel aligned
          (omega arith) in
      let post = scan_span-Finds (vec_end - Index) end (omega arith) in
      Finds-or_else occurs_at begin (vec_begin - Index + 1) (vec_begin - Index) hi _ _ pre
        (Finds-or_else occurs_at (vec_begin - Index) (vec_end - Index) (vec_end - Index) hi _ _
          middle post (omega arith) (omega arith) (omega arith))
        (omega arith) (omega arith) (omega arith)

  pub find_segmented-Finds :
      (veccmp : Bool) (begin end : ℕ)
      → Index < length ctx.signature
      → (veccmp ≡ true → length ctx.signature ≤ width)
      → begin + length ctx.signature ≤ end
      → Finds occurs_at begin
          (end - length ctx.signature + 1)
          (find_segmented width alignment veccmp Index candidates mem begin end ctx)
  unfolding find_segmented
  find_segmented-Finds veccmp begin end inside fits room =
      let enough : length ctx.signature ≤ (if veccmp then width else length ctx.signature) =
        elim (Bool-cases veccmp) [ inl e ↦ rw e (fits e) | inr e ↦ rw e (le_refl _) ] in
      Sequence-Finds begin end _ room
        (segment_scan-IsSegmented width veccmp begin end (length ctx.signature) Index positive
          inside fits room)
        enough
