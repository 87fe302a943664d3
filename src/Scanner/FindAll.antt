-- ===== src/Scanner/FindAll.antt =====
-- `find_all_pattern` collects every aligned occurrence of the signature, in order; with an output range
-- of its own it stops when that is full.
use libhat.Prelude.{◌⊎◌, ltb→lt, ℕ, zero, suc, ◌+◌, ◌-◌, ◌≤◌, ◌<◌, ◌≡◌, refl, ltb, Bool}
use libhat.Prelude.{
  List, [], ◌∷◌, length, take, arith, Option, none, some, Bool-cases, inl, inr, ◌∙◌, sym, ap,
}
use libhat.Signature.Element.{Signature}
use libhat.Signature.Shape.{IsSignature, has_full}
use libhat.Scanner.Context.{
  Memory, IsBytes, ScanAlignment, to_stride, ScanContext, occurs, returned, timeout,
}
use libhat.Scanner.First.{IsFirst, Finds}
use libhat.Scanner.Resolve.{Scanner, ScanMode}
use libhat.Scanner.FindPattern.{
  Machine, create_scan, scan, find_all_loop, find_all_pattern, find_some_loop, find_some_pattern,
}
use libhat.Scanner.Agree.{IsPrepared, create_scan-IsPrepared, scan-Finds}
use libhat.Scanner.Occurrences.{
  occurrences, occurrences-none, occurrences-skip, occurrences-first, between_aligned,
  to_stride-pos,
}

module _ (sig : Signature) (alignment : ScanAlignment) (mem : Memory) (bytes : IsBytes mem)
    (p : Scanner × ScanContext) (prepared : IsPrepared sig alignment p)
    (filled : 0 < length sig) where
  abbrev occurs_at : ℕ → Bool
  occurs_at t = occurs mem sig alignment t

  -- All that is left from `i` on.
  abbrev rest_from : ℕ → ℕ → List ℕ
  rest_from end i = occurrences occurs_at i (end + 1 - length sig - i)

  -- The part of the loop behind a match.
  rest_from-match :
      (end i s : ℕ)
      → IsFirst occurs_at i (end + 1 - length sig) (some s)
      → rest_from end i ≡ s ∷ rest_from end (s + to_stride alignment)
  rest_from-match end i s h =
      let hi = end + 1 - length sig in
      let stride = to_stride alignment in
      let pos = to_stride-pos alignment in
      let span : i + (hi - i) ≡ hi = omega (arith, h.0, h.1) in
      let first = occurrences-first occurs_at i (hi - i) s (rw span h) in
      let skip =
        occurrences-skip occurs_at (stride - 1) (i + (hi - i) - (s + 1)) (s + 1)
          (between_aligned mem sig alignment s (h.2)) in
      let next : s + 1 + (stride - 1) ≡ s + stride = omega arith in
      let left : i + (hi - i) - (s + 1) - (stride - 1) ≡ hi - (s + stride) = omega arith in
      first ∙ ap (λ l. s ∷ l) (skip ∙ rw (next, left) refl)

  rest_from-none :
      (end i : ℕ) → IsFirst occurs_at i (end + 1 - length sig) none → rest_from end i ≡ []
  rest_from-none end i h =
      occurrences-none occurs_at (end + 1 - length sig - i) i (λ t lo hi. h t lo (omega arith))

  -- Behind the end nothing is left.
  rest_from-end : (end i : ℕ) → end ≤ i → rest_from end i ≡ []
  unfolding occurrences
  rest_from-end end i h =
      let zero_left : end + 1 - length sig - i ≡ 0 = omega arith in rw zero_left refl

  find_all_loop-rest_from :
      (end fuel i : ℕ)
      → end - i < fuel
      → find_all_loop mem p (to_stride alignment) end fuel i ≡ some (rest_from end i)
  unfolding find_all_loop
  find_all_loop-rest_from end zero i lt = absurd (omega arith)
  find_all_loop-rest_from end (suc fuel) i lt = elim (Bool-cases (ltb i end)) [
    | inr past ↦ rw past (ap some (sym (rest_from-end end i (ground arith))))
    | inl inside ↦ rw inside (
        (elim (scan mem p i end)
            as (λ r.
              Finds occurs_at i (end + 1 - length sig) r
              → (elim r [
                | timeout ↦ none
                | returned none ↦ some []
                | returned (some s) ↦
                    elim (find_all_loop mem p (to_stride alignment) end fuel
                      (s + to_stride alignment)) [ none ↦ none | some found ↦ some (s ∷ found) ]
              ])
                ≡ some (rest_from end i)) [
                  | timeout ↦ λ h. absurd h
                  | returned none ↦ λ h. ap some (sym (rest_from-none end i h))
                  | returned (some s) ↦ λ h.
                      let pos = to_stride-pos alignment in
                      let rec =
                        find_all_loop-rest_from end fuel (s + to_stride alignment)
                          (omega (arith, h.0, h.1)) in
                      rw rec (ap some (sym (rest_from-match end i s h)))
                ])
          (scan-Finds sig alignment p mem i end prepared bytes (ground arith)))
  ]

  -- The loop with room for `space` results: what it stores, and that it went through the whole range if
  -- there was room to spare.
  abbrev Collects : ℕ → ℕ → ℕ → Option (ℕ × List ℕ) → Type 0
  Collects end i space none = ⊥
  Collects end i space (some (stopped, found)) =
      (found ≡ take space (rest_from end i)) × (length (rest_from end i) < space → end ≤ stopped)

  Collects-match :
      (end i s space : ℕ) (r : Option (ℕ × List ℕ))
      → IsFirst occurs_at i (end + 1 - length sig) (some s)
      → Collects end (s + to_stride alignment) space r
      → Collects end i
          (suc space)
          (elim r [ none ↦ none | some (stopped, found) ↦ some (stopped, s ∷ found) ])
  Collects-match end i s space none h c = c
  Collects-match end i s space (some (stopped, found)) h c =
      rw (rest_from-match end i s h) (ap (λ l. s ∷ l) (c.0), λ short. c.1 (omega arith))

  find_some_loop-Collects :
      (end fuel space i : ℕ)
      → end - i < fuel
      → Collects end i space (find_some_loop mem p (to_stride alignment) end fuel space i)
  unfolding find_some_loop
  find_some_loop-Collects end zero space i lt = absurd (omega arith)
  find_some_loop-Collects end (suc fuel) zero i lt = (refl, λ short. absurd (omega arith))
  find_some_loop-Collects end (suc fuel) (suc space) i lt = elim (Bool-cases (ltb i end)) [
    | inr past ↦ rw past (rw (rest_from-end end i (ground arith)) refl, λ short. ground arith)
    | inl inside ↦ rw inside (
        (elim (scan mem p i end)
            as (λ r.
              Finds occurs_at i (end + 1 - length sig) r
              → Collects end i (suc space) (elim r [
                | timeout ↦ none
                | returned none ↦ some (end, [])
                | returned (some s) ↦
                    elim (find_some_loop mem p (to_stride alignment) end fuel space
                      (s + to_stride alignment)) [
                        | none ↦ none
                        | some (stopped, found) ↦ some (stopped, s ∷ found)
                      ]
              ])) [
                | timeout ↦ λ h. absurd h
                | returned none ↦ λ h. rw (rest_from-none end i h) (refl, λ short. omega arith)
                | returned (some s) ↦ λ h.
                    let pos = to_stride-pos alignment in
                    Collects-match end i s space _ h (
                      find_some_loop-Collects end fuel space (s + to_stride alignment)
                        (omega (arith, h.0, h.1)))
              ])
          (scan-Finds sig alignment p mem i end prepared bytes (ground arith)))
  ]

full-length : (sig : Signature) → IsSignature sig → 0 < length sig
unfolding has_full
full-length [] good = absurd (cc good.full)
full-length (e ∷ sig) good = omega arith

-- All the places of `[begin, end)` where the signature stands at the alignment, in order.
abbrev pub all_occurrences : Memory → Signature → ScanAlignment → ℕ → ℕ → List ℕ
all_occurrences mem sig alignment begin end =
    occurrences (λ t. occurs mem sig alignment t) begin (end + 1 - length sig - begin)

-- For a well-formed signature with a whole byte, memory of bytes and begin ≤ end,
-- `find_all_pattern` ends, and its results are all the places of the range where the signature
-- stands at the alignment, overlapping ones too, each once and in order.
pub find_all_pattern-all_occurrences :
    (machine : Machine) (mode : ScanMode) (mem : Memory) (begin end : ℕ) (sig : Signature)
    (alignment : ScanAlignment) (hints : ℕ)
    → IsSignature sig
    → IsBytes mem
    → begin ≤ end
    → find_all_pattern machine mode mem begin end sig alignment hints
      ≡ some (all_occurrences mem sig alignment begin end)
unfolding find_all_pattern
find_all_pattern-all_occurrences machine mode mem begin end sig alignment hints good bytes ordered =
    find_all_loop-rest_from sig alignment mem bytes (create_scan machine mode sig alignment hints)
      (create_scan-IsPrepared sig alignment hints good machine mode) (full-length sig good) end
      (suc (end - begin)) begin (omega arith)

-- For a well-formed signature with a whole byte, memory of bytes and begin ≤ end, the
-- `find_all_pattern` with an output range of `space` results ends and stores the first `space` of
-- all the places; either there are `space` of them, or it stopped at the end of the input or
-- behind it.
pub find_some_pattern-take :
    (machine : Machine) (mode : ScanMode) (mem : Memory) (begin end space : ℕ) (sig : Signature)
    (alignment : ScanAlignment) (hints : ℕ)
    → IsSignature sig
    → IsBytes mem
    → begin ≤ end
    → (stopped : ℕ) × (find_some_pattern machine mode mem begin end space sig alignment hints
        ≡ some (stopped, take space (all_occurrences mem sig alignment begin end)))
      × ((space ≤ length (all_occurrences mem sig alignment begin end)) ⊎ (end ≤ stopped))
unfolding find_some_pattern
find_some_pattern-take machine mode mem begin end space sig alignment hints good bytes ordered =
    unpack _ (
      find_some_loop-Collects sig alignment mem bytes (create_scan machine mode sig alignment hints)
        (create_scan-IsPrepared sig alignment hints good machine mode) (full-length sig good) end
        (suc (end - begin)) space begin (omega arith))
  where
    all : List ℕ
    all = all_occurrences mem sig alignment begin end

    unpack :
        (r : Option (ℕ × List ℕ))
        → Collects sig alignment mem bytes
            (create_scan machine mode sig alignment hints)
            (create_scan-IsPrepared sig alignment hints good machine mode)
            (full-length sig good)
            end
            begin
            space
            r
        → (stopped : ℕ) × (r ≡ some (stopped, take space all))
          × ((space ≤ length all) ⊎ (end ≤ stopped))
    unpack none c = absurd c
    unpack (some (stopped, found)) c = (
      stopped,
      ap (λ l. some (stopped, l)) (c.0),
      elim (Bool-cases (ltb (length all) space)) [
        | inl short ↦ inr (c.1 (ltb→lt _ _ short))
        | inr enough ↦ let filled : space ≤ length all = ground arith in inl filled
      ],
    )
