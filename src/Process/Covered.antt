-- ===== src/Process/Covered.antt =====
-- `is_readable` and its like say whether every byte of a region is mapped with the flag.
use libhat.Prelude.{
  leb→le, ℕ, ◌+◌, ◌^◌, ◌≤◌, ◌<◌, ◌==◌, ltb, leb, ◌≡◌, refl, ap, subst, true, false, ◌&&◌,
}
use libhat.Prelude.{
  if◌then◌else◌, List, [], ◌∷◌, Option, none, some, ◌↔◌, arith, Bool-cases, inl, inr,
}
use native.Mathlib.Nat.{mod-eq_of_lt, le_refl}
use libhat.Process.Maps.{Region, parse_line, iter_mapped_regions, regions_of}
use libhat.Process.Regions.{has_flag, Cursor, region_step, region_has_flag}
use libhat.Process.Answer.{
  covered, IsSorted, covered-below, IsAnswer, stopped-IsAnswer, refused-IsAnswer, accepted-IsAnswer,
  skipped-IsAnswer, done-IsAnswer,
}

-- The loop over the regions that the lines give.
region_loop : ℕ → ℕ → Cursor → List Region → Cursor
region_loop flags end s [] = s
region_loop flags end s (r ∷ regions) =
    let (s', go_on) = region_step flags end s r in
    let rest = region_loop flags end s' regions in if go_on then rest else s'

le→leb : (a b : ℕ) → a ≤ b → leb a b ≡ true
le→leb a b h = ground arith

abbrev behind : ℕ → ℕ → Region → List Region → Cursor
behind flags end r regions =
    let s : Cursor = record { begin = r.last; found = true } in
    if ltb r.last end && leb r.first r.last then region_loop flags end s regions else s

-- Behind a region that was accepted, the search goes on unless the end is reached.
entered-IsAnswer :
    (flags end : ℕ) (r : Region) (regions : List Region)
    → r.first < r.last
    → (r.last < end
        → IsAnswer flags end r.last regions
            (region_loop flags end (record { begin = r.last; found = true }) regions))
    → IsAnswer flags end r.last regions (behind flags end r regions)
entered-IsAnswer flags end r regions pos go_on =
    let rising : leb r.first r.last ≡ true = ground arith in
    rw rising (elim (Bool-cases (ltb r.last end)) [
      | inl more ↦ rw more (go_on (ground arith))
      | inr all ↦
          let reached : end ≤ r.last = ground arith in
          rw all (
            done-IsAnswer flags end r.last regions (record { begin = r.last; found = true }) reached
              reached)
    ])

found-IsAnswer :
    (flags end b : ℕ) (regions : List Region)
    → IsSorted b regions
    → b < end
    → IsAnswer flags end b regions
        (region_loop flags end (record { begin = b; found = true }) regions)
unfolding region_loop region_step
found-IsAnswer flags end b [] sorted lt =
    stopped-IsAnswer flags end b [] (record { begin = b; found = true }) refl lt refl
found-IsAnswer flags end b (r ∷ regions) (le, pos, sorted) lt = elim (Bool-cases (r.first == b)) [
  | inr gap ↦ rw gap (
      stopped-IsAnswer flags end b (r ∷ regions) (record { begin = b; found = true }) refl lt
        (covered-below flags r.first (r ∷ regions) b (le_refl r.first, pos, sorted) (ground arith)))
  | inl next ↦ elim (Bool-cases (has_flag flags r.prot)) [
    | inr lacking ↦
        subst (IsAnswer flags end b (r ∷ regions)) {x = record { begin = b; found = true }}
          {y = region_loop flags end (record { begin = b; found = true }) (r ∷ regions)}
          (rw (next, lacking) refl)
          (refused-IsAnswer flags end b r regions (record { begin = b; found = true }) refl lt
            (ground arith) lacking sorted)
    | inl flagged ↦
        subst (IsAnswer flags end b (r ∷ regions)) {x = behind flags end r regions}
          {y = region_loop flags end (record { begin = b; found = true }) (r ∷ regions)}
          (rw (next, flagged) refl)
          (accepted-IsAnswer flags end b r regions (behind flags end r regions) (ground arith)
            flagged (ground arith)
            (entered-IsAnswer flags end r regions pos
              (λ more. found-IsAnswer flags end r.last regions sorted more)))
  ]
]

-- Before a region that holds `b` was met.
search-IsAnswer :
    (flags end b low : ℕ) (regions : List Region)
    → IsSorted low regions
    → b < end
    → IsAnswer flags end b regions
        (region_loop flags end (record { begin = b; found = false }) regions)
unfolding region_loop region_step
search-IsAnswer flags end b low [] sorted lt =
    stopped-IsAnswer flags end b [] (record { begin = b; found = false }) refl lt refl
search-IsAnswer flags end b low (r ∷ regions) (le, pos, sorted) lt =
    elim (Bool-cases (leb r.first b && ltb b r.last)) [
      | inl here ↦ elim (Bool-cases (has_flag flags r.prot)) [
        | inr lacking ↦
            subst (IsAnswer flags end b (r ∷ regions)) {x = record { begin = b; found = true }}
              {y = region_loop flags end (record { begin = b; found = false }) (r ∷ regions)}
              (rw (here, lacking) refl)
              (refused-IsAnswer flags end b r regions (record { begin = b; found = true }) refl lt
                (ground arith) lacking sorted)
        | inl flagged ↦
            subst (IsAnswer flags end b (r ∷ regions)) {x = behind flags end r regions}
              {y = region_loop flags end (record { begin = b; found = false }) (r ∷ regions)}
              (rw (here, flagged) refl)
              (accepted-IsAnswer flags end b r regions (behind flags end r regions) (ground arith)
                flagged (ground arith)
                (entered-IsAnswer flags end r regions pos
                  (λ more. found-IsAnswer flags end r.last regions sorted more)))
      ]
      | inr elsewhere ↦
          let more : ltb b end ≡ true = ground arith in
          rw (elsewhere, more)
            (elim (Bool-cases (leb r.first b)) [
              | inr before ↦ rw before (
                  stopped-IsAnswer flags end b (r ∷ regions) (record { begin = b; found = false })
                    refl lt
                    (covered-below flags r.first (r ∷ regions) b (le_refl r.first, pos, sorted)
                      (ground arith)))
              | inl past ↦ rw past (
                  skipped-IsAnswer flags end b r regions
                    (region_loop flags end (record { begin = b; found = false }) regions)
                    (ground arith) (search-IsAnswer flags end b r.last regions sorted lt))
            ])
    ]

-- The lines that give no region change nothing.
iter_mapped_regions-region_loop :
    (flags end : ℕ) (s : Cursor) (lines : List (List ℕ))
    → iter_mapped_regions (region_step flags end) s lines
      ≡ region_loop flags end s (regions_of lines)
unfolding iter_mapped_regions regions_of region_loop
iter_mapped_regions-region_loop flags end s [] = refl
iter_mapped_regions-region_loop flags end s (line ∷ lines) =
    by_line (parse_line line) (λ s'. iter_mapped_regions-region_loop flags end s' lines)
  where
    by_line :
        (o : Option Region)
        → ((s' : Cursor)
            → iter_mapped_regions (region_step flags end) s' lines
              ≡ region_loop flags end s' (regions_of lines))
        → elim o [
          | none ↦ iter_mapped_regions (region_step flags end) s lines
          | some region ↦
              if (region_step flags end s region).1
              then iter_mapped_regions
                  (region_step flags end)
                  (region_step flags end s region).0
                  lines
              else (region_step flags end s region).0
        ]
          ≡ region_loop flags end s
              (elim o [ none ↦ regions_of lines | some region ↦ region ∷ regions_of lines ])
    by_line none ih = ih s
    by_line (some r) ih =
        ap (λ rest. if (region_step flags end s r).1 then rest else (region_step flags end s r).0)
          (ih (region_step flags end s r).0)

-- For a region that is not empty and whose end does not wrap round, and lines that give rising
-- regions that are not empty and do not overlap, `regionHasFlag` is true exactly when each byte of
-- the region lies in a mapped region that has the flag.
pub region_has_flag-covered :
    (lines : List (List ℕ)) (address size flags : ℕ)
    → IsSorted 0 (regions_of lines)
    → 0 < size
    → address + size < 2 ^ 64
    → (region_has_flag lines address size flags ≡ true)
      ↔ ((a : ℕ) → address ≤ a → a < address + size → covered flags (regions_of lines) a ≡ true)
unfolding region_has_flag
region_has_flag-covered lines address size flags sorted pos fits =
    let some_bytes : (size == 0) ≡ false = ground arith in
    let whole = mod-eq_of_lt fits in
    let answer =
      search-IsAnswer flags (address + size) address 0 (regions_of lines) sorted (omega arith) in
    rw
      (
        some_bytes,
        whole,
        iter_mapped_regions-region_loop flags (address + size)
            (record { begin = address; found = false }) lines,
      )
      (λ h. answer.0 (leb→le _ _ h), λ f. le→leb _ _ (answer.1 f))
