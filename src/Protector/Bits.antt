-- ===== src/Protector/Bits.antt =====
-- The protections that `get_page_prot` and `to_system_prot` of Linux give have no other bits than those of
-- PROT_READ, PROT_WRITE and PROT_EXEC.
use libhat.Prelude.{
  ℕ, ◌<◌, ◌≡◌, refl, sym, leb, ltb, ◌&&◌, Bool, true, false, subst, bit_or, if◌then◌else◌,
  Bool-cases, inl, inr, List, [], ◌∷◌, Option, none, some, arith,
}
use libhat.Process.Maps.{
  Region, permissions, make_region, second_number, first_number, from_chars, parse_line,
  iter_mapped_regions,
}
use libhat.Process.Regions.{get_page_prot, page_step}
use libhat.Protector.Flags.{grants, read, write, execute, to_system_prot}

-- A result, if there is one, that has only the three bits.
abbrev IsSmall : Option ℕ → Type 0
IsSmall none = Unit
IsSmall (some q) = q < 8

abbrev IsSmallRegion : Option Region → Type 0
IsSmallRegion none = Unit
IsSmallRegion (some r) = Region.prot r < 8

permissions-lt : (text : List ℕ) → IsSmall (permissions text)
permissions-lt [] = tt
permissions-lt (r ∷ []) = tt
permissions-lt (r ∷ w ∷ []) = tt
permissions-lt (r ∷ w ∷ x ∷ rest) = ground arith

make_region-lt :
    (first last : ℕ) (o : Option ℕ) → IsSmall o → IsSmallRegion (make_region first last o)
make_region-lt first last none h = tt
make_region-lt first last (some q) h = h

second_number-lt : (first : ℕ) (o : Option (ℕ × List ℕ)) → IsSmallRegion (second_number first o)
second_number-lt first none = tt
second_number-lt first (some (last, [])) = tt
second_number-lt first (some (last, skipped ∷ rest)) =
    make_region-lt first last (permissions rest) (permissions-lt rest)

first_number-lt : (o : Option (ℕ × List ℕ)) → IsSmallRegion (first_number o)
first_number-lt none = tt
first_number-lt (some (first, [])) = tt
first_number-lt (some (first, skipped ∷ rest)) = second_number-lt first (from_chars rest)

parse_line-lt : (line : List ℕ) → IsSmallRegion (parse_line line)
unfolding parse_line
parse_line-lt line = first_number-lt (from_chars line)

-- One region: it is taken, or the search goes on.
page_step-lt :
    (lines : List (List ℕ)) (address : ℕ) (r : Region)
    → Region.prot r < 8
    → IsSmall (iter_mapped_regions (page_step address) none lines)
    → IsSmall (
        if (page_step address none r).1
        then iter_mapped_regions (page_step address) (page_step address none r).0 lines
        else (page_step address none r).0)
page_step-lt lines address r small rest =
    elim (Bool-cases (leb (Region.first r) address && ltb address (Region.last r))) [
      | inl inside ↦
          let taken : page_step address none r ≡ (some (Region.prot r), false) = rw inside refl in
          subst
            (λ t. IsSmall (if t.1 then iter_mapped_regions (page_step address) t.0 lines else t.0))
            (sym taken) small
      | inr outside ↦
          let passed : page_step address none r ≡ (none, true) = rw outside refl in
          subst
            (λ t. IsSmall (if t.1 then iter_mapped_regions (page_step address) t.0 lines else t.0))
            (sym passed) rest
    ]

page_prot-lt :
    (lines : List (List ℕ)) (address : ℕ)
    → IsSmall (iter_mapped_regions (page_step address) none lines)
unfolding iter_mapped_regions
page_prot-lt [] address = tt
page_prot-lt (line ∷ lines) address =
    by_line (parse_line line) (parse_line-lt line) (page_prot-lt lines address)
  where
    by_line :
        (o : Option Region)
        → IsSmallRegion o
        → IsSmall (iter_mapped_regions (page_step address) none lines)
        → IsSmall (elim o [
          | none ↦ iter_mapped_regions (page_step address) none lines
          | some region ↦
              if (page_step address none region).1
              then iter_mapped_regions (page_step address) (page_step address none region).0 lines
              else (page_step address none region).0
        ])
    by_line none small rest = rest
    by_line (some r) small rest = page_step-lt lines address r small rest

pub get_page_prot-lt :
    (lines : List (List ℕ)) (address q : ℕ) → get_page_prot lines address ≡ some q → q < 8
unfolding get_page_prot
get_page_prot-lt lines address q h = subst IsSmall h (page_prot-lt lines address)

pub to_system_prot-lt : (flags : ℕ) → to_system_prot flags < 8
unfolding to_system_prot
to_system_prot-lt flags = table (grants flags read) (grants flags write) (grants flags execute)
  where
    table :
        (r w x : Bool)
        → (let prot0 = if r then bit_or 0 1 else 0 in
            let prot1 = if w then bit_or prot0 2 else prot0 in if x then bit_or prot1 4 else prot1)
          < 8
    table true true true = omega arith
    table true true false = omega arith
    table true false true = omega arith
    table true false false = omega arith
    table false true true = omega arith
    table false true false = omega arith
    table false false true = omega arith
    table false false false = omega arith
