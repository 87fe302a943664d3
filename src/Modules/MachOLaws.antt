-- ===== src/Modules/MachOLaws.antt =====
-- The nested loops of src/os/mac/Process.cpp go through one list of sections, until the callback stops them.
use libhat.Prelude.{
  ℕ, zero, suc, ◌+◌, ◌==◌, Bool, true, false, not, ◌&&◌, ◌≡◌, refl, sym, ap, ◌∙◌, if◌then◌else◌,
  List, [], ◌∷◌, ◌++◌, Bool-cases, inl, inr,
}
use mathlib.Core.List.{append-nil, append_assoc}
use libhat.Scanner.Context.{Memory}
use libhat.Scanner.ScanResult.{read_bytes}
use libhat.Modules.Visit.{keep}
use libhat.Modules.MachO.{
  lc_segment, vmsize, initprot, nsects, section_addr, segment_loop, each_segment, section_loop,
  each_section,
}

module _ {ℓ κ} {S : Type ℓ} {A : Type κ} (callback : S → A → S × Bool) where
  -- A loop over a list until the callback stops it, and whether it did not.
  unfoldable pub visit : S → List A → S × Bool
  visit s [] = (s, true)
  visit s (a ∷ items) =
      let (s', go_on) = callback s a in
      let rest = visit s' items in if go_on then rest else (s', false)

  -- A second loop, if the first was not stopped.
  abbrev pub and_then : S × Bool → (S → S × Bool) → S × Bool
  and_then (s, true) f = f s
  and_then (s, false) f = (s, false)

  visit-append :
      (s : S) (xs ys : List A) → visit s (xs ++ ys) ≡ and_then (visit s xs) (λ s'. visit s' ys)
  unfolding visit
  visit-append s [] ys = refl
  visit-append s (a ∷ xs) ys = stop (callback s a) (λ s'. visit-append s' xs ys)
    where
      stop :
          (r : S × Bool)
          → ((s' : S) → visit s' (xs ++ ys) ≡ and_then (visit s' xs) (λ s''. visit s'' ys))
          → (if r.1 then visit r.0 (xs ++ ys) else (r.0, false))
            ≡ and_then (if r.1 then visit r.0 xs else (r.0, false)) (λ s'. visit s' ys)
      stop (s', true) rec = rec s'
      stop (s', false) rec = refl

  -- The loop that goes on by itself is the loop over both lists.
  visit-both :
      (f : S → S × Bool) (s : S) (xs ys : List A) (r : S × Bool)
      → r ≡ visit s xs
      → ((s' : S) → f s' ≡ visit s' ys)
      → (if r.1 then f r.0 else (r.0, false)) ≡ visit s (xs ++ ys)
  visit-both f s xs ys r e g =
      joined r (ap (λ x. and_then x (λ s'. visit s' ys)) e ∙ sym (visit-append s xs ys))
    where
      joined :
          (r : S × Bool)
          → and_then r (λ s'. visit s' ys) ≡ visit s (xs ++ ys)
          → (if r.1 then f r.0 else (r.0, false)) ≡ visit s (xs ++ ys)
      joined (s', true) h = g s' ∙ h
      joined (s', false) h = h

module _ (mem : Memory) where
  -- The sections that the loops visit.
  unfoldable pub sections_in : ℕ → ℕ → ℕ → List (ℕ × ℕ)
  sections_in seg zero sec = []
  sections_in seg (suc n) sec =
      let rest = sections_in seg n (sec + 80) in
      if section_addr mem sec == 0 then rest else (seg, sec) ∷ rest

  abbrev pub is_segment : ℕ → Bool
  is_segment cmd =
      read_bytes mem 4 cmd == lc_segment && not (vmsize mem cmd == 0) && not (initprot mem cmd == 0)

  unfoldable pub sections_from : ℕ → ℕ → List (ℕ × ℕ)
  sections_from zero cmd = []
  sections_from (suc n) cmd =
      let rest = sections_from n (cmd + read_bytes mem 4 (cmd + 4)) in
      if is_segment cmd then sections_in cmd (nsects mem cmd) (cmd + 72) ++ rest else rest

  module _ {ℓ} {S : Type ℓ} (callback : S → ℕ × ℕ → S × Bool) where
    section_loop-visit :
        (seg n sec : ℕ) (s : S)
        → section_loop mem callback seg n sec s ≡ visit callback s (sections_in seg n sec)
    unfolding section_loop sections_in visit
    section_loop-visit seg zero sec s = refl
    section_loop-visit seg (suc n) sec s = elim (Bool-cases (section_addr mem sec == 0)) [
      | inl skipped ↦ rw skipped (section_loop-visit seg n (sec + 80) s)
      | inr there ↦ rw there (
          ap (λ r. if (callback s (seg, sec)).1 then r else ((callback s (seg, sec)).0, false))
            (section_loop-visit seg n (sec + 80) (callback s (seg, sec)).0))
    ]

    segment_loop-visit :
        (n cmd : ℕ) (s : S)
        → segment_loop mem
            (λ s' seg. section_loop mem callback seg (nsects mem seg) (seg + 72) s')
            n
            cmd
            s
          ≡ visit callback s (sections_from n cmd)
    unfolding segment_loop sections_from
    segment_loop-visit zero cmd s = unfold visit in refl
    segment_loop-visit (suc n) cmd s = elim (Bool-cases (is_segment cmd)) [
      | inr skipped ↦ rw skipped (segment_loop-visit n (cmd + read_bytes mem 4 (cmd + 4)) s)
      | inl there ↦ rw there (
          visit-both callback
            (λ s'.
              segment_loop mem
                (λ s'' seg. section_loop mem callback seg (nsects mem seg) (seg + 72) s'') n
                (cmd + read_bytes mem 4 (cmd + 4)) s')
            s (sections_in cmd (nsects mem cmd) (cmd + 72))
            (sections_from n (cmd + read_bytes mem 4 (cmd + 4)))
            (section_loop mem callback cmd (nsects mem cmd) (cmd + 72) s)
            (section_loop-visit cmd (nsects mem cmd) (cmd + 72) s)
            (λ s'. segment_loop-visit n (cmd + read_bytes mem 4 (cmd + 4)) s'))
    ]

    pub each_section-visit :
        (header : ℕ) (s : S)
        → each_section mem header callback s
          ≡ visit callback s (sections_from (read_bytes mem 4 (header + 16)) (header + 32))
    unfolding each_section each_segment
    each_section-visit header s =
        segment_loop-visit (read_bytes mem 4 (header + 16)) (header + 32) s

  visit-keep : (kept items : List (ℕ × ℕ)) → visit keep kept items ≡ (kept ++ items, true)
  unfolding visit
  visit-keep kept [] = ap (λ l. (l, true)) (sym (append-nil kept))
  visit-keep kept (item ∷ items) =
      visit-keep (kept ++ item ∷ []) items
      ∙ ap (λ l. (l, true)) (append_assoc kept (item ∷ []) items)

  -- What a callback that goes on is given: the addresses of segments and sections.
  abbrev pub sections_of : ℕ → List (ℕ × ℕ)
  sections_of header = (each_section mem header keep []).0

  pub each_section-sections_of :
      (header : ℕ)
      → sections_of header ≡ sections_from (read_bytes mem 4 (header + 16)) (header + 32)
  each_section-sections_of header =
      ap (λ r. r.0)
        (each_section-visit keep header []
          ∙ visit-keep [] (sections_from (read_bytes mem 4 (header + 16)) (header + 32)))
