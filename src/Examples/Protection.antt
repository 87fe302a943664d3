-- ===== src/Examples/Protection.antt =====
-- `memory_protector` on a system with one page, and the alignment functions, at concrete inputs.
use libhat.Prelude.{
  Bool-cases, inl, inr, sym, ◌∙◌, ==_iff, ℕ, ◌==◌, ◌≡◌, refl, Bool, true, false, ◌&&◌, ◌+◌, ◌-◌,
  ◌%◌, ◌<◌, ◌≤◌, ltb, leb, if◌then◌else◌, List, [], ◌∷◌, none, some, arith,
}
use libhat.Signature.ParseInt.{char_value}
use libhat.Process.Maps.{hex_run, from_chars, parse_line, iter_mapped_regions}
use libhat.Process.Regions.{get_page_prot}
use libhat.Protector.Align.{fast_align_down, fast_align_up}
use libhat.Protector.Flags.{to_system_prot, to_system_prot_win32}
use libhat.Prelude.{Option}
use libhat.Protector.Pages.{in_pages}
use libhat.Protector.Win32 as Win32
use libhat.Protector.Win32.{WinMemory, IsVirtualProtect}
use libhat.Protector.Linux.{
  is_set, MemoryProtector, System, protection_at, construct, restore, destroy,
}
use libhat.Protector.Restored.{in_changed_pages, IsMprotect, destroy-construct}

-- "0-1000 r--", and with a "w" when the page can be written.
abbrev page_line : Bool → List ℕ
page_line writable =
    b'0'
    ∷ b'-'
    ∷ b'1'
    ∷ b'0'
    ∷ b'0'
    ∷ b'0'
    ∷ b' '
    ∷ b'r'
    ∷ (if writable then b'w' else b'-')
    ∷ b'-'
    ∷ []

-- The bytes of the page.
abbrev in_page : ℕ → Bool
in_page a = ltb a 4096

-- A call that `mprotect` accepts: it begins at the page and does not reach behind it.
abbrev on_page : ℕ → ℕ → Bool
on_page begin size = begin == 0 && ltb 0 size && leb size 4096

-- The state is whether the page can be written; there is no other page, and the page can be read.
abbrev one_page : System Bool
one_page = record {
  page_size = 4096;
  maps = λ writable. page_line writable ∷ [];
  mprotect = λ writable begin size prot.
      if on_page begin size && prot == 1
      then (false, true)
      else if on_page begin size && prot == 3
      then (true, true)
      else (writable, false);
}

program : Unit {0}
unfolding char_value hex_run from_chars parse_line iter_mapped_regions get_page_prot fast_align_down
    fast_align_up to_system_prot construct destroy restore
program = tt

page_prot :
    (writable : Bool) (a : ℕ)
    → protection_at one_page writable a
      ≡ (if in_page a then some (if writable then 3 else 1) else none)
unfolding program
page_prot true a = ground arith
page_prot false a = ground arith

outside_page :
    (s : Bool) (v a : ℕ)
    → (if in_page a then some v else none)
      ≡ (if in_page a then some v else protection_at one_page s a)
outside_page s v a = elim (Bool-cases (in_page a)) [
  | inl e ↦ rw e refl
  | inr e ↦ rw e (sym (page_prot s a ∙ rw e refl))
]

-- The page is what a call that is accepted changes, whatever its length.
whole_page : (begin size a : ℕ) → on_page begin size ≡ true → in_pages 4096 begin size a ≡ in_page a
whole_page begin size a h =
    let at_zero : begin ≡ 0 = ground arith in
    let some_byte : 0 < size = ground arith in
    let fits : size ≤ 4096 = ground arith in
    let end : begin + size + 4095 - (begin + size + 4095) % 4096 ≡ 4096 = omega arith in
    let start : begin - begin % 4096 ≡ 0 = omega arith in rw (end, start) (ground arith)

-- A call that sets the page.
page_set :
    (writable s : Bool) (begin size prot a : ℕ)
    → (on_page begin size && prot == (if writable then 3 else 1)) ≡ true
    → protection_at one_page writable a
      ≡ (if in_pages 4096 begin size a then some prot else protection_at one_page s a)
page_set writable s begin size prot a h =
    let new : prot ≡ (if writable then 3 else 1) = (==_iff _ _).0 (and_both _ _ h).1 in
    rw (whole_page begin size a (and_both _ _ h).0, new)
      (page_prot writable a ∙ outside_page s (if writable then 3 else 1) a)
  where
    and_both : (b c : Bool) → (b && c) ≡ true → (b ≡ true) × (c ≡ true)
    and_both true c e = (refl, e)
    and_both false c e = ground arith

one_page-IsMprotect : IsMprotect one_page
one_page-IsMprotect s begin size prot a small ok =
    elim (Bool-cases (on_page begin size && prot == 1)) [
      | inl e ↦ rw e (page_set false s begin size prot a e)
      | inr e ↦ rw e (elim (Bool-cases (on_page begin size && prot == 3)) [
        | inl f ↦ rw f (page_set true s begin size prot a f)
        | inr f ↦ absurd (refused e f)
      ])
    ]
  where
    refused :
        (on_page begin size && prot == 1) ≡ false → (on_page begin size && prot == 3) ≡ false → ⊥
    refused e f = cc (rw (e, f) at ok)

range_pages : (b : ℕ) → in_changed_pages one_page 100 200 b ≡ in_page b
unfolding program
range_pages b = whole_page 0 4096 b refl

destroy-construct_example :
    (protection_at one_page (construct one_page false 100 200 3).1 7 ≡ (
      if in_changed_pages one_page 100 200 7
      then some (to_system_prot 3)
      else protection_at one_page false 7))
    × (protection_at one_page
          (destroy one_page
            (construct one_page false 100 200 3).1
            (construct one_page false 100 200 3).0)
          7
        ≡ protection_at one_page false 7)
unfolding program
destroy-construct_example =
    destroy-construct one_page false 100 200 3 7 one_page-IsMprotect refl refl
      (λ b h. page_prot false b ∙ rw (sym (range_pages b) ∙ h) refl)

-- Two bytes across a page boundary: only the first page is changed.
second_page_missed : in_changed_pages one_page 4095 2 4096 ≡ false
unfolding program
second_page_missed = refl

-- A system of Windows whose state is the protection of each byte.
abbrev win_memory : WinMemory (ℕ → Option ℕ)
win_memory = record {
  page_size = 4096;
  protection_at = λ s a. s a;
  virtual_protect = λ s begin size prot. elim (s begin) [
    | none ↦ (s, none)
    | some old ↦ (λ a. if in_pages 4096 begin size a then some prot else s a, some old)
  ];
}

win_memory-IsVirtualProtect : IsVirtualProtect win_memory
win_memory-IsVirtualProtect = record {
  positive = omega arith;
  first_page = λ s begin size prot old h. first (s begin) s begin size prot old h;
  changed = λ s begin size prot old a h. other (s begin) s begin size prot old a h;
}
  where
    step : Option ℕ → (ℕ → Option ℕ) → ℕ → ℕ → ℕ → (ℕ → Option ℕ) × Option ℕ
    step o s begin size prot = elim o [
      | none ↦ (s, none)
      | some old ↦ (λ a. if in_pages 4096 begin size a then some prot else s a, some old)
    ]

    first :
        (o : Option ℕ) (s : ℕ → Option ℕ) (begin size prot old : ℕ)
        → (step o s begin size prot).1 ≡ some old
        → o ≡ some old
    first none s begin size prot old h = absurd (cc h)
    first (some q) s begin size prot old h = h

    other :
        (o : Option ℕ) (s : ℕ → Option ℕ) (begin size prot old a : ℕ)
        → (step o s begin size prot).1 ≡ some old
        → (step o s begin size prot).0 a ≡ (if in_pages 4096 begin size a then some prot else s a)
    other none s begin size prot old a h = absurd (cc h)
    other (some q) s begin size prot old a h = refl

-- All bytes can be read; two bytes across a page boundary are made writable.
abbrev readable : ℕ → Option ℕ
readable a = some 0x02

across_set : is_set (Win32.construct win_memory readable 4095 2 3).0 ≡ true
unfolding Win32.construct
across_set = refl

across_restored :
    (WinMemory.virtual_protect win_memory
      (Win32.construct win_memory readable 4095 2 3).1
      4095
      2
      (MemoryProtector.old_protection (Win32.construct win_memory readable 4095 2 3).0)).1
    ≡ some 0x04
unfolding Win32.construct to_system_prot_win32
across_restored = refl

construct-destroy_example :
    (WinMemory.protection_at win_memory (Win32.construct win_memory readable 4095 2 3).1 4096
      ≡ some (to_system_prot_win32 3))
    × (WinMemory.protection_at win_memory
          (Win32.destroy win_memory
            (Win32.construct win_memory readable 4095 2 3).1
            (Win32.construct win_memory readable 4095 2 3).0)
          7
        ≡ some 0x02)
construct-destroy_example =
    Win32.construct-destroy win_memory readable 4095 2 3 0x04 7 4096 win_memory-IsVirtualProtect
      across_set across_restored (λ c h. refl) (omega arith) (omega arith)
