-- ===== src/Modules/MachONames.antt =====
-- src/os/mac/Process.cpp: `get_section_data` takes the first section with the name, bare or qualified.
use libhat.Prelude.{
  ℕ, suc, ◌+◌, ◌-◌, ◌≤◌, ◌==◌, ==_iff, leb, Bool, true, false, ◌&&◌, ◌||◌, ◌≡◌, refl, sym, ap, ◌∙◌,
  ◌↔◌, if◌then◌else◌, List, [], ◌∷◌, ◌++◌, length, length-append, get_or, drop, arith, Bool_ext,
}
use libhat.Scanner.Context.{Memory}
use libhat.Modules.Names.{
  name_eq, name_eq_sound, name_eq_self, name_eq_comm, starts_with, ends_with, starts_with-append,
  starts_with_self,
}
use libhat.Modules.Spans.{ByteSpan, no_bytes}
use libhat.Modules.MachOLaws.{visit, each_section-visit, sections_of, each_section-sections_of}
use libhat.Modules.MachO.{
  segname, sectname, is_qualified, section_bytes, match_section, get_section_data,
}

get_or-append :
    (xs : List ℕ) (y : ℕ) (ys : List ℕ) (d : ℕ) → get_or (xs ++ y ∷ ys) (length xs) d ≡ y
get_or-append [] y ys d = refl
get_or-append (x ∷ xs) y ys d = get_or-append xs y ys d

drop_behind : (xs : List ℕ) (y : ℕ) (ys : List ℕ) → drop (suc (length xs)) (xs ++ y ∷ ys) ≡ ys
drop_behind [] y ys = refl
drop_behind (x ∷ xs) y ys = drop_behind xs y ys

-- What the test says of a name that is a segment, one character and a text as long as the section.
is_qualified-parts :
    (segment section rest : List ℕ) (c : ℕ)
    → length rest ≡ length section
    → is_qualified (segment ++ c ∷ rest) segment section ≡ (c == b',' && name_eq rest section)
unfolding is_qualified ends_with
is_qualified-parts segment section rest c same =
    let name = segment ++ c ∷ rest in
    let total : length name ≡ length segment + suc (length rest) =
      length-append segment (c ∷ rest) in
    let long : (length name == length segment + length section + 1) ≡ true =
      (==_iff _ _).1 (omega (arith, total, same)) in
    let fits : leb (length section) (length name) ≡ true =
      le→leb _ _ (omega (arith, total, same)) in
    let at : length name - length section ≡ suc (length segment) = omega (arith, total, same) in
    rw
      (
        long,
        starts_with_self segment (c ∷ rest),
        get_or-append segment c rest 0,
        fits,
        at,
        drop_behind segment c rest,
      )
      refl
  where
    le→leb : (a b : ℕ) → a ≤ b → leb a b ≡ true
    le→leb a b h = ground arith

and_true : (a b : Bool) → (a && b) ≡ true → (a ≡ true) × (b ≡ true)
and_true true b h = (refl, h)
and_true false b h = absurd (cc h)

is_qualified-tests :
    (name segment section : List ℕ)
    → is_qualified name segment section ≡ true
    → (length name ≡ length segment + length section + 1) × (starts_with name segment ≡ true)
unfolding is_qualified
is_qualified-tests name segment section h =
    let tests = and_true _ _ (and_true _ _ (and_true _ _ h).0).0 in
    ((==_iff _ _).0 tests.0, tests.1)

is_qualified-append :
    (name segment section : List ℕ)
    → (is_qualified name segment section ≡ true) ↔ (name ≡ segment ++ b',' ∷ section)
is_qualified-append name segment section = (forward, backward)
  where
    split :
        (rest : List ℕ)
        → name ≡ segment ++ rest
        → length name ≡ length segment + length section + 1
        → is_qualified name segment section ≡ true
        → name ≡ segment ++ b',' ∷ section
    split [] e size h = absurd (omega (arith, size, ap length e, length-append segment []))
    split (c ∷ rest) e size h =
        let same : length rest ≡ length section =
          omega (arith, size, ap length e, length-append segment (c ∷ rest)) in
        let parts = and_true (c == b',') (name_eq rest section) (
          sym (is_qualified-parts segment section rest c same)
          ∙ ap (λ n. is_qualified n segment section) (sym e)
          ∙ h) in
        let comma : c ≡ b',' = (==_iff c b',').0 parts.0 in
        let text = name_eq_sound rest section parts.1 in e ∙ (λ i. segment ++ comma i ∷ text i)

    forward : is_qualified name segment section ≡ true → name ≡ segment ++ b',' ∷ section
    forward h =
        let (size, starts) = is_qualified-tests name segment section h in
        let (rest, e) = starts_with-append name segment starts in split rest e size h

    backward : name ≡ segment ++ b',' ∷ section → is_qualified name segment section ≡ true
    backward e =
        ap (λ n. is_qualified n segment section) e
        ∙ is_qualified-parts segment section section b',' refl
        ∙ rw (name_eq_self section) refl

module _ (mem : Memory) (header slide : ℕ) (name : List ℕ) where
  -- The name is that of the section, alone or behind its segment and a comma.
  abbrev pub has_name : ℕ × ℕ → Bool
  has_name (seg, sec) =
      name_eq name (segname mem seg ++ b',' ∷ sectname mem sec) || name_eq name (sectname mem sec)

  -- The bytes of the first section with the name.
  unfoldable pub first_named : List (ℕ × ℕ) → ByteSpan
  first_named [] = no_bytes
  first_named ((seg, sec) ∷ items) =
      if has_name (seg, sec) then section_bytes mem header slide sec else first_named items

  qualified-name_eq :
      (segment section : List ℕ)
      → is_qualified name segment section ≡ name_eq name (segment ++ b',' ∷ section)
  qualified-name_eq segment section =
      let law = is_qualified-append name segment section in
      Bool_ext _ _ (λ h. ap (λ n. name_eq name n) (sym (law.0 h)) ∙ name_eq_self name)
        (λ h. law.1 (name_eq_sound name (segment ++ b',' ∷ section) h))

  visit-first_named :
      (items : List (ℕ × ℕ))
      → (visit (match_section mem header slide name) no_bytes items).0 ≡ first_named items
  unfolding visit match_section first_named
  visit-first_named [] = refl
  visit-first_named ((seg, sec) ∷ items) =
      rw
        (
          qualified-name_eq (segname mem seg) (sectname mem sec),
          name_eq_comm (sectname mem sec) name,
        )
        (branch (has_name (seg, sec)) (visit-first_named items))
    where
      branch :
          (b : Bool)
          → (visit (match_section mem header slide name) no_bytes items).0 ≡ first_named items
          → (let r : ByteSpan × Bool =
                if b then (section_bytes mem header slide sec, false) else (no_bytes, true) in
              if r.1 then visit (match_section mem header slide name) r.0 items else (r.0, false)).0
            ≡ (if b then section_bytes mem header slide sec else first_named items)
      branch true e = refl
      branch false e = e

  -- On macOS `get_section_data` gives the bytes of the first section, in the order of the load
  -- commands, whose name, alone or behind the name of its segment and a comma, is the one asked
  -- for, and an empty span when there is none.
  pub get_section_data-first_named :
      get_section_data mem header slide name ≡ first_named (sections_of mem header)
  unfolding get_section_data
  get_section_data-first_named =
      ap (λ r. r.0) (each_section-visit mem (match_section mem header slide name) header no_bytes)
      ∙ visit-first_named _
      ∙ ap first_named (sym (each_section-sections_of mem header))
