-- ===== src/Modules/LinuxLaws.antt =====
-- What the members of `hat::process::module` promise on Linux: sections are read once, and by name and by
-- iteration they are the same.
use libhat.Prelude.{
  Run, ℕ, Bool, ◌≡◌, refl, sym, subst, ap, ◌∙◌, List, [], ◌∷◌, Option, none, some, All, All-map,
  ◌⊎◌, inl, inr, Bool-cases,
}
use libhat.Modules.Names.{name_eq, name_less, name_eq_sound, name_eq_self, name_less_irrefl}
use libhat.Modules.Spans.{ByteSpan, Section}
use libhat.Modules.SectionMap.{SectionMap, find, IsBelow, IsSorted}
use libhat.Modules.Visit.{keep, while_true-keep}
use libhat.Modules.Elf.{init_sections}
use libhat.Modules.ElfLoad.{IsLoaded, init_sections-IsLoaded}
use libhat.Modules.Linux.{
  Loader, ModuleImplementation, once, cached, sections, ◌>>=◌, bytes_or_none, named_bytes,
  get_section_data, visited, for_each_section,
}

-- A run that returned is that of a value.
done_inj {ℓ} : {A : Type ℓ} {a b : A} → Run.done a ≡ Run.done b → a ≡ b
done_inj h = cc h

module _ (sys : Loader) (m : ModuleImplementation) where
  -- After a call that returned, the module has its sections, whatever the system does later.
  cached-done :
      (o : Option (SectionMap Section)) (s : SectionMap Section) (m' : ModuleImplementation)
      → m.name_to_section ≡ o
      → cached sys m o ≡ Run.done (s, m')
      → ModuleImplementation.name_to_section m' ≡ some s
  cached-done (some s0) s m' e h =
      let both = done_inj h in rw (sym (ap (λ p. p.1) both)) (e ∙ ap (λ p. some p.0) both)
  cached-done none s m' e h = go _ h
    where
      go :
          (r : Run (SectionMap Section))
          → once m r ≡ Run.done (s, m')
          → ModuleImplementation.name_to_section m' ≡ some s
      go (Run.done s0) k =
          let both = done_inj k in
          ap (λ p. ModuleImplementation.name_to_section (p.1)) (sym both) ∙ ap (λ p. some p.0) both
      go Run.thrown k = absurd (cc k)
      go Run.undefined k = absurd (cc k)

  pub sections-again :
      (sys' : Loader) (s : SectionMap Section) (m' : ModuleImplementation)
      → sections sys m ≡ Run.done (s, m')
      → sections sys' m' ≡ Run.done (s, m')
  unfolding sections
  sections-again sys' s m' h = ap (cached sys' m') (cached-done m.name_to_section s m' refl h)

  get_section_data-again :
      (sys' : Loader) (name : List ℕ) (bytes : ByteSpan) (m' : ModuleImplementation)
      → get_section_data sys m name ≡ Run.done (bytes, m')
      → get_section_data sys' m' name ≡ Run.done (bytes, m')
  unfolding get_section_data
  get_section_data-again sys' name bytes m' h = go (sections sys m) refl h
    where
      go :
          (r : Run (SectionMap Section × ModuleImplementation))
          → sections sys m ≡ r
          → (r >>= named_bytes name) ≡ Run.done (bytes, m')
          → (sections sys' m' >>= named_bytes name) ≡ Run.done (bytes, m')
      go (Run.done (s, m2)) e k =
          let both = done_inj k in
          let there : sections sys' m' ≡ Run.done (s, m') =
            subst (λ x. sections sys' x ≡ Run.done (s, x)) (ap (λ p. p.1) both)
              (sections-again sys' s m2 e) in
          rw there (ap (λ x. Run.done (x, m')) (ap (λ p. p.0) both))
      go Run.thrown e k = absurd (cc k)
      go Run.undefined e k = absurd (cc k)

-- The sections of a module are in order, once they are there.
abbrev pub HasSortedSections : ModuleImplementation → Type 0
HasSortedSections m = (s : SectionMap Section) → m.name_to_section ≡ some s → IsSorted s

module _ (sys : Loader) (m : ModuleImplementation) (inv : HasSortedSections m) where
  cached-IsSorted :
      (o : Option (SectionMap Section)) (s : SectionMap Section) (m' : ModuleImplementation)
      → m.name_to_section ≡ o
      → cached sys m o ≡ Run.done (s, m')
      → IsSorted s
  cached-IsSorted (some s0) s m' e h = subst IsSorted (ap (λ p. p.0) (done_inj h)) (inv s0 e)
  cached-IsSorted none s m' e h = from_file (Loader.open_file sys m.path) h
    where
      from_run :
          (allocates : ℕ → Bool) (file : List ℕ) (r : Run (SectionMap Section))
          → IsLoaded allocates file m.base_address r ⊎ (r ≡ Run.undefined)
          → once m r ≡ Run.done (s, m')
          → IsSorted s
      from_run allocates file (Run.done s0) ok k =
          subst IsSorted (ap (λ p. p.0) (done_inj k))
            (elim ok [ inl sorted ↦ sorted | inr gone ↦ absurd (cc gone) ])
      from_run allocates file Run.thrown ok k = absurd (cc k)
      from_run allocates file Run.undefined ok k = absurd (cc k)

      from_file :
          (file : Option (List ℕ))
          → once m (init_sections (Loader.allocates sys) file m.base_address) ≡ Run.done (s, m')
          → IsSorted s
      from_file none k = unfold init_sections in subst IsSorted (ap (λ p. p.0) (done_inj k)) tt
      from_file (some file) k =
          from_run (Loader.allocates sys) file
            (init_sections (Loader.allocates sys) (some file) m.base_address)
            (elim (init_sections-IsLoaded (Loader.allocates sys) file m.base_address) [
              | inl ok ↦ inl ok
              | inr (header, e', over, gone) ↦ inr gone
            ])
            k

  sections-IsSorted :
      (s : SectionMap Section) (m' : ModuleImplementation)
      → sections sys m ≡ Run.done (s, m')
      → IsSorted s
  unfolding sections
  sections-IsSorted s m' h = cached-IsSorted m.name_to_section s m' refl h

-- In a map in order, each entry is found under its name.
find_self {ℓ} :
    {V : Type ℓ} (s : SectionMap V) → IsSorted s → All (λ (e : List ℕ × V). find e.0 s ≡ some e.1) s
unfolding find
find_self [] sorted = tt
find_self ((k, v) ∷ s) sorted = (rw (name_eq_self k) refl, behind s sorted.0 (find_self s sorted.1))
  where
    behind :
        (rest : SectionMap _)
        → IsBelow k rest
        → All (λ (e : List ℕ × _). find e.0 s ≡ some e.1) rest
        → All (λ (e : List ℕ × _). find e.0 ((k, v) ∷ s) ≡ some e.1) rest
    behind [] below all = tt
    behind ((j, w) ∷ rest) below all = (
      elim (Bool-cases (name_eq j k)) [
        | inl same ↦
            let e : j ≡ k = name_eq_sound j k same in
            absurd (cc (ap (λ x. name_less k x) e, name_less_irrefl k, below.0))
        | inr differs ↦ rw differs all.0
      ],
      behind rest below.1 all.1,
    )

module _ (sys sys' : Loader) (m : ModuleImplementation) (inv : HasSortedSections m) where
  -- If the sections that a Linux module may have already are in order, and `for_each_section` with
  -- a callback that goes on returns, then the names that the callback saw are in order without
  -- repetition, and `get_section_data` of each gives the bytes that it saw, whatever the files of
  -- the system are by then.
  pub for_each_section-get_section_data :
      (items : List (List ℕ × Section)) (m' : ModuleImplementation)
      → for_each_section sys m keep [] ≡ Run.done (items, m')
      → IsSorted items
        × All
            (λ (e : List ℕ × Section).
              get_section_data sys' m' e.0 ≡ Run.done (Section.bytes e.1, m'))
            items
  unfolding for_each_section get_section_data
  for_each_section-get_section_data items m' h = go (sections sys m) refl h
    where
      go :
          (r : Run (SectionMap Section × ModuleImplementation))
          → sections sys m ≡ r
          → (r >>= visited keep []) ≡ Run.done (items, m')
          → IsSorted items
            × All
                (λ (e : List ℕ × Section).
                  get_section_data sys' m' e.0 ≡ Run.done (Section.bytes e.1, m'))
                items
      go (Run.done (s, m2)) e k =
          let both = done_inj k in
          let same : s ≡ items = sym (while_true-keep [] s) ∙ ap (λ p. p.0) both in
          let there : sections sys m ≡ Run.done (items, m') =
            e
            ∙ ap (λ x. Run.done (x, m2)) same
            ∙ ap (λ x. Run.done (items, x)) (ap (λ p. p.1) both) in
          let sorted = sections-IsSorted sys m inv items m' there in
          (
            sorted,
            All-map _ _ items
                (λ e found.
                  ap (λ r. r >>= named_bytes e.0) (sections-again sys m sys' items m' there)
                  ∙ ap (λ o. Run.done (bytes_or_none o, m')) found)
                (find_self items sorted),
          )
      go Run.thrown e k = absurd (cc k)
      go Run.undefined e k = absurd (cc k)
