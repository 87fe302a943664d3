-- ===== src/Modules/ElfLoad.antt =====
-- What `init_sections` loads, and when it does not return.
use libhat.Prelude.{
  Run, ℕ, zero, suc, ◌+◌, ◌-◌, ◌*◌, ◌^◌, ◌<◌, ◌≤◌, ◌==◌, ltb, leb, Bool, true, false, ◌&&◌, ◌||◌,
  ◌≡◌, refl, sym, subst, ap, ◌∙◌, List, [], ◌∷◌, Option, none, some, length, take, drop,
  length-drop, length-take, arith, Bool-cases, inl, inr, ◌⊎◌, leb→le, ==_iff,
}
use native.Mathlib.Nat.{suc-mul}
use mathlib.Core.Option.{some_inj}
use libhat.Modules.Spans.{Section}
use libhat.Modules.SectionMap.{SectionMap, IsSorted, emplace_all, emplace_all-IsSorted}
use libhat.Modules.Elf.{
  Ehdr, Shdr, ehdr_size, shdr_size, to_ehdr, to_shdr, read_at, is_elf, section_entry, add_entry,
  section_loop, loop_result, with_strings, with_sections, with_header, init_sections,
}

-- The entries of the `n` headers from `it` on, in the order of the file.
unfoldable pub entries : List ℕ → List ℕ → ℕ → ℕ → ℕ → ℕ → List (List ℕ × Section)
entries sections strings entsize base zero it = []
entries sections strings entsize base (suc n) it =
    let rest = entries sections strings entsize base n (it + entsize) in
    elim (section_entry strings base (to_shdr sections it)) [ none ↦ rest | some e ↦ e ∷ rest ]

module _ (sections strings : List ℕ) (entsize base : ℕ) (wide : 0 < entsize) where
  section_loop-emplace_all :
      (n fuel it : ℕ) (m : SectionMap Section)
      → length sections ≡ it + n * entsize
      → n < fuel
      → section_loop sections strings entsize base fuel it m
        ≡ some (emplace_all (entries sections strings entsize base n it) m)
  unfolding section_loop entries emplace_all
  section_loop-emplace_all n zero it m end lt = absurd (omega arith)
  section_loop-emplace_all zero (suc fuel) it m end lt =
      let there : (it == length sections) ≡ true = (==_iff it (length sections)).1 (omega arith) in
      rw there refl
  section_loop-emplace_all (suc n) (suc fuel) it m end lt =
      let more : (it == length sections) ≡ false = before_end in
      rw more (
        section_loop-emplace_all n fuel (it + entsize) _ grow (omega arith)
        ∙ added (section_entry strings base (to_shdr sections it)))
    where
      grow : length sections ≡ it + entsize + n * entsize
      grow = omega (arith, end, suc-mul n entsize)

      before_end : (it == length sections) ≡ false
      before_end = elim (Bool-cases (it == length sections)) [
        | inl at ↦ absurd (omega (arith, (==_iff it (length sections)).0 at, grow))
        | inr e ↦ e
      ]

      rest : List (List ℕ × Section)
      rest = entries sections strings entsize base n (it + entsize)

      added :
          (o : Option (List ℕ × Section))
          → some (emplace_all rest (add_entry o m))
            ≡ some (emplace_all (elim o [ none ↦ rest | some e ↦ e ∷ rest ]) m)
      added none = refl
      added (some (name, section)) = refl

pub read_at-length :
    (file : List ℕ) (offset size : ℕ) (bytes : List ℕ)
    → read_at file offset size ≡ some bytes
    → length bytes ≡ size
unfolding read_at
read_at-length file offset size bytes h =
    elim (Bool-cases (ltb offset (2 ^ 63) && (size == 0 || leb (offset + size) (length file)))) [
      | inr fails ↦ absurd (cc (rw fails at h))
      | inl held ↦
          let same : take size (drop offset file) ≡ bytes = some_inj.0 (rw held at h) in
          let enough : size ≤ length (drop offset file) =
            inside (ltb offset (2 ^ 63)) size (length file) (length (drop offset file))
              (length-drop offset file) held in
          ap length (sym same) ∙ length-take size (drop offset file) enough
    ]
  where
    inside :
        (near : Bool) (n total left : ℕ)
        → left ≡ total - offset
        → (near && (n == 0 || leb (offset + n) total)) ≡ true
        → n ≤ left
    inside near n total left e held = ground arith

module _ (allocates : ℕ → Bool) (file : List ℕ) (base : ℕ) where
  -- A map with its names in order, or an allocation that failed.
  abbrev pub IsLoaded : Run (SectionMap Section) → Type 0
  IsLoaded (Run.done m) = IsSorted m
  IsLoaded Run.thrown = (n : ℕ) × (allocates n ≡ false)
  IsLoaded Run.undefined = ⊥

  -- The map of the entries of a table.
  abbrev pub loaded : Ehdr → List ℕ → List ℕ → SectionMap Section
  loaded ehdr sections strings =
      emplace_all (entries sections strings ehdr.e_shentsize base ehdr.e_shnum 0) []

  pub with_strings-loaded :
      (ehdr : Ehdr) (sections strings : List ℕ)
      → length sections ≡ ehdr.e_shnum * ehdr.e_shentsize
      → 0 < ehdr.e_shentsize
      → with_strings allocates file base ehdr sections (some strings)
        ≡ Run.done (loaded ehdr sections strings)
  with_strings-loaded ehdr sections strings size wide = ap loop_result (
      section_loop-emplace_all sections strings ehdr.e_shentsize base wide ehdr.e_shnum
        (suc ehdr.e_shnum) 0 [] (omega (arith, size)) (omega arith))

  with_strings-IsLoaded :
      (ehdr : Ehdr) (sections : List ℕ) (o : Option (List ℕ))
      → length sections ≡ ehdr.e_shnum * ehdr.e_shentsize
      → 0 < ehdr.e_shentsize
      → IsLoaded (with_strings allocates file base ehdr sections o)
  with_strings-IsLoaded ehdr sections none size wide = tt
  with_strings-IsLoaded ehdr sections (some strings) size wide =
      rw (with_strings-loaded ehdr sections strings size wide)
        (emplace_all-IsSorted (entries sections strings ehdr.e_shentsize base ehdr.e_shnum 0) [] tt)

  with_sections-IsLoaded :
      (ehdr : Ehdr) (o : Option (List ℕ))
      → read_at file ehdr.e_shoff (ehdr.e_shnum * ehdr.e_shentsize) ≡ o
      → 0 < ehdr.e_shentsize
      → IsLoaded (with_sections allocates file base ehdr o)
  with_sections-IsLoaded ehdr none e wide = tt
  with_sections-IsLoaded ehdr (some sections) e wide =
      let table = to_shdr sections (ehdr.e_shstrndx * ehdr.e_shentsize) in
      elim (Bool-cases (leb ehdr.e_shnum ehdr.e_shstrndx)) [
        | inl outside ↦ rw outside tt
        | inr known ↦ rw known (elim (Bool-cases (allocates (Shdr.sh_size table))) [
          | inr full ↦ rw full (Shdr.sh_size table, full)
          | inl there ↦ rw there (
              with_strings-IsLoaded ehdr sections
                (read_at file (Shdr.sh_offset table) (Shdr.sh_size table))
                (read_at-length file ehdr.e_shoff _ sections e) wide)
        ])
      ]

  -- The product of `e_shnum` and `e_shentsize` does not fit an `int`.
  abbrev pub IsOverflow : List ℕ → Type 0
  IsOverflow header =
      (is_elf (to_ehdr header) ≡ true)
      × ((Ehdr.e_shnum (to_ehdr header) == 0) ≡ false)
      × (shdr_size ≤ Ehdr.e_shentsize (to_ehdr header))
      × (2 ^ 31 ≤ Ehdr.e_shnum (to_ehdr header) * Ehdr.e_shentsize (to_ehdr header))

  with_header-cases :
      (header : List ℕ)
      → IsLoaded (with_header allocates file base (some header))
        ⊎ (IsOverflow header × (with_header allocates file base (some header) ≡ Run.undefined))
  with_header-cases header =
      let ehdr = to_ehdr header in
      let table_size = ehdr.e_shnum * ehdr.e_shentsize in
      elim (Bool-cases (is_elf ehdr)) [
        | inr other ↦ rw other (inl tt)
        | inl elf ↦
            rw elf (elim (Bool-cases (ehdr.e_shnum == 0 || ltb ehdr.e_shentsize shdr_size)) [
              | inl nothing ↦ rw nothing (inl tt)
              | inr something ↦ rw something (
                  let wide : shdr_size ≤ ehdr.e_shentsize =
                    wide_enough ehdr.e_shnum ehdr.e_shentsize something in
                  elim (Bool-cases (leb (2 ^ 31) table_size)) [
                    | inl large ↦ rw large (
                        inr (
                          (
                            refl,
                            not_zero ehdr.e_shnum ehdr.e_shentsize something,
                            wide,
                            leb→le _ _ large,
                          ),
                          refl,
                        ))
                    | inr small ↦ rw small (elim (Bool-cases (allocates table_size)) [
                      | inr full ↦ rw full (inl (table_size, full))
                      | inl there ↦ rw there (
                          inl (
                            with_sections-IsLoaded ehdr (read_at file ehdr.e_shoff table_size) refl
                              (omega (arith, wide))))
                    ])
                  ])
            ])
      ]
    where
      wide_enough : (n size : ℕ) → (n == 0 || ltb size shdr_size) ≡ false → shdr_size ≤ size
      wide_enough n size h = ground arith

      not_zero : (n size : ℕ) → (n == 0 || ltb size shdr_size) ≡ false → (n == 0) ≡ false
      not_zero n size h = ground arith

  -- On every file, `init_sections` returns a map with its names in order or throws because an
  -- allocation fails, so its loop over the table meets the end; the only exception is an ELF
  -- header whose product of `e_shnum` and `e_shentsize` does not fit an `int`, where the code is
  -- undefined.
  pub init_sections-IsLoaded :
      IsLoaded (init_sections allocates (some file) base)
      ⊎ ((header : List ℕ) × (read_at file 0 ehdr_size ≡ some header)
          × IsOverflow header
          × (init_sections allocates (some file) base ≡ Run.undefined))
  unfolding init_sections
  init_sections-IsLoaded = go (read_at file 0 ehdr_size) refl
    where
      go :
          (o : Option (List ℕ))
          → read_at file 0 ehdr_size ≡ o
          → IsLoaded (with_header allocates file base (read_at file 0 ehdr_size))
            ⊎ ((header : List ℕ) × (read_at file 0 ehdr_size ≡ some header)
                × IsOverflow header
                × (with_header allocates file base (read_at file 0 ehdr_size) ≡ Run.undefined))
      go none e = rw e (inl tt)
      go (some header) e = elim (with_header-cases header) [
        | inl ok ↦ inl (subst (λ o. IsLoaded (with_header allocates file base o)) (sym e) ok)
        | inr (over, gone) ↦ inr (header, e, over, ap (with_header allocates file base) e ∙ gone)
      ]
