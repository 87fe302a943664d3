-- ===== src/Modules/LinuxCode.antt =====
-- Where the bytes of `get_executable_data` come from.
use libhat.Prelude.{
  Run, ℕ, ◌==◌, Bool, true, false, ◌≡◌, refl, ap, ◌∙◌, List, [], ◌∷◌, ◌++◌, none, some, All, ◌⊎◌,
  inl, inr, Bool-cases,
}
use libhat.Modules.Spans.{ByteSpan, no_bytes, is_empty, Section}
use libhat.Modules.SectionMap.{SectionMap, find}
use libhat.Modules.Linux.{
  Phdr, Loader, ModuleImplementation, sections, ◌>>=◌, bytes_or_none, named_bytes, dot_text,
  segment_bytes, get_section_data, first_executable_section, is_executable_header,
  first_executable_segment, or_segment, code_or_next, next_code, get_executable_data,
}
use libhat.Modules.LinuxLaws.{sections-again}

-- Whether a section can be read and executed and not be written.
abbrev pub read_execute : List ℕ × Section → Bool
read_execute (name, section) = Section.prot section == 5

-- The first of a list that passes a test, and what stands before it passes not.
abbrev pub IsFirstOf {ℓ} : {A : Type ℓ} → (A → Bool) → (A → ByteSpan) → List A → ByteSpan → Type ℓ
IsFirstOf {A = A} test bytes_of items bytes =
    (before : List A) × (item : A) × (after : List A) × (items ≡ before ++ item ∷ after)
    × All (λ i. test i ≡ false) before
    × (test item ≡ true)
    × (bytes ≡ bytes_of item)

behind_first {ℓ} :
    {A : Type ℓ} (test : A → Bool) (bytes_of : A → ByteSpan) (i : A) (items : List A)
    (bytes : ByteSpan)
    → test i ≡ false
    → IsFirstOf test bytes_of items bytes
    → IsFirstOf test bytes_of (i ∷ items) bytes
behind_first test bytes_of i items bytes fails (before, item, after, e, all, passes, same) =
    (i ∷ before, item, after, ap (λ xs. i ∷ xs) e, (fails, all), passes, same)

module _ (s : SectionMap Section) (m : ModuleImplementation) where
  -- The text section, if it is not empty; or else the bytes of the first section, in the order of
  -- the names, that can be executed; or else those of the first segment, in the order of the program headers;
  -- or else none.
  abbrev pub IsCode : ByteSpan → Type 0
  IsCode bytes =
      ((is_empty bytes ≡ false) × (bytes ≡ bytes_or_none (find dot_text s)))
      ⊎ ((is_empty (bytes_or_none (find dot_text s)) ≡ true)
          × (IsFirstOf read_execute (λ e. Section.bytes e.1) s bytes
              ⊎ (All (λ e. read_execute e ≡ false) s
                  × (IsFirstOf is_executable_header (segment_bytes m.base_address) m.program_headers
                        bytes
                      ⊎ (All (λ h. is_executable_header h ≡ false) m.program_headers
                          × (bytes ≡ no_bytes))))))

  segment-cases :
      (base : ℕ) (headers : List Phdr)
      → ((bytes : ByteSpan) × (first_executable_segment base headers ≡ bytes)
          × IsFirstOf is_executable_header (segment_bytes base) headers bytes)
        ⊎ (All (λ h. is_executable_header h ≡ false) headers
            × (first_executable_segment base headers ≡ no_bytes))
  unfolding first_executable_segment
  segment-cases base [] = inr (tt, refl)
  segment-cases base (h ∷ headers) = elim (Bool-cases (is_executable_header h)) [
    | inl found ↦ inl (segment_bytes base h, rw found refl, ([], h, headers, refl, tt, found, refl))
    | inr other ↦ elim (segment-cases base headers) [
      | inl (bytes, e, there) ↦
          inl (bytes, rw other e, behind_first _ _ h headers bytes other there)
      | inr (all, nothing) ↦ inr ((other, all), rw other nothing)
    ]
  ]

  section-cases :
      (items : SectionMap Section)
      → ((bytes : ByteSpan) × (first_executable_section items ≡ some bytes)
          × IsFirstOf read_execute (λ e. Section.bytes e.1) items bytes)
        ⊎ (All (λ e. read_execute e ≡ false) items × (first_executable_section items ≡ none))
  unfolding first_executable_section
  section-cases [] = inr (tt, refl)
  section-cases ((name, section) ∷ items) = elim (Bool-cases (Section.prot section == 5)) [
    | inl found ↦
        inl (
          Section.bytes section,
          rw found refl,
          ([], (name, section), items, refl, tt, found, refl),
        )
    | inr other ↦ rw other (elim (section-cases items) [
      | inl (bytes, e, there) ↦ inl (
        bytes,
        e,
        behind_first read_execute (λ x. Section.bytes x.1) (name, section) items bytes other there,
      )
      | inr (all, nothing) ↦ inr ((refl, all), nothing)
    ])
  ]

  or_segment-IsCode :
      is_empty (bytes_or_none (find dot_text s)) ≡ true
      → IsCode (or_segment m (first_executable_section s))
  or_segment-IsCode no_text = elim (section-cases s) [
    | inl (bytes, e, there) ↦ rw e (inr (no_text, inl there))
    | inr (all, nothing) ↦ rw nothing (
        inr (
          no_text,
          inr (
            all,
            (elim (segment-cases m.base_address m.program_headers) [
              | inl (bytes, e, there) ↦ rw e (inl there)
              | inr (none_there, nothing') ↦ rw nothing' (inr (none_there, refl))
            ]),
          ),
        ))
  ]

-- When the sections of a Linux module can be had, `get_executable_data` returns, and gives the
-- bytes of ".text" if they are not empty; or else those of the first section, in the order of the
-- names and not of the file, that can be read and executed and not be written; or else, if there
-- is none, those of the first such segment in the order of the program headers; or else an empty
-- span.
pub get_executable_data-IsCode :
    (sys : Loader) (m : ModuleImplementation) (s : SectionMap Section) (m' : ModuleImplementation)
    → sections sys m ≡ Run.done (s, m')
    → (bytes : ByteSpan) × (get_executable_data sys m ≡ Run.done (bytes, m')) × IsCode s m' bytes
unfolding get_executable_data get_section_data
get_executable_data-IsCode sys m s m' h =
    let text = bytes_or_none (find dot_text s) in
    let begin : (sections sys m >>= named_bytes dot_text >>= code_or_next sys)
        ≡ code_or_next sys (text, m') =
      ap (λ r. r >>= named_bytes dot_text >>= code_or_next sys) h in
    elim (Bool-cases (is_empty text)) [
      | inr full ↦ (text, begin ∙ rw full refl, inl (full, refl))
      | inl no_text ↦ (
        or_segment m' (first_executable_section s),
        begin ∙ rw no_text (ap (λ r. r >>= next_code) (sections-again sys m sys s m' h)),
        or_segment-IsCode s m' no_text,
      )
    ]
