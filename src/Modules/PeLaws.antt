-- ===== src/Modules/PeLaws.antt =====
-- On Windows, what is found by name and by protection is what the iteration gives.
use libhat.Prelude.{
  ℕ, ◌==◌, Bool, true, false, not, ◌&&◌, ◌≡◌, refl, sym, List, [], ◌∷◌, Option, none, some, map,
  if◌then◌else◌, bit_or, Bool-cases, inl, inr,
}
use libhat.Scanner.Context.{Memory}
use libhat.Modules.Names.{name_eq, name_eq_comm}
use libhat.Modules.Spans.{ByteSpan, no_bytes, is_empty, Section, has_bit}
use libhat.Modules.SectionMap.{find}
use libhat.Modules.Visit.{keep, while_true-keep-map}
use libhat.Modules.Linux.{bytes_or_none, dot_text, first_executable_section}
use libhat.Modules.Pe.{
  SectionHeader, section_headers, header_bytes, named_header, is_code_header, code_header,
  to_section, get_section_data, get_executable_data, for_each_section, scn_mem_read, scn_mem_write,
  scn_mem_execute,
}

abbrev pub span_or_none : Option ByteSpan → ByteSpan
span_or_none none = no_bytes
span_or_none (some bytes) = bytes

module _ (base : ℕ) where
  abbrev item : SectionHeader → List ℕ × Section
  item header = (header.name, to_section base header)

  named_header-find :
      (name : List ℕ) (headers : List SectionHeader)
      → named_header base name headers ≡ bytes_or_none (find name (map item headers))
  unfolding named_header find to_section
  named_header-find name [] = refl
  named_header-find name (header ∷ headers) = elim (Bool-cases (name_eq name header.name)) [
    | inl same ↦ rw (same, name_eq_comm header.name name, same) refl
    | inr other ↦ rw (name_eq_comm header.name name, other) (named_header-find name headers)
  ]

  -- The tests of the flags are that of the protection.
  prot-is_code :
      (header : SectionHeader)
      → is_code_header header ≡ (Section.prot (to_section base header) == 5)
  unfolding to_section
  prot-is_code header =
      bits (has_bit header.characteristics scn_mem_read)
        (has_bit header.characteristics scn_mem_write)
        (has_bit header.characteristics scn_mem_execute)
    where
      bits :
          (r w x : Bool)
          → (r && not w && x) ≡ (
              (let p0 : ℕ = if r then bit_or 0 1 else 0 in
                let p1 : ℕ = if w then bit_or p0 2 else p0 in if x then bit_or p1 4 else p1)
              == 5)
      bits true true true = refl
      bits true true false = refl
      bits true false true = refl
      bits true false false = refl
      bits false true true = refl
      bits false true false = refl
      bits false false true = refl
      bits false false false = refl

  code_header-first :
      (headers : List SectionHeader)
      → code_header base headers ≡ span_or_none (first_executable_section (map item headers))
  unfolding code_header first_executable_section
  code_header-first [] = refl
  code_header-first (header ∷ headers) = rw (prot-is_code header) (
      branch (Section.prot (to_section base header) == 5) _
        (first_executable_section (map item headers)) (code_header-first headers))
    where
      branch :
          (b : Bool) (x : ByteSpan) (o : Option ByteSpan)
          → x ≡ span_or_none o
          → (if b then header_bytes base header else x)
            ≡ span_or_none (if b then some (Section.bytes (to_section base header)) else o)
      branch true x o e = unfold to_section in refl
      branch false x o e = e

-- The items that `for_each_section` visits.
abbrev pub items_of : Memory → ℕ → List (List ℕ × Section)
items_of mem base = for_each_section mem base keep []

module _ (mem : Memory) (base : ℕ) where
  items_of-map : items_of mem base ≡ map (item base) (section_headers mem base)
  unfolding for_each_section
  items_of-map = while_true-keep-map (item base) [] (section_headers mem base)

  get_section_data-items_of :
      (name : List ℕ)
      → get_section_data mem base name ≡ bytes_or_none (find name (items_of mem base))
  unfolding get_section_data
  get_section_data-items_of name =
      rw items_of-map (named_header-find base name (section_headers mem base))

  -- The text section, or the first section that can be read and executed and not be written.
  abbrev pub code_among : List (List ℕ × Section) → ByteSpan
  code_among items =
      let text = bytes_or_none (find dot_text items) in
      if not (is_empty text) then text else span_or_none (first_executable_section items)

  -- On Windows `get_executable_data` gives the bytes that `for_each_section` shows for the first
  -- section named ".text", if they are not empty, or else those of the first section that it shows
  -- with the protection to read and execute and not to write, or else an empty span.
  pub get_executable_data-items_of : get_executable_data mem base ≡ code_among (items_of mem base)
  unfolding get_executable_data
  get_executable_data-items_of =
      rw
        (
          get_section_data-items_of dot_text,
          code_header-first base (section_headers mem base),
          sym items_of-map,
        )
        refl
