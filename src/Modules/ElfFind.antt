-- ===== src/Modules/ElfFind.antt =====
-- The sections that a module has are those of its file.
use libhat.Prelude.{
  Run, ℕ, ◌*◌, ◌^◌, ◌<◌, ◌≤◌, ◌==◌, ltb, leb, Bool, true, false, ◌||◌, ◌≡◌, refl, ap, ◌∙◌, List, [],
  some, arith,
}
use libhat.Modules.Spans.{Section}
use libhat.Modules.SectionMap.{SectionMap, find, IsSorted, find-emplace_all, emplace_all-IsSorted}
use libhat.Modules.Elf.{
  Ehdr, Shdr, ehdr_size, shdr_size, to_ehdr, to_shdr, read_at, is_elf, with_strings, with_sections,
  with_header, init_sections,
}
use libhat.Modules.ElfLoad.{entries, loaded, read_at-length, with_strings-loaded}

module _ (allocates : ℕ → Bool) (file : List ℕ) (base : ℕ) where
  -- A file with a section table: the parts that are read.
  pub record IsElfFile (header sections strings : List ℕ) : Type 0 where
    pub has_header : read_at file 0 ehdr_size ≡ some header
    pub magic : is_elf (to_ehdr header) ≡ true
    pub some_headers : 0 < Ehdr.e_shnum (to_ehdr header)
    pub wide : shdr_size ≤ Ehdr.e_shentsize (to_ehdr header)
    pub narrow : Ehdr.e_shnum (to_ehdr header) * Ehdr.e_shentsize (to_ehdr header) < 2 ^ 31
    pub has_sections :
        read_at file
          (Ehdr.e_shoff (to_ehdr header))
          (Ehdr.e_shnum (to_ehdr header) * Ehdr.e_shentsize (to_ehdr header))
        ≡ some sections
    pub has_names : Ehdr.e_shstrndx (to_ehdr header) < Ehdr.e_shnum (to_ehdr header)
    pub has_strings :
        read_at file
          (Shdr.sh_offset (
            to_shdr sections
              (Ehdr.e_shstrndx (to_ehdr header) * Ehdr.e_shentsize (to_ehdr header))))
          (Shdr.sh_size (
            to_shdr sections
              (Ehdr.e_shstrndx (to_ehdr header) * Ehdr.e_shentsize (to_ehdr header))))
        ≡ some strings
    pub has_memory :
        allocates (Ehdr.e_shnum (to_ehdr header) * Ehdr.e_shentsize (to_ehdr header)) ≡ true
    pub has_string_memory :
        allocates (
          Shdr.sh_size (
            to_shdr sections
              (Ehdr.e_shstrndx (to_ehdr header) * Ehdr.e_shentsize (to_ehdr header))))
        ≡ true

  -- What the file says of its sections.
  abbrev pub entries_of : List ℕ → List ℕ → List ℕ → List (List ℕ × Section)
  entries_of header sections strings =
      entries sections strings (Ehdr.e_shentsize (to_ehdr header)) base
        (Ehdr.e_shnum (to_ehdr header)) 0

  -- For an ELF file of 64 bits whose header, section table and names can be read, with entries of
  -- at least 64 bytes, a table of less than 2 ^ 31 bytes, the index of the names inside it, and
  -- memory for both, `init_sections` returns a map in order, and a name is found in it exactly
  -- where it is found first among the entries of the file, in the order of the file.
  pub init_sections-find :
      (header sections strings : List ℕ)
      → IsElfFile header sections strings
      → (m : SectionMap Section) × (init_sections allocates (some file) base ≡ Run.done m)
        × IsSorted m
        × ((name : List ℕ) → find name m ≡ find name (entries_of header sections strings))
  unfolding init_sections
  init_sections-find header sections strings ok =
      let ehdr = to_ehdr header in
      let table_size = ehdr.e_shnum * ehdr.e_shentsize in
      let table = to_shdr sections (ehdr.e_shstrndx * ehdr.e_shentsize) in
      let m = loaded allocates file base ehdr sections strings in
      let size = read_at-length file ehdr.e_shoff table_size sections ok.has_sections in
      let used : (ehdr.e_shnum == 0 || ltb ehdr.e_shentsize shdr_size) ≡ false =
        headers ehdr.e_shnum ehdr.e_shentsize ok.some_headers ok.wide in
      let small : leb (2 ^ 31) table_size ≡ false = not_le (2 ^ 31) table_size ok.narrow in
      let known : leb ehdr.e_shnum ehdr.e_shstrndx ≡ false =
        not_le ehdr.e_shnum ehdr.e_shstrndx ok.has_names in
      let with_all : with_sections allocates file base ehdr (some sections) ≡ Run.done m =
        rw (known, ok.has_string_memory)
          (ap (with_strings allocates file base ehdr sections) ok.has_strings
            ∙ with_strings-loaded allocates file base ehdr sections strings size
                (omega (arith, ok.wide))) in
      let result : with_header allocates file base (some header) ≡ Run.done m =
        rw (ok.magic, used, small, ok.has_memory)
          (ap (with_sections allocates file base ehdr) ok.has_sections ∙ with_all) in
      (
        m,
        ap (with_header allocates file base) ok.has_header ∙ result,
        emplace_all-IsSorted (entries_of header sections strings) [] tt,
        λ name. find-emplace_all name (entries_of header sections strings) [] ∙ unfold find in refl,
      )
    where
      headers : (n size : ℕ) → 0 < n → shdr_size ≤ size → (n == 0 || ltb size shdr_size) ≡ false
      headers n size p q = ground arith

      not_le : (a b : ℕ) → b < a → leb a b ≡ false
      not_le a b h = ground arith
