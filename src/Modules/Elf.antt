-- ===== src/Modules/Elf.antt =====
-- src/os/linux/Process.cpp: `module_implementation::init_sections`, which reads the section table of the
-- file of a module, on a machine of 64 bits that is little-endian.
use libhat.Prelude.{
  Run, ℕ, zero, suc, ◌+◌, ◌*◌, ◌%◌, ◌^◌, ◌==◌, ltb, leb, Bool, not, ◌&&◌, ◌||◌, if◌then◌else◌, List,
  [], Option, none, some, length, take, drop,
}
use libhat.Protector.Flags.{read, write, execute}
use libhat.Modules.Spans.{ByteSpan, Section, has_bit, with_prot, field, before_zero}
use libhat.Modules.SectionMap.{SectionMap, emplace}

-- `elf_ehdr_t`, the fields that are read.
pub record Ehdr : Type 0 where
  pub ident : ℕ
  pub ei_class : ℕ
  pub e_shoff : ℕ
  pub e_shentsize : ℕ
  pub e_shnum : ℕ
  pub e_shstrndx : ℕ

abbrev pub ehdr_size : ℕ
ehdr_size = 64

abbrev pub to_ehdr : List ℕ → Ehdr
to_ehdr bytes = record {
  ident = field bytes 0 4;
  ei_class = field bytes 4 1;
  e_shoff = field bytes 40 8;
  e_shentsize = field bytes 58 2;
  e_shnum = field bytes 60 2;
  e_shstrndx = field bytes 62 2;
}

-- `elf_shdr_t`, the fields that are read.
pub record Shdr : Type 0 where
  pub sh_name : ℕ
  pub sh_type : ℕ
  pub sh_flags : ℕ
  pub sh_addr : ℕ
  pub sh_offset : ℕ
  pub sh_size : ℕ

abbrev pub shdr_size : ℕ
shdr_size = 64

abbrev pub to_shdr : List ℕ → ℕ → Shdr
to_shdr bytes at = record {
  sh_name = field bytes at 4;
  sh_type = field bytes (at + 4) 4;
  sh_flags = field bytes (at + 8) 8;
  sh_addr = field bytes (at + 16) 8;
  sh_offset = field bytes (at + 24) 8;
  sh_size = field bytes (at + 32) 8;
}

-- `file.seekg(offset)` and `file.read(…, size)`: the bytes, if the offset is no negative number and the
-- file is long enough.
unfoldable pub read_at : List ℕ → ℕ → ℕ → Option (List ℕ)
read_at file offset size =
    if ltb offset (2 ^ 63) && (size == 0 || leb (offset + size) (length file))
    then some (take size (drop offset file))
    else none

-- ELFMAG0 to ELFMAG3, and ELFCLASS64.
abbrev pub is_elf : Ehdr → Bool
is_elf ehdr = ehdr.ident == 0x464C457F && ehdr.ei_class == 2

-- One header: its entry in the map, if it gets one. SHT_NULL is 0, SHF_WRITE 1, SHF_ALLOC 2 and
-- SHF_EXECINSTR 4.
unfoldable pub section_entry : List ℕ → ℕ → Shdr → Option (List ℕ × Section)
section_entry strings base header =
    let prot = with_prot header.sh_flags 4 execute (with_prot header.sh_flags 1 write read) in
    let bytes : ByteSpan = record {
      address = (base + header.sh_addr) % 2 ^ 64;
      size = header.sh_size;
    } in
    if header.sh_type == 0
    then none
    else if header.sh_addr == 0
        || ltb (length strings) header.sh_name
        || not (has_bit header.sh_flags 2)
    then none
    else some (before_zero (drop header.sh_name strings), record { bytes = bytes; prot = prot })

abbrev pub add_entry : Option (List ℕ × Section) → SectionMap Section → SectionMap Section
add_entry none m = m
add_entry (some (name, section)) m = emplace name section m

-- The loop over the table, from the iterator `it` on. An iterator that passed the end without meeting it
-- would go on without bound.
unfoldable pub section_loop :
    List ℕ → List ℕ → ℕ → ℕ → ℕ → ℕ → SectionMap Section → Option (SectionMap Section)
section_loop sections strings entsize base zero it m = none
section_loop sections strings entsize base (suc fuel) it m =
    let rest =
      section_loop sections strings entsize base fuel (it + entsize)
        (add_entry (section_entry strings base (to_shdr sections it)) m) in
    if it == length sections then some m else rest

abbrev pub loop_result : Option (SectionMap Section) → Run (SectionMap Section)
loop_result none = Run.undefined
loop_result (some m) = Run.done m

module _ (allocates : ℕ → Bool) (file : List ℕ) (base : ℕ) where
  -- The string table was read, or was not.
  abbrev pub with_strings : Ehdr → List ℕ → Option (List ℕ) → Run (SectionMap Section)
  with_strings ehdr sections none = Run.done []
  with_strings ehdr sections (some strings) =
      loop_result (section_loop sections strings ehdr.e_shentsize base (suc ehdr.e_shnum) 0 [])

  -- The section table was read, or was not.
  abbrev pub with_sections : Ehdr → Option (List ℕ) → Run (SectionMap Section)
  with_sections ehdr none = Run.done []
  with_sections ehdr (some sections) =
      let shstrtab = to_shdr sections (ehdr.e_shstrndx * ehdr.e_shentsize) in
      if leb ehdr.e_shnum ehdr.e_shstrndx
      then Run.done []
      else if not (allocates (Shdr.sh_size shstrtab))
      then Run.thrown
      else with_strings ehdr sections
          (read_at file (Shdr.sh_offset shstrtab) (Shdr.sh_size shstrtab))

  -- The header was read, or was not. `e_shnum * e_shentsize` is a product of type `int`.
  abbrev pub with_header : Option (List ℕ) → Run (SectionMap Section)
  with_header none = Run.done []
  with_header (some header) =
      let ehdr = to_ehdr header in
      let table_size = ehdr.e_shnum * ehdr.e_shentsize in
      if not (is_elf ehdr)
      then Run.done []
      else if ehdr.e_shnum == 0 || ltb ehdr.e_shentsize shdr_size
      then Run.done []
      else if leb (2 ^ 31) table_size
      then Run.undefined
      else if not (allocates table_size)
      then Run.thrown
      else with_sections ehdr (read_at file ehdr.e_shoff table_size)

-- `init_sections`: `file` is none if it cannot be opened, and `allocates` says whether there is memory for a
-- vector of so many bytes.
unfoldable pub init_sections : (ℕ → Bool) → Option (List ℕ) → ℕ → Run (SectionMap Section)
init_sections allocates none base = Run.done []
init_sections allocates (some file) base =
    with_header allocates file base (read_at file 0 ehdr_size)
