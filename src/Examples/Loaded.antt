-- ===== src/Examples/Loaded.antt =====
-- Sections of a small ELF file and of the module that it was loaded from.
use libhat.Prelude.{
  Run, ℕ, ◌≡◌, ◌↔◌, ◌⊎◌, refl, Bool, true, List, [], ◌∷◌, ◌++◌, none, some, arith, All,
}
use libhat.Modules.Spans.{ByteSpan, Section, before_zero, while_true}
use libhat.Modules.SectionMap.{SectionMap, find, emplace, insert_sorted, IsSorted}
use libhat.Modules.Visit.{keep}
use libhat.Modules.Elf.{read_at, ehdr_size, section_entry, section_loop, init_sections}
use libhat.Scanner.ScanResult.{read_bytes}
use libhat.Modules.Names.{name_eq, name_less}
use libhat.Modules.ElfLoad.{IsLoaded, IsOverflow, init_sections-IsLoaded}
use libhat.Modules.ElfFind.{IsElfFile, entries_of, init_sections-find}
use libhat.Modules.Linux.{
  Phdr, PhdrInfo, Loader, ModuleImplementation, construct_module, sections, get_section_data,
  for_each_section, for_each_segment, get_executable_data,
}
use libhat.Modules.LinuxLaws.{for_each_section-get_section_data}
use libhat.Modules.LinuxData.{IsInModule, get_module_data-for_each_segment}
use libhat.Modules.LinuxCode.{IsCode, get_executable_data-IsCode}
use libhat.Modules.Find.{get_process_module}
use libhat.Modules.Found.{IsPassedOver, get_process_module-none}

-- The header of a file with three sections after it, the last of which has the names.
abbrev pub header : List ℕ
header =
    127 ∷ 69 ∷ 76 ∷ 70 ∷ 2 ∷ 1 ∷ 1 ∷ 0 ∷ 0 ∷ 0 ∷ 0 ∷ 0 ∷ 0 ∷ 0 ∷ 0 ∷ 0 ∷ 3 ∷ 0 ∷ 62 ∷ 0 ∷ 1 ∷ 0 ∷ 0
    ∷ 0 ∷ 0 ∷ 0 ∷ 0 ∷ 0 ∷ 0 ∷ 0 ∷ 0 ∷ 0 ∷ 0 ∷ 0 ∷ 0 ∷ 0 ∷ 0 ∷ 0 ∷ 0 ∷ 0 ∷ 64 ∷ 0 ∷ 0 ∷ 0 ∷ 0 ∷ 0 ∷ 0
    ∷ 0 ∷ 0 ∷ 0 ∷ 0 ∷ 0 ∷ 64 ∷ 0 ∷ 0 ∷ 0 ∷ 0 ∷ 0 ∷ 64 ∷ 0 ∷ 3 ∷ 0 ∷ 2 ∷ 0 ∷ []

-- The headers of ".text", ".data" and the names.
abbrev pub table : List ℕ
table =
    1 ∷ 0 ∷ 0 ∷ 0 ∷ 1 ∷ 0 ∷ 0 ∷ 0 ∷ 6 ∷ 0 ∷ 0 ∷ 0 ∷ 0 ∷ 0 ∷ 0 ∷ 0 ∷ 0 ∷ 16 ∷ 0 ∷ 0 ∷ 0 ∷ 0 ∷ 0 ∷ 0
    ∷ 64 ∷ 0 ∷ 0 ∷ 0 ∷ 0 ∷ 0 ∷ 0 ∷ 0 ∷ 32 ∷ 0 ∷ 0 ∷ 0 ∷ 0 ∷ 0 ∷ 0 ∷ 0 ∷ 0 ∷ 0 ∷ 0 ∷ 0 ∷ 0 ∷ 0 ∷ 0
    ∷ 0 ∷ 0 ∷ 0 ∷ 0 ∷ 0 ∷ 0 ∷ 0 ∷ 0 ∷ 0 ∷ 0 ∷ 0 ∷ 0 ∷ 0 ∷ 0 ∷ 0 ∷ 0 ∷ 0 ∷ 7 ∷ 0 ∷ 0 ∷ 0 ∷ 1 ∷ 0 ∷ 0
    ∷ 0 ∷ 3 ∷ 0 ∷ 0 ∷ 0 ∷ 0 ∷ 0 ∷ 0 ∷ 0 ∷ 0 ∷ 32 ∷ 0 ∷ 0 ∷ 0 ∷ 0 ∷ 0 ∷ 0 ∷ 96 ∷ 0 ∷ 0 ∷ 0 ∷ 0 ∷ 0
    ∷ 0 ∷ 0 ∷ 16 ∷ 0 ∷ 0 ∷ 0 ∷ 0 ∷ 0 ∷ 0 ∷ 0 ∷ 0 ∷ 0 ∷ 0 ∷ 0 ∷ 0 ∷ 0 ∷ 0 ∷ 0 ∷ 0 ∷ 0 ∷ 0 ∷ 0 ∷ 0 ∷ 0
    ∷ 0 ∷ 0 ∷ 0 ∷ 0 ∷ 0 ∷ 0 ∷ 0 ∷ 0 ∷ 0 ∷ 0 ∷ 0 ∷ 0 ∷ 0 ∷ 0 ∷ 3 ∷ 0 ∷ 0 ∷ 0 ∷ 0 ∷ 0 ∷ 0 ∷ 0 ∷ 0 ∷ 0
    ∷ 0 ∷ 0 ∷ 0 ∷ 0 ∷ 0 ∷ 0 ∷ 0 ∷ 0 ∷ 0 ∷ 0 ∷ 0 ∷ 1 ∷ 0 ∷ 0 ∷ 0 ∷ 0 ∷ 0 ∷ 0 ∷ 13 ∷ 0 ∷ 0 ∷ 0 ∷ 0 ∷ 0
    ∷ 0 ∷ 0 ∷ 0 ∷ 0 ∷ 0 ∷ 0 ∷ 0 ∷ 0 ∷ 0 ∷ 0 ∷ 0 ∷ 0 ∷ 0 ∷ 0 ∷ 0 ∷ 0 ∷ 0 ∷ 0 ∷ 0 ∷ 0 ∷ 0 ∷ 0 ∷ 0 ∷ 0
    ∷ 0 ∷ 0 ∷ []

-- The names of the sections.
abbrev pub strings : List ℕ
strings = 0 ∷ 46 ∷ 116 ∷ 101 ∷ 120 ∷ 116 ∷ 0 ∷ 46 ∷ 100 ∷ 97 ∷ 116 ∷ 97 ∷ 0 ∷ []

abbrev pub file : List ℕ
file = header ++ table ++ strings

program : Unit {0}
unfolding read_bytes read_at section_entry section_loop init_sections before_zero emplace find
    insert_sorted name_eq name_less sections get_section_data for_each_section while_true
    construct_module
program = tt

abbrev always : ℕ → Bool
always n = true

pub file-IsElfFile : IsElfFile always file 4096 header table strings
unfolding program
file-IsElfFile = record {
  has_header = refl;
  magic = refl;
  some_headers = omega arith;
  wide = omega arith;
  narrow = omega arith;
  has_sections = refl;
  has_names = omega arith;
  has_strings = refl;
  has_memory = refl;
  has_string_memory = refl;
}

init_sections-find_example :
    (m : SectionMap Section) × (init_sections always (some file) 4096 ≡ Run.done m)
    × IsSorted m
    × ((name : List ℕ) → find name m ≡ find name (entries_of always file 4096 header table strings))
init_sections-find_example = init_sections-find always file 4096 header table strings file-IsElfFile

init_sections-IsLoaded_example :
    IsLoaded always file 4096 (init_sections always (some file) 4096)
    ⊎ ((h : List ℕ) × (read_at file 0 ehdr_size ≡ some h)
        × IsOverflow always file 4096 h
        × (init_sections always (some file) 4096 ≡ Run.undefined))
init_sections-IsLoaded_example = init_sections-IsLoaded always file 4096

abbrev text_header : Phdr
text_header = record { p_flags = 5; p_vaddr = 4096; p_memsz = 64 }

abbrev data_header : Phdr
data_header = record { p_flags = 6; p_vaddr = 8192; p_memsz = 32 }

abbrev pub info : PhdrInfo
info = record { dlpi_addr = 4096; dlpi_name = none; dlpi_phdr = text_header ∷ data_header ∷ [] }

-- A program that is loaded at 4096.
abbrev pub sys : Loader
sys = record {
  dlopen = λ name. 7;
  dlsym = λ handle name. 0;
  objects = info ∷ [];
  dladdr = λ address. some 4096;
  open_file = λ path. some file;
  allocates = always;
}

-- The same after its file was removed.
abbrev without_file : Loader
without_file = record sys { open_file = λ path. none }

abbrev fresh : ModuleImplementation
fresh = record {
  handle = 7;
  base_address = 4096;
  path = [];
  program_headers = text_header ∷ data_header ∷ [];
  name_to_section = none;
}

abbrev text_name : List ℕ
text_name = b'.' ∷ b't' ∷ b'e' ∷ b'x' ∷ b't' ∷ []

abbrev data_name : List ℕ
data_name = b'.' ∷ b'd' ∷ b'a' ∷ b't' ∷ b'a' ∷ []

abbrev text_bytes : ByteSpan
text_bytes = record { address = 8192; size = 32 }

abbrev both_sections : SectionMap Section
both_sections =
    (data_name, record { bytes = record { address = 12288; size = 16 }; prot = 3 })
    ∷ (text_name, record { bytes = text_bytes; prot = 5 })
    ∷ []

abbrev used : ModuleImplementation
used = record fresh { name_to_section = some both_sections }

fresh-sections : sections sys fresh ≡ Run.done (both_sections, used)
unfolding program
fresh-sections = refl

fresh-items : for_each_section sys fresh keep [] ≡ Run.done (both_sections, used)
unfolding program
fresh-items = refl

for_each_section-get_section_data_example :
    IsSorted both_sections
    × All
        (λ (e : List ℕ × Section).
          get_section_data without_file used e.0 ≡ Run.done (Section.bytes e.1, used))
        both_sections
for_each_section-get_section_data_example =
    for_each_section-get_section_data sys without_file fresh (λ s h. absurd (cc h)) both_sections
      used fresh-items

get_module_data-for_each_segment_example : All (IsInModule fresh) (for_each_segment fresh keep [])
get_module_data-for_each_segment_example =
    get_module_data-for_each_segment fresh (omega arith, (omega arith, tt))

get_executable_data-IsCode_example :
    (bytes : ByteSpan) × (get_executable_data sys fresh ≡ Run.done (bytes, used))
    × IsCode both_sections used bytes
get_executable_data-IsCode_example =
    get_executable_data-IsCode sys fresh both_sections used fresh-sections

-- A program that is not position-independent: its one object is reported at address 0.
abbrev fixed : Loader
fixed = record sys { objects = record info { dlpi_addr = 0 } ∷ [] }

get_process_module-none_example : (get_process_module fixed ≡ none) ↔ (
    (Loader.dlopen fixed none ≡ 0)
    ⊎ All (IsPassedOver fixed (Loader.dlopen fixed none)) (Loader.objects fixed))
get_process_module-none_example = get_process_module-none fixed
