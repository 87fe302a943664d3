-- ===== src/Modules/Pe.antt =====
-- src/os/win32/Process.cpp: the members of `hat::process::module`, which read the headers of an image in
-- memory, of 64 bits.
use libhat.Prelude.{
  ℕ, zero, suc, ◌+◌, ◌%◌, ◌^◌, Bool, not, ◌&&◌, if◌then◌else◌, List, [], ◌∷◌, tabulate,
}
use libhat.Protector.Flags.{read, write, execute}
use libhat.Scanner.Context.{Memory}
use libhat.Scanner.ScanResult.{read_bytes, sign_extend}
use libhat.Modules.Names.{name_eq}
use libhat.Modules.Spans.{
  ByteSpan, no_bytes, is_empty, Section, has_bit, with_prot, before_zero, while_true,
}
use libhat.Modules.Linux.{dot_text}

-- `IMAGE_SECTION_HEADER`, the fields that are read.
pub record SectionHeader : Type 0 where
  pub name : List ℕ
  pub virtual_size : ℕ
  pub virtual_address : ℕ
  pub characteristics : ℕ

abbrev pub scn_mem_execute : ℕ
scn_mem_execute = 0x20000000

abbrev pub scn_mem_read : ℕ
scn_mem_read = 0x40000000

abbrev pub scn_mem_write : ℕ
scn_mem_write = 0x80000000

module _ (mem : Memory) where
  abbrev pub to_section_header : ℕ → SectionHeader
  to_section_header at = record {
    name = before_zero (tabulate 8 (λ i. mem (at + i)));
    virtual_size = read_bytes mem 4 (at + 8);
    virtual_address = read_bytes mem 4 (at + 12);
    characteristics = read_bytes mem 4 (at + 36);
  }

  -- `getNTHeaders`, from `e_lfanew`.
  abbrev pub get_nt_headers : ℕ → ℕ
  get_nt_headers base = (base + sign_extend (read_bytes mem 4 (base + 0x3C))) % 2 ^ 64

  -- The headers that a loop from `IMAGE_FIRST_SECTION` on goes through.
  unfoldable pub headers_from : ℕ → ℕ → List SectionHeader
  headers_from zero at = []
  headers_from (suc n) at = to_section_header at ∷ headers_from n (at + 40)

  abbrev pub section_headers : ℕ → List SectionHeader
  section_headers base =
      let nt = get_nt_headers base in
      headers_from (read_bytes mem 2 (nt + 6)) (nt + 24 + read_bytes mem 2 (nt + 20))

  -- `module::get_module_data`.
  unfoldable pub get_module_data : ℕ → ByteSpan
  get_module_data base = record {
    address = base;
    size = read_bytes mem 4 (get_nt_headers base + 80);
  }

abbrev pub header_bytes : ℕ → SectionHeader → ByteSpan
header_bytes base header = record {
  address = (base + header.virtual_address) % 2 ^ 64;
  size = header.virtual_size;
}

-- The loops of `module::get_section_data` and `module::get_executable_data`.
unfoldable pub named_header : ℕ → List ℕ → List SectionHeader → ByteSpan
named_header base name [] = no_bytes
named_header base name (header ∷ headers) =
    if name_eq header.name name then header_bytes base header else named_header base name headers

abbrev pub is_code_header : SectionHeader → Bool
is_code_header header =
    has_bit header.characteristics scn_mem_read
    && not (has_bit header.characteristics scn_mem_write)
    && has_bit header.characteristics scn_mem_execute

unfoldable pub code_header : ℕ → List SectionHeader → ByteSpan
code_header base [] = no_bytes
code_header base (header ∷ headers) =
    if is_code_header header then header_bytes base header else code_header base headers

-- A section as the callbacks get it.
unfoldable pub to_section : ℕ → SectionHeader → Section
to_section base header = record {
  bytes = header_bytes base header;
  prot = with_prot header.characteristics scn_mem_execute execute (
      with_prot header.characteristics scn_mem_write write
        (with_prot header.characteristics scn_mem_read read 0));
}

module _ (mem : Memory) (base : ℕ) where
  -- `module::get_section_data`.
  unfoldable pub get_section_data : List ℕ → ByteSpan
  get_section_data name = named_header base name (section_headers mem base)

  -- `module::get_executable_data`.
  unfoldable pub get_executable_data : ByteSpan
  get_executable_data =
      let text = get_section_data dot_text in
      if not (is_empty text) then text else code_header base (section_headers mem base)

  -- `module::for_each_section` and `module::for_each_segment`.
  unfoldable pub for_each_section {ℓ} : {S : Type ℓ} → (S → List ℕ × Section → S × Bool) → S → S
  for_each_section callback s =
      while_true (λ s' header. callback s' (header.name, to_section base header)) s
        (section_headers mem base)

  unfoldable pub for_each_segment {ℓ} : {S : Type ℓ} → (S → Section → S × Bool) → S → S
  for_each_segment callback s =
      while_true (λ s' header. callback s' (to_section base header)) s (section_headers mem base)
