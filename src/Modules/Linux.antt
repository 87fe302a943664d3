-- ===== src/Modules/Linux.antt =====
-- src/os/linux/Process.cpp: `module_implementation`, the members of `hat::process::module`, and the functions
-- that find a module.
use libhat.Prelude.{
  Run, ℕ, ◌+◌, ◌%◌, ◌^◌, ◌==◌, ltb, Bool, not, ◌&&◌, if◌then◌else◌, List, [], ◌∷◌, Option, none,
  some,
}
use libhat.Protector.Flags.{read, write, execute, protection_or}
use libhat.Modules.Spans.{
  ByteSpan, no_bytes, is_empty, Section, has_bit, with_prot, before_zero, while_true,
}
use libhat.Modules.SectionMap.{SectionMap, find}
use libhat.Modules.Elf.{init_sections}

-- `elf_phdr_t`, the fields that are read. PF_X is 1, PF_W 2 and PF_R 4.
pub record Phdr : Type 0 where
  pub p_flags : ℕ
  pub p_vaddr : ℕ
  pub p_memsz : ℕ

-- `dl_phdr_info`; a null name is none.
pub record PhdrInfo : Type 0 where
  pub dlpi_addr : ℕ
  pub dlpi_name : Option (List ℕ)
  pub dlpi_phdr : List Phdr

-- The loader and the file system: `dlopen` with RTLD_NOLOAD (a null name is none, a null handle 0), `dlsym`,
-- the objects that `dl_iterate_phdr` goes through, the base address that `dladdr` gives, the files and the memory.
pub record Loader : Type 0 where
  pub dlopen : Option (List ℕ) → ℕ
  pub dlsym : ℕ → List ℕ → ℕ
  pub objects : List PhdrInfo
  pub dladdr : ℕ → Option ℕ
  pub open_file : List ℕ → Option (List ℕ)
  pub allocates : ℕ → Bool

-- The sections are none until `init_sections_flag` is set.
pub record ModuleImplementation : Type 0 where
  pub handle : ℕ
  pub base_address : ℕ
  pub path : List ℕ
  pub program_headers : List Phdr
  pub name_to_section : Option (SectionMap Section)

-- "/proc/self/exe"
abbrev pub self_exe : List ℕ
self_exe =
    b'/' ∷ b'p' ∷ b'r' ∷ b'o' ∷ b'c' ∷ b'/' ∷ b's' ∷ b'e' ∷ b'l' ∷ b'f' ∷ b'/' ∷ b'e' ∷ b'x' ∷ b'e'
    ∷ []

-- ".text"
abbrev pub dot_text : List ℕ
dot_text = b'.' ∷ b't' ∷ b'e' ∷ b'x' ∷ b't' ∷ []

abbrev pub object_path : Option (List ℕ) → List ℕ
object_path none = self_exe
object_path (some []) = self_exe
object_path (some (c ∷ name)) = c ∷ name

unfoldable pub construct_module : ℕ → PhdrInfo → ModuleImplementation
construct_module handle info = record {
  handle = handle;
  base_address = info.dlpi_addr;
  path = object_path info.dlpi_name;
  program_headers = info.dlpi_phdr;
  name_to_section = none;
}

-- The flag of `std::call_once` is not set by a call that throws.
abbrev pub once :
    ModuleImplementation
    → Run (SectionMap Section)
    → Run (SectionMap Section × ModuleImplementation)
once m (Run.done s) = Run.done (s, record m { name_to_section = some s })
once m Run.thrown = Run.thrown
once m Run.undefined = Run.undefined

-- `module_implementation::sections`.
abbrev pub cached :
    Loader
    → ModuleImplementation
    → Option (SectionMap Section)
    → Run (SectionMap Section × ModuleImplementation)
cached sys m (some s) = Run.done (s, m)
cached sys m none =
    once m (init_sections (Loader.allocates sys) (Loader.open_file sys m.path) m.base_address)

unfoldable pub sections :
    Loader → ModuleImplementation → Run (SectionMap Section × ModuleImplementation)
sections sys m = cached sys m m.name_to_section

infixl 10 ◌>>=◌
abbrev pub ◌>>=◌ {ℓ κ} : {A : Type ℓ} {B : Type κ} → Run A → (A → Run B) → Run B
Run.done a >>= f = f a
Run.thrown >>= f = Run.thrown
Run.undefined >>= f = Run.undefined

-- `module::get_symbol`.
unfoldable pub get_symbol : Loader → ModuleImplementation → List ℕ → ℕ
get_symbol sys m name = Loader.dlsym sys m.handle (before_zero name)

-- `module::get_module_data`.
abbrev pub segment_end : Phdr → ℕ
segment_end header = (header.p_vaddr + header.p_memsz) % 2 ^ 64

unfoldable pub max_end : ℕ → List Phdr → ℕ
max_end max [] = max
max_end max (header ∷ headers) =
    max_end (if ltb max (segment_end header) then segment_end header else max) headers

unfoldable pub get_module_data : ModuleImplementation → ByteSpan
get_module_data m = record { address = m.base_address; size = max_end 0 m.program_headers }

abbrev pub bytes_or_none : Option Section → ByteSpan
bytes_or_none none = no_bytes
bytes_or_none (some section) = Section.bytes section

abbrev pub named_bytes :
    List ℕ → SectionMap Section × ModuleImplementation → Run (ByteSpan × ModuleImplementation)
named_bytes name (s, m) = Run.done (bytes_or_none (find name s), m)

-- `module::get_section_data`.
unfoldable pub get_section_data :
    Loader → ModuleImplementation → List ℕ → Run (ByteSpan × ModuleImplementation)
get_section_data sys m name = sections sys m >>= named_bytes name

abbrev pub visited {ℓ} :
    {S : Type ℓ}
    → (S → List ℕ × Section → S × Bool)
    → S
    → SectionMap Section × ModuleImplementation
    → Run (S × ModuleImplementation)
visited callback state (s, m) = Run.done (while_true callback state s, m)

-- `module::for_each_section`; the callback has a state of its own.
unfoldable pub for_each_section {ℓ} :
    {S : Type ℓ}
    → Loader
    → ModuleImplementation
    → (S → List ℕ × Section → S × Bool)
    → S
    → Run (S × ModuleImplementation)
for_each_section sys m callback state = sections sys m >>= visited callback state

-- A segment as `module::for_each_segment` hands it to its callback.
abbrev pub segment_bytes : ℕ → Phdr → ByteSpan
segment_bytes base header = record {
  address = (base + header.p_vaddr) % 2 ^ 64;
  size = header.p_memsz;
}

unfoldable pub to_segment : ℕ → Phdr → Section
to_segment base header = record {
  bytes = segment_bytes base header;
  prot =
      with_prot header.p_flags 1 execute
        (with_prot header.p_flags 2 write (with_prot header.p_flags 4 read 0));
}

unfoldable pub for_each_segment {ℓ} :
    {S : Type ℓ} → ModuleImplementation → (S → Section → S × Bool) → S → S
for_each_segment m callback state =
    while_true (λ s header. callback s (to_segment m.base_address header)) state m.program_headers

-- The loops of `module::get_executable_data`.
unfoldable pub first_executable_section : SectionMap Section → Option ByteSpan
first_executable_section [] = none
first_executable_section ((name, section) ∷ s) =
    if Section.prot section == protection_or read execute
    then some (Section.bytes section)
    else first_executable_section s

abbrev pub is_executable_header : Phdr → Bool
is_executable_header header =
    has_bit header.p_flags 4 && not (has_bit header.p_flags 2) && has_bit header.p_flags 1

unfoldable pub first_executable_segment : ℕ → List Phdr → ByteSpan
first_executable_segment base [] = no_bytes
first_executable_segment base (header ∷ headers) =
    if is_executable_header header
    then segment_bytes base header
    else first_executable_segment base headers

abbrev pub or_segment : ModuleImplementation → Option ByteSpan → ByteSpan
or_segment m (some bytes) = bytes
or_segment m none = first_executable_segment m.base_address m.program_headers

abbrev pub next_code :
    SectionMap Section × ModuleImplementation → Run (ByteSpan × ModuleImplementation)
next_code (s, m) = Run.done (or_segment m (first_executable_section s), m)

abbrev pub code_or_next :
    Loader → ByteSpan × ModuleImplementation → Run (ByteSpan × ModuleImplementation)
code_or_next sys (text, m) =
    if not (is_empty text) then Run.done (text, m) else sections sys m >>= next_code

-- `module::get_executable_data`.
unfoldable pub get_executable_data :
    Loader → ModuleImplementation → Run (ByteSpan × ModuleImplementation)
get_executable_data sys m = get_section_data sys m dot_text >>= code_or_next sys
