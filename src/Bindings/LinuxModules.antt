-- ===== src/Bindings/LinuxModules.antt =====
-- The modules of a Linux process as the C interface sees them, and a scan of a section from its file on.
use libhat.Prelude.{Run, ℕ, ◌==◌, true, false, ◌≡◌, ap, ◌∙◌, List, [], Option, none, some}
use libhat.Signature.Element.{Signature}
use libhat.Scanner.Context.{Memory, IsBytes, ScanAlignment}
use libhat.Scanner.FindPattern.{Machine}
use libhat.Modules.Spans.{ByteSpan}
use libhat.Modules.SectionMap.{find}
use libhat.Modules.Visit.{keep}
use libhat.Modules.Elf.{init_sections}
use libhat.Modules.ElfFind.{IsElfFile, entries_of, init_sections-find}
use libhat.Modules.Linux.{
  Loader, ModuleImplementation, once, cached, bytes_or_none, named_bytes, sections, ◌>>=◌,
  get_symbol, get_module_data, get_executable_data, get_section_data, for_each_section,
  for_each_segment,
}
use libhat.Modules.Find.{get_module, module_at, object_at}
use libhat.Bindings.Objects.{Heap, signature_object, module_object}
use libhat.Bindings.Calls.{to_cpp_align}
use libhat.Bindings.IsHeap.{IsHeap}
use libhat.Bindings.ModuleCalls.{Modules, libhat_find_pattern_mod}
use libhat.Bindings.ModuleScan.{IsSectionScan, libhat_find_pattern_mod-IsSectionScan}

-- The answer of a call, without the state of the module: a later call answers the same.
abbrev pub forget {ℓ} : {A : Type ℓ} → Run (A × ModuleImplementation) → Run A
forget (Run.done (a, m)) = Run.done a
forget Run.thrown = Run.thrown
forget Run.undefined = Run.undefined

abbrev pub base_of : Option ModuleImplementation → Option ℕ
base_of none = none
base_of (some m) = some m.base_address

-- A call on the module at an address that no object has does not happen.
abbrev pub on_object {ℓ} :
    {A : Type ℓ} → A → Option ModuleImplementation → (ModuleImplementation → A) → A
on_object missing none call = missing
on_object missing (some m) call = call m

module _ (sys : Loader) where
  abbrev object : ℕ → Option ModuleImplementation
  object base = object_at sys base (Loader.objects sys)

  -- The members of `hat::process::module` on Linux.
  unfoldable pub linux_modules : Modules
  linux_modules = record {
    get_symbol = λ base name. on_object 0 (object base) (λ m. get_symbol sys m name);
    get_module_data =
        λ base. on_object (record { address = 0; size = 0 }) (object base) get_module_data;
    get_executable_data =
        λ base. on_object Run.undefined (object base) (λ m. forget (get_executable_data sys m));
    get_section_data = λ base name.
        on_object Run.undefined (object base) (λ m. forget (get_section_data sys m name));
    sections = λ base.
        on_object Run.undefined (object base) (λ m. forget (for_each_section sys m keep []));
    segments = λ base. on_object [] (object base) (λ m. for_each_segment m keep []);
    get_module = λ name. base_of (get_module sys name);
    module_at = λ address. base_of (module_at sys address);
  }

module _ (sys : Loader) (m : ModuleImplementation) (file header table strings : List ℕ) where
  -- A module that has read no sections yet, whose file is an ELF file with these parts.
  pub record IsLoadedFrom : Type 0 where
    pub not_read : m.name_to_section ≡ none
    pub there : Loader.open_file sys m.path ≡ some file
    pub elf : IsElfFile (Loader.allocates sys) file m.base_address header table strings

  -- The bytes that the file says a section has.
  abbrev pub section_of : List ℕ → ByteSpan
  section_of name =
      bytes_or_none
        (find name (entries_of (Loader.allocates sys) file m.base_address header table strings))

  get_section_data-section_of :
      (name : List ℕ)
      → IsLoadedFrom
      → forget (get_section_data sys m name) ≡ Run.done (section_of name)
  unfolding get_section_data sections
  get_section_data-section_of name loaded =
      let (s, done, sorted, finds) =
        init_sections-find (Loader.allocates sys) file m.base_address header table strings
          loaded.elf in
      ap (λ o. forget (cached sys m o >>= named_bytes name)) loaded.not_read
      ∙ ap
          (λ o.
            forget
              (once m (init_sections (Loader.allocates sys) o m.base_address) >>= named_bytes name))
          loaded.there
      ∙ ap (λ r. forget (once m r >>= named_bytes name)) done
      ∙ ap (λ o. Run.done (bytes_or_none o)) (finds name)

module _ (machine : Machine) (mem : Memory) (bytes : IsBytes mem) (heap : Heap) (inv : IsHeap heap)
    (sys : Loader) where
  -- In a well-formed heap and memory of bytes, for a live signature, one of the three alignments
  -- and a live module of Linux that has read no sections and whose file is an ELF file of 64 bits
  -- with a section table, names and memory for both, `libhat_find_pattern_mod` succeeds, leaves
  -- the heap alone and writes the first occurrence in the bytes that the file gives first for the
  -- section name, or null when there is none.
  pub libhat_find_pattern_mod-section_of :
      (p q align hints base : ℕ) (name : List ℕ) (sig : Signature) (alignment : ScanAlignment)
      (m : ModuleImplementation) (file header table strings : List ℕ)
      → heap p ≡ some (signature_object sig)
      → heap q ≡ some (module_object base)
      → (p == 0) ≡ false
      → (q == 0) ≡ false
      → to_cpp_align align ≡ some alignment
      → object_at sys base (Loader.objects sys) ≡ some m
      → IsLoadedFrom sys m file header table strings
      → IsSectionScan machine mem bytes
          (linux_modules sys)
          heap
          inv
          sig
          alignment
          (section_of sys m file header table strings name)
          (libhat_find_pattern_mod machine mem
            (linux_modules sys)
            heap
            p
            q
            (some name)
            true
            align
            hints)
  unfolding linux_modules
  libhat_find_pattern_mod-section_of p q align hints base name sig alignment m file header table
        strings live live' not_null not_null' known found loaded =
      libhat_find_pattern_mod-IsSectionScan machine mem bytes (linux_modules sys) heap inv p q align
        hints base name sig alignment (section_of sys m file header table strings name) live live'
        not_null not_null' known
        (ap (λ o. on_object Run.undefined o (λ x. forget (get_section_data sys x name))) found
          ∙ get_section_data-section_of sys m file header table strings name loaded)
