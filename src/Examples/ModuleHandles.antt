-- ===== src/Examples/ModuleHandles.antt =====
-- The calls of the C interface on modules at concrete inputs.
use libhat.Prelude.{Run, ℕ, ◌≡◌, refl, true, List, [], ◌∷◌, none, some}
use libhat.Scanner.Context.{x1}
use libhat.Modules.Spans.{ByteSpan}
use libhat.Bindings.Objects.{Heap, Call}
use libhat.Bindings.Calls.{Status}
use libhat.Bindings.ModuleCalls.{Modules, libhat_get_module, libhat_find_pattern_mod}
use libhat.Bindings.ModuleHandles.{
  IsRefused, signature-IsRefused, IsHandle, libhat_get_module-IsHandle,
}
use libhat.Bindings.ModuleScan.{IsSectionScan}
use libhat.Bindings.LinuxModules.{
  linux_modules, IsLoadedFrom, section_of, libhat_find_pattern_mod-section_of,
}
use libhat.Modules.Linux.{Loader, construct_module}
use libhat.Modules.Find.{object_at}
use libhat.Examples.Loaded.{header, table, strings, file, file-IsElfFile, info, sys}
use libhat.Examples.Handles.{heap, heap-IsHeap, allocate, allocate-IsFresh, known_align}
use libhat.Examples.Machines.{counting, counting-IsBytes, five_seven, desktop}

abbrev section : ByteSpan
section = record { address = 512; size = 100 }

-- One module at 4096, each section of which is the same.
abbrev modules : Modules
modules = record {
  get_symbol = λ base name. 0;
  get_module_data = λ base. section;
  get_executable_data = λ base. Run.done section;
  get_section_data = λ base name. Run.done section;
  sections = λ base. Run.thrown;
  segments = λ base. [];
  get_module = λ name. some 4096;
  module_at = λ address. none;
}

abbrev name : List ℕ
name = b'.' ∷ b't' ∷ b'e' ∷ b'x' ∷ b't' ∷ []

signature-IsRefused_example : IsRefused ℕ modules heap 16 Status.err_invalid_argument_type
signature-IsRefused_example = signature-IsRefused ℕ modules heap 16 five_seven refl refl

libhat_get_module-IsHandle_example :
    (heap' : Heap) × (p : ℕ) × (libhat_get_module modules allocate heap (some name)
      ≡ Call.returned heap' p)
    × IsHandle modules heap heap' p 4096
libhat_get_module-IsHandle_example =
    libhat_get_module-IsHandle modules allocate heap allocate-IsFresh heap-IsHeap name 4096 refl

-- The module of a small ELF file, whose section ".text" is at 8192.
linux-IsLoadedFrom : IsLoadedFrom sys (construct_module 7 info) file header table strings
unfolding construct_module
linux-IsLoadedFrom = record { not_read = refl; there = refl; elf = file-IsElfFile }

linux_object : object_at sys 4096 (Loader.objects sys) ≡ some (construct_module 7 info)
unfolding object_at construct_module
linux_object = refl

libhat_find_pattern_mod-section_of_example :
    IsSectionScan desktop counting counting-IsBytes
      (linux_modules sys)
      heap
      heap-IsHeap
      five_seven
      x1
      (section_of sys (construct_module 7 info) file header table strings name)
      (libhat_find_pattern_mod desktop counting (linux_modules sys) heap 16 32 (some name) true 1 0)
libhat_find_pattern_mod-section_of_example =
    libhat_find_pattern_mod-section_of desktop counting counting-IsBytes heap heap-IsHeap sys 16 32
      1 0 4096 name five_seven x1 (construct_module 7 info) file header table strings refl refl refl
      refl known_align linux_object linux-IsLoadedFrom
