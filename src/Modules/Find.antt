-- ===== src/Modules/Find.antt =====
-- src/os/linux/Process.cpp: `get_process_module`, `get_module` and `module_at`.
use libhat.Prelude.{ℕ, ◌==◌, Bool, not, ◌&&◌, if◌then◌else◌, List, [], ◌∷◌, Option, none, some}
use libhat.Modules.Spans.{before_zero}
use libhat.Modules.Linux.{PhdrInfo, Loader, ModuleImplementation, construct_module}

-- The null pointer for an empty name, and the characters before a zero of any other.
abbrev pub file_name : List ℕ → Option (List ℕ)
file_name [] = none
file_name (c ∷ name) = some (before_zero (c ∷ name))

-- The callback of `get_module`: an object at address 0 is passed over.
abbrev pub has_handle : Loader → ℕ → PhdrInfo → Bool
has_handle sys handle info = not (info.dlpi_addr == 0) && Loader.dlopen sys info.dlpi_name == handle

unfoldable pub object_with_handle : Loader → ℕ → List PhdrInfo → Option ModuleImplementation
object_with_handle sys handle [] = none
object_with_handle sys handle (info ∷ objects) =
    if has_handle sys handle info
    then some (construct_module (Loader.dlopen sys info.dlpi_name) info)
    else object_with_handle sys handle objects

unfoldable pub get_module : Loader → List ℕ → Option ModuleImplementation
get_module sys name =
    let handle = Loader.dlopen sys (file_name name) in
    if handle == 0 then none else object_with_handle sys handle (Loader.objects sys)

-- `none` is `std::abort`.
unfoldable pub get_process_module : Loader → Option ModuleImplementation
get_process_module sys = get_module sys []

-- The callback of `module_at`.
unfoldable pub object_at : Loader → ℕ → List PhdrInfo → Option ModuleImplementation
object_at sys base [] = none
object_at sys base (info ∷ objects) =
    if info.dlpi_addr == base
    then some (construct_module (Loader.dlopen sys info.dlpi_name) info)
    else object_at sys base objects

unfoldable pub module_at : Loader → ℕ → Option ModuleImplementation
module_at sys address = elim (Loader.dladdr sys address) [
  | none ↦ none
  | some base ↦ object_at sys base (Loader.objects sys)
]
