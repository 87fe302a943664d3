-- ===== src/Modules/PeFind.antt =====
-- src/os/win32/Process.cpp: `create_impl`, `get_process_module`, `get_module`, `module_at` and
-- `module::get_symbol`.
use libhat.Prelude.{ℕ, Bool, true, false, List, [], ◌∷◌, Option, none, some}
use libhat.Modules.Spans.{before_zero}

-- `GetModuleHandleW(nullptr)`, `MultiByteToWideChar` (no characters where it fails), `GetModuleHandleExW` by
-- name (a null name is none) and by address, and `GetProcAddress`.
pub record WinLoader : Type 0 where
  pub process_handle : ℕ
  pub multi_byte_to_wide_char : List ℕ → List ℕ
  pub handle_of_name : Option (List ℕ) → Option ℕ
  pub handle_of_address : ℕ → Option ℕ
  pub get_proc_address : ℕ → List ℕ → ℕ

-- The pointer of a module, and whether the last copy frees the library.
pub record WinModule : Type 0 where
  pub impl : ℕ
  pub owning : Bool

abbrev pub create_impl : ℕ → Bool → WinModule
create_impl handle owning = record { impl = handle; owning = owning }

abbrev pub owning_module : Option ℕ → Option WinModule
owning_module none = none
owning_module (some handle) = some (create_impl handle true)

module _ (sys : WinLoader) where
  unfoldable pub get_process_module : WinModule
  get_process_module = create_impl (WinLoader.process_handle sys) false

  -- A name that is not empty and cannot be converted gives no module.
  abbrev pub by_wide_name : List ℕ → Option WinModule
  by_wide_name [] = none
  by_wide_name (c ∷ wide) =
      owning_module (WinLoader.handle_of_name sys (some (before_zero (c ∷ wide))))

  unfoldable pub get_module : List ℕ → Option WinModule
  get_module [] = owning_module (WinLoader.handle_of_name sys none)
  get_module (c ∷ name) = by_wide_name (WinLoader.multi_byte_to_wide_char sys (c ∷ name))

  unfoldable pub module_at : ℕ → Option WinModule
  module_at address = owning_module (WinLoader.handle_of_address sys address)

  unfoldable pub get_symbol : WinModule → List ℕ → ℕ
  get_symbol m name = WinLoader.get_proc_address sys m.impl (before_zero name)
