-- ===== src/Protector/Win32.antt =====
-- src/os/win32/MemoryProtector.cpp, with `VirtualProtect` as a step of the system that may fail.
use libhat.Prelude.{
  ℕ, ◌+◌, ◌≤◌, ◌<◌, true, false, if◌then◌else◌, Option, none, some, ◌≡◌, refl, ◌∙◌,
}
use libhat.Protector.Flags.{to_system_prot_win32}
use libhat.Protector.Linux.{MemoryProtector, is_set}
use libhat.Protector.Pages.{in_pages, in_pages-range, restored}

-- `VirtualProtect(address, size, protection, &old)`: the state after it, and the old protection unless it fails.
pub record WinMemory {ℓ} (S : Type ℓ) : Type ℓ where
  pub page_size : ℕ
  pub protection_at : S → ℕ → Option ℕ
  pub virtual_protect : S → ℕ → ℕ → ℕ → S × Option ℕ

module _ {ℓ} {S : Type ℓ} (system : WinMemory S) where
  abbrev pub constructed : ℕ → ℕ → S × Option ℕ → MemoryProtector × S
  constructed address size (s, none) =
      (record { address = address; size = size; old_protection = 0; set = false }, s)
  constructed address size (s, some old) =
      (record { address = address; size = size; old_protection = old; set = true }, s)

  -- The constructor.
  unfoldable pub construct : S → ℕ → ℕ → ℕ → MemoryProtector × S
  construct s address size flags =
      constructed address size
        (WinMemory.virtual_protect system s address size (to_system_prot_win32 flags))

  -- `restore` and the destructor.
  unfoldable pub restore : S → MemoryProtector → S
  restore s p = (WinMemory.virtual_protect system s p.address p.size p.old_protection).0

  unfoldable pub destroy : S → MemoryProtector → S
  destroy s p = let restored_state = restore s p in if p.set then restored_state else s

  -- What is documented of a call that succeeds: the old protection is that of the first page, the pages with
  -- a byte of the range have the new one, and the others keep theirs.
  pub record IsVirtualProtect : Type ℓ where
    pub positive : 0 < WinMemory.page_size system
    pub first_page :
        (s : S) (begin size prot old : ℕ)
        → (WinMemory.virtual_protect system s begin size prot).1 ≡ some old
        → WinMemory.protection_at system s begin ≡ some old
    pub changed :
        (s : S) (begin size prot old a : ℕ)
        → (WinMemory.virtual_protect system s begin size prot).1 ≡ some old
        → WinMemory.protection_at system (WinMemory.virtual_protect system s begin size prot).0 a
          ≡ (if in_pages (WinMemory.page_size system) begin size a
              then some prot
              else WinMemory.protection_at system s a)

  -- On Windows, if `VirtualProtect` changes the pages with a byte of its range and gives the
  -- protection of the first, the object is set, the pages had one protection and the call in the
  -- destructor succeeds, then every byte of the region has the flags that were asked for while the
  -- object lives, also across a page boundary, and after it every byte of memory has the
  -- protection of before.
  pub construct-destroy :
      (s : S) (address size flags now a b : ℕ)
      → IsVirtualProtect
      → is_set (construct s address size flags).0 ≡ true
      → (WinMemory.virtual_protect system
          (construct s address size flags).1
          address
          size
          (MemoryProtector.old_protection (construct s address size flags).0)).1
        ≡ some now
      → ((c : ℕ)
          → in_pages (WinMemory.page_size system) address size c ≡ true
          → WinMemory.protection_at system s c ≡ WinMemory.protection_at system s address)
      → address ≤ b
      → b < address + size
      → (WinMemory.protection_at system (construct s address size flags).1 b
          ≡ some (to_system_prot_win32 flags))
        × (WinMemory.protection_at system
              (destroy (construct s address size flags).1 (construct s address size flags).0)
              a
            ≡ WinMemory.protection_at system s a)
  unfolding construct destroy restore
  construct-destroy s address size flags now a b documented set ok uniform lo hi =
      go (WinMemory.virtual_protect system s address size (to_system_prot_win32 flags)).1 refl set
        ok
    where
      after : S
      after = (WinMemory.virtual_protect system s address size (to_system_prot_win32 flags)).0

      go :
          (o : Option ℕ)
          → (WinMemory.virtual_protect system s address size (to_system_prot_win32 flags)).1 ≡ o
          → is_set (constructed address size (after, o)).0 ≡ true
          → (WinMemory.virtual_protect system
              (constructed address size (after, o)).1
              address
              size
              (MemoryProtector.old_protection (constructed address size (after, o)).0)).1
            ≡ some now
          → (WinMemory.protection_at system (constructed address size (after, o)).1 b
              ≡ some (to_system_prot_win32 flags))
            × (WinMemory.protection_at system
                  (destroy
                    (constructed address size (after, o)).1
                    (constructed address size (after, o)).0)
                  a
                ≡ WinMemory.protection_at system s a)
      go none e h k = absurd (cc h)
      go (some old) e h k =
          let inside = in_pages-range _ address size b documented.positive lo hi in
          (
            documented.changed s address size _ old b e ∙ rw inside refl,
            restored (WinMemory.protection_at system)
                (in_pages (WinMemory.page_size system) address size) s after _
                (to_system_prot_win32 flags) old a (documented.changed s address size _ old a e)
                (documented.changed after address size old now a k)
                (λ within. uniform a within ∙ documented.first_page s address size _ old e),
          )
