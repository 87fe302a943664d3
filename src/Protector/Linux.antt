-- ===== src/Protector/Linux.antt =====
-- include/libhat/memory_protector.hpp and src/os/linux/MemoryProtector.cpp. The system is a state of
-- which /proc/self/maps shows the lines, and `mprotect` a step of it that may fail.
use libhat.Prelude.{ℕ, Bool, false, if◌then◌else◌, List, Option, none, some}
use libhat.Process.Regions.{get_page_prot}
use libhat.Protector.Align.{fast_align_down, fast_align_up}
use libhat.Protector.Flags.{to_system_prot}

-- What the kernel does: `mprotect(address, length, prot)` gives the state after it and whether it
-- returned 0.
pub record System {ℓ} (S : Type ℓ) : Type ℓ where
  pub page_size : ℕ
  pub maps : S → List (List ℕ)
  pub mprotect : S → ℕ → ℕ → ℕ → S × Bool

-- The members of the class.
pub record MemoryProtector : Type 0 where
  pub address : ℕ
  pub size : ℕ
  pub old_protection : ℕ
  pub set : Bool

module _ {ℓ} {S : Type ℓ} (system : System S) where
  -- The protection of the byte at an address, if it is mapped.
  abbrev pub protection_at : S → ℕ → Option ℕ
  protection_at s address = get_page_prot (system.maps s) address

  -- The bytes of the pages that an object changes.
  abbrev pub range_begin : MemoryProtector → ℕ
  range_begin p = fast_align_down p.address system.page_size

  abbrev pub range_size : MemoryProtector → ℕ
  range_size p = fast_align_up p.size system.page_size

  -- The constructor behind its call of `get_page_prot`.
  abbrev pub constructed : S → ℕ → ℕ → ℕ → Option ℕ → MemoryProtector × S
  constructed s address size flags none =
      (record { address = address; size = size; old_protection = 0; set = false }, s)
  constructed s address size flags (some old) =
      let (s', set) =
        system.mprotect s (fast_align_down address system.page_size)
          (fast_align_up size system.page_size) (to_system_prot flags) in
      (record { address = address; size = size; old_protection = old; set = set }, s')

  -- The constructor.
  unfoldable pub construct : S → ℕ → ℕ → ℕ → MemoryProtector × S
  construct s address size flags = constructed s address size flags (protection_at s address)

  -- `restore` drops what `mprotect` returns.
  unfoldable pub restore : S → MemoryProtector → S
  restore s p = (system.mprotect s (range_begin p) (range_size p) p.old_protection).0

  -- The destructor.
  unfoldable pub destroy : S → MemoryProtector → S
  destroy s p = let restored = restore s p in if p.set then restored else s

-- The move constructor: the new object, and what is left of the old one.
abbrev pub move : MemoryProtector → MemoryProtector × MemoryProtector
move o = (
  record { address = o.address; size = o.size; old_protection = o.old_protection; set = o.set },
  record { address = o.address; size = o.size; old_protection = o.old_protection; set = false },
)

abbrev pub is_set : MemoryProtector → Bool
is_set p = p.set
