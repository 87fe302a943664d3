-- ===== src/Protector/Mac.antt =====
-- src/os/mac/MemoryProtector.cpp, with `mach_vm_region` as a question to the system and `mach_vm_protect` as a
-- step of it that may fail.
use libhat.Prelude.{
  ℕ, ◌+◌, ◌≤◌, ◌<◌, leb, Bool, true, false, if◌then◌else◌, Option, none, some, ◌≡◌, refl, ap, ◌∙◌,
  sym, Bool-cases, inl, inr,
}
use mathlib.Core.Option.{some_inj}
use libhat.Process.Mac.{VmRegion}
use libhat.Protector.Flags.{to_system_prot}
use libhat.Protector.Linux.{MemoryProtector, is_set}
use libhat.Protector.Pages.{in_pages, in_pages-range, restored}

pub record MacMemory {ℓ} (S : Type ℓ) : Type ℓ where
  pub page_size : ℕ
  pub mach_vm_region : S → ℕ → Option VmRegion
  pub mach_vm_protect : S → ℕ → ℕ → ℕ → S × Bool

-- The protection of the region that the system answers with.
abbrev pub region_prot : Option VmRegion → Option ℕ
region_prot none = none
region_prot (some r) = some (VmRegion.protection r)

-- The protection of a byte: the region that the system answers with may lie behind it.
abbrev pub byte_prot : ℕ → Option VmRegion → Option ℕ
byte_prot a none = none
byte_prot a (some r) = if leb (VmRegion.vm_addr r) a then some (VmRegion.protection r) else none

module _ {ℓ} {S : Type ℓ} (system : MacMemory S) where
  unfoldable pub get_page_prot : S → ℕ → Option ℕ
  get_page_prot s address = region_prot (MacMemory.mach_vm_region system s address)

  abbrev pub protection_at : S → ℕ → Option ℕ
  protection_at s a = byte_prot a (MacMemory.mach_vm_region system s a)

  -- The constructor behind its call of `get_page_prot`.
  abbrev pub constructed : S → ℕ → ℕ → ℕ → Option ℕ → MemoryProtector × S
  constructed s address size flags none =
      (record { address = address; size = size; old_protection = 0; set = false }, s)
  constructed s address size flags (some old) =
      let (s', set) = MacMemory.mach_vm_protect system s address size (to_system_prot flags) in
      (record { address = address; size = size; old_protection = old; set = set }, s')

  -- The constructor.
  unfoldable pub construct : S → ℕ → ℕ → ℕ → MemoryProtector × S
  construct s address size flags = constructed s address size flags (get_page_prot s address)

  -- `restore` and the destructor.
  unfoldable pub restore : S → MemoryProtector → S
  restore s p = (MacMemory.mach_vm_protect system s p.address p.size p.old_protection).0

  unfoldable pub destroy : S → MemoryProtector → S
  destroy s p = let restored_state = restore s p in if p.set then restored_state else s

  -- What is documented of a call that succeeds: the pages with a byte of the range have the new protection,
  -- and the others keep theirs.
  pub record IsMachProtect : Type ℓ where
    pub positive : 0 < MacMemory.page_size system
    pub changed :
        (s : S) (begin size prot a : ℕ)
        → (MacMemory.mach_vm_protect system s begin size prot).1 ≡ true
        → protection_at (MacMemory.mach_vm_protect system s begin size prot).0 a ≡ (
            if in_pages (MacMemory.page_size system) begin size a
            then some prot
            else protection_at s a)

  -- The page of a mapped byte has the protection that `get_page_prot` gives.
  get_page_prot-mapped :
      (s : S) (address old q : ℕ)
      → protection_at s address ≡ some old
      → get_page_prot s address ≡ some q
      → old ≡ q
  unfolding get_page_prot
  get_page_prot-mapped s address old q mapped e =
      go (MacMemory.mach_vm_region system s address) mapped e
    where
      go : (o : Option VmRegion) → byte_prot address o ≡ some old → region_prot o ≡ some q → old ≡ q
      go none h k = absurd (cc k)
      go (some r) h k = elim (Bool-cases (leb (VmRegion.vm_addr r) address)) [
        | inl holds ↦ sym (some_inj.0 (rw holds at h)) ∙ some_inj.0 k
        | inr ahead ↦ absurd (cc (rw ahead at h))
      ]

  -- As on Windows, if the byte at the address is mapped.
  construct-destroy :
      (s : S) (address size flags old a b : ℕ)
      → IsMachProtect
      → is_set (construct s address size flags).0 ≡ true
      → (MacMemory.mach_vm_protect system
          (construct s address size flags).1
          address
          size
          (MemoryProtector.old_protection (construct s address size flags).0)).1
        ≡ true
      → protection_at s address ≡ some old
      → ((c : ℕ)
          → in_pages (MacMemory.page_size system) address size c ≡ true
          → protection_at s c ≡ some old)
      → address ≤ b
      → b < address + size
      → (protection_at (construct s address size flags).1 b ≡ some (to_system_prot flags))
        × (protection_at
              (destroy (construct s address size flags).1 (construct s address size flags).0)
              a
            ≡ protection_at s a)
  unfolding construct destroy restore
  construct-destroy s address size flags old a b documented set ok mapped uniform lo hi =
      go (get_page_prot s address) refl set ok
    where
      go :
          (o : Option ℕ)
          → get_page_prot s address ≡ o
          → is_set (constructed s address size flags o).0 ≡ true
          → (MacMemory.mach_vm_protect system
              (constructed s address size flags o).1
              address
              size
              (MemoryProtector.old_protection (constructed s address size flags o).0)).1
            ≡ true
          → (protection_at (constructed s address size flags o).1 b ≡ some (to_system_prot flags))
            × (protection_at
                  (destroy
                    (constructed s address size flags o).1
                    (constructed s address size flags o).0)
                  a
                ≡ protection_at s a)
      go none e h k = absurd (cc h)
      go (some q) e h k =
          let after = (MacMemory.mach_vm_protect system s address size (to_system_prot flags)).0 in
          let inside = in_pages-range _ address size b documented.positive lo hi in
          let final : protection_at (MacMemory.mach_vm_protect system after address size q).0 a
              ≡ protection_at s a =
            restored protection_at (in_pages (MacMemory.page_size system) address size) s after _
              (to_system_prot flags) q a (documented.changed s address size _ a h)
              (documented.changed after address size q a k)
              (λ within.
                uniform a within ∙ ap some (get_page_prot-mapped s address old q mapped e)) in
          (documented.changed s address size _ b h ∙ rw inside refl, rw h final)
