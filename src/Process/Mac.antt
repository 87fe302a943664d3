-- ===== src/Process/Mac.antt =====
-- src/os/mac/Process.cpp: `regionHasFlags` and the questions that it answers, with `mach_vm_region` as a
-- parameter.
use libhat.Prelude.{
  ℕ, suc, ◌+◌, ◌<◌, ◌≤◌, bit_and, leb, ◌==◌, Bool, true, false, not, ◌&&◌, ◌≡◌, refl, ap, Option,
  none, some, if◌then◌else◌, arith,
}
use libhat.Process.Walk.{walk, IsLookup, IsAnswerFor, walk-IsAnswerFor}

-- The answer of `mach_vm_region`: the address and the size of a region, and its protection.
pub record VmRegion : Type 0 where
  pub vm_addr : ℕ
  pub size : ℕ
  pub protection : ℕ

-- The body of the loop. That the region holds the address is not tested.
abbrev pub checked_end : ℕ → Option VmRegion → Option ℕ
checked_end flags none = none
checked_end flags (some r) =
    if bit_and r.protection flags == 0 then none else some (r.vm_addr + r.size)

module _ (mach_vm_region : ℕ → Option VmRegion) where
  unfoldable pub region_has_flags : ℕ → ℕ → ℕ → Option Bool
  region_has_flags address size flags =
      walk (λ a. checked_end flags (mach_vm_region a)) (address + size) (suc size) address

  -- VM_PROT_READ is 1, VM_PROT_WRITE 2 and VM_PROT_EXECUTE 4.
  unfoldable pub is_readable : ℕ → ℕ → Option Bool
  is_readable address size = region_has_flags address size 1

  unfoldable pub is_writable : ℕ → ℕ → Option Bool
  is_writable address size = region_has_flags address size 2

  unfoldable pub is_executable : ℕ → ℕ → Option Bool
  is_executable address size = region_has_flags address size 4

  -- What is documented of `mach_vm_region`: the region is the first that does not end before the address, so
  -- up to its end the answer is the same.
  pub record IsVmRegion : Type 0 where
    pub ahead : (a : ℕ) (r : VmRegion) → mach_vm_region a ≡ some r → a < r.vm_addr + r.size
    pub uniform :
        (a x : ℕ) (r : VmRegion)
        → mach_vm_region a ≡ some r
        → a ≤ x
        → x < r.vm_addr + r.size
        → mach_vm_region x ≡ some r

  -- The region that is found at or behind an address has one of the flags.
  abbrev pub next_has_access : ℕ → Option VmRegion → Bool
  next_has_access flags none = false
  next_has_access flags (some r) = not (bit_and r.protection flags == 0)

  -- A byte lies in a region that has one of the flags.
  abbrev pub has_access : ℕ → ℕ → Option VmRegion → Bool
  has_access flags a none = false
  has_access flags a (some r) = leb r.vm_addr a && not (bit_and r.protection flags == 0)

  checked_end-some :
      (flags : ℕ) (o : Option VmRegion) (b : ℕ)
      → checked_end flags o ≡ some b
      → (r : VmRegion) × (o ≡ some r)
        × (b ≡ r.vm_addr + r.size)
        × (next_has_access flags (some r) ≡ true)
  checked_end-some flags none b h = absurd (cc h)
  checked_end-some flags (some r) b h = (r, refl, ground arith, ground arith)

  checked_end-none :
      (flags : ℕ) (o : Option VmRegion)
      → checked_end flags o ≡ none
      → next_has_access flags o ≡ false
  checked_end-none flags none h = refl
  checked_end-none flags (some r) h = ground arith

  lookup :
      (flags end : ℕ)
      → IsVmRegion
      → IsLookup
          (λ a. checked_end flags (mach_vm_region a))
          (λ a. next_has_access flags (mach_vm_region a))
          end
  lookup flags end documented = record {
    refused = λ a lt h. checked_end-none flags (mach_vm_region a) h;
    advances = λ a b lt h.
        let (r, e, last, access) = checked_end-some flags (mach_vm_region a) b h in
        omega (arith, documented.ahead a r e, last);
    passes = λ a b x lt h lo hi hi'.
        let (r, e, last, access) = checked_end-some flags (mach_vm_region a) b h in
        rw (documented.uniform a x r e lo (omega (arith, last))) access;
  }

  region_has_flags-next :
      (address size flags : ℕ)
      → IsVmRegion
      → IsAnswerFor
          (λ a. next_has_access flags (mach_vm_region a))
          address
          (address + size)
          (region_has_flags address size flags)
  unfolding region_has_flags
  region_has_flags-next address size flags documented =
      walk-IsAnswerFor (λ a. checked_end flags (mach_vm_region a))
        (λ a. next_has_access flags (mach_vm_region a)) (address + size)
        (lookup flags (address + size) documented) (suc size) address (omega arith)

  -- If `mach_vm_region` gives the first region that does not end before an address, and no byte of
  -- a range is mapped but the next region behind it can be read, then `is_readable` of macOS is
  -- true though no byte of the range can be read.
  pub is_readable-unmapped :
      (address size : ℕ) (r : VmRegion)
      → IsVmRegion
      → mach_vm_region address ≡ some r
      → address + size ≤ r.vm_addr
      → next_has_access 1 (some r) ≡ true
      → (is_readable address size ≡ some true)
        × ((x : ℕ) → address ≤ x → x < address + size → has_access 1 x (mach_vm_region x) ≡ false)
  unfolding is_readable
  is_readable-unmapped address size r documented found gap access =
      let same = λ (x : ℕ) (lo : address ≤ x) (hi : x < address + size).
        documented.uniform address x r found lo (omega arith) in
      (
        answered (region_has_flags address size 1) (region_has_flags-next address size 1 documented)
            (λ x lo hi. rw (same x lo hi) access),
        λ x lo hi.
            rw (same x lo hi)
              (let before : leb r.vm_addr x ≡ false = ground arith in rw before refl),
      )
    where
      answered :
          (o : Option Bool)
          → IsAnswerFor (λ a. next_has_access 1 (mach_vm_region a)) address (address + size) o
          → ((x : ℕ)
              → address ≤ x
              → x < address + size
              → next_has_access 1 (mach_vm_region x) ≡ true)
          → o ≡ some true
      answered none answer all = absurd answer
      answered (some b) answer all = ap some (answer.1 all)
