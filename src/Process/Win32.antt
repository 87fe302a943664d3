-- ===== src/Process/Win32.antt =====
-- src/os/win32/Process.cpp: `regionHasFlags` and the questions that it answers, with `VirtualQuery` as a
-- parameter.
use libhat.Prelude.{
  ℕ, suc, ◌+◌, ◌<◌, ◌≤◌, bit_and, ◌==◌, Bool, true, false, not, ◌&&◌, ◌≡◌, refl, Option, none, some,
  if◌then◌else◌, arith,
}
use libhat.Process.Walk.{walk, IsLookup, IsAnswerFor, walk-IsAnswerFor}

-- `MEMORY_BASIC_INFORMATION`, the fields that are read.
pub record MemoryInfo : Type 0 where
  pub base_address : ℕ
  pub region_size : ℕ
  pub state : ℕ
  pub protect : ℕ

abbrev pub mem_commit : ℕ
mem_commit = 0x1000

-- The body of the loop: the end of a region that passes.
abbrev pub checked_end : ℕ → Option MemoryInfo → Option ℕ
checked_end flags none = none
checked_end flags (some mbi) =
    if not (mbi.state == mem_commit)
    then none
    else if bit_and mbi.protect flags == 0
    then none
    else some (mbi.base_address + mbi.region_size)

module _ (virtual_query : ℕ → Option MemoryInfo) where
  -- The loop looks a region up at most once for each byte.
  unfoldable pub region_has_flags : ℕ → ℕ → ℕ → Option Bool
  region_has_flags address size flags =
      walk (λ a. checked_end flags (virtual_query a)) (address + size) (suc size) address

  -- PAGE_EXECUTE is 0x10, and then PAGE_EXECUTE_READ, PAGE_EXECUTE_READWRITE and PAGE_EXECUTE_WRITECOPY;
  -- PAGE_READONLY is 0x02, and then PAGE_READWRITE and PAGE_WRITECOPY.
  unfoldable pub is_readable : ℕ → ℕ → Option Bool
  is_readable address size = region_has_flags address size 0xEE

  unfoldable pub is_writable : ℕ → ℕ → Option Bool
  is_writable address size = region_has_flags address size 0xCC

  unfoldable pub is_executable : ℕ → ℕ → Option Bool
  is_executable address size = region_has_flags address size 0xF0

  -- What is documented of `VirtualQuery`: the region holds the address, and its pages have one state and one
  -- protection.
  pub record IsVirtualQuery : Type 0 where
    pub holds :
        (a : ℕ) (mbi : MemoryInfo)
        → virtual_query a ≡ some mbi
        → (mbi.base_address ≤ a) × (a < mbi.base_address + mbi.region_size)
    pub uniform :
        (a x : ℕ) (mbi : MemoryInfo)
        → virtual_query a ≡ some mbi
        → a ≤ x
        → x < mbi.base_address + mbi.region_size
        → (mbi' : MemoryInfo) × (virtual_query x ≡ some mbi')
          × (mbi'.state ≡ mbi.state)
          × (mbi'.protect ≡ mbi.protect)

  -- A byte is committed and its page has one of the flags.
  abbrev pub has_access : ℕ → Option MemoryInfo → Bool
  has_access flags none = false
  has_access flags (some mbi) = mbi.state == mem_commit && not (bit_and mbi.protect flags == 0)

  module _ (documented : IsVirtualQuery) (flags end : ℕ) where
    checked_end-none :
        (o : Option MemoryInfo) → checked_end flags o ≡ none → has_access flags o ≡ false
    checked_end-none none h = refl
    checked_end-none (some mbi) h = ground arith

    checked_end-some :
        (o : Option MemoryInfo) (b : ℕ)
        → checked_end flags o ≡ some b
        → (mbi : MemoryInfo) × (o ≡ some mbi)
          × (b ≡ mbi.base_address + mbi.region_size)
          × (has_access flags (some mbi) ≡ true)
    checked_end-some none b h = absurd (cc h)
    checked_end-some (some mbi) b h = (mbi, refl, ground arith, ground arith)

    lookup :
        IsLookup
          (λ a. checked_end flags (virtual_query a))
          (λ a. has_access flags (virtual_query a))
          end
    lookup = record {
      refused = λ a lt h. checked_end-none (virtual_query a) h;
      advances = λ a b lt h.
          let (mbi, e, last, access) = checked_end-some (virtual_query a) b h in
          omega (arith, (documented.holds a mbi e).1, last);
      passes = λ a b x lt h lo hi hi'.
          let (mbi, e, last, access) = checked_end-some (virtual_query a) b h in
          let (mbi', e', state, protect) = documented.uniform a x mbi e lo (omega (arith, last)) in
          rw (e', state, protect) access;
    }

  -- If `VirtualQuery` gives the region around an address, with one state and one protection for
  -- its pages, then `regionHasFlags` of Windows always ends, and its answer is true exactly when
  -- each byte of the range is committed and its page has one of the flags.
  pub region_has_flags-IsAnswerFor :
      (address size flags : ℕ)
      → IsVirtualQuery
      → IsAnswerFor
          (λ a. has_access flags (virtual_query a))
          address
          (address + size)
          (region_has_flags address size flags)
  unfolding region_has_flags
  region_has_flags-IsAnswerFor address size flags documented =
      walk-IsAnswerFor (λ a. checked_end flags (virtual_query a))
        (λ a. has_access flags (virtual_query a)) (address + size)
        (lookup documented flags (address + size)) (suc size) address (omega arith)
