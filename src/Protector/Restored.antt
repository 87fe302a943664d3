-- ===== src/Protector/Restored.antt =====
-- What a `memory_protector` does to the protection of memory while it lives and when it ends.
use libhat.Prelude.{
  ℕ, ◌+◌, ◌%◌, ◌^◌, ◌≤◌, ◌<◌, Bool, true, if◌then◌else◌, Option, none, some, ◌≡◌, refl, ◌∙◌, arith,
}
use libhat.Protector.Align.{fast_align_down, fast_align_up}
use libhat.Protector.AlignLaws.{pow_pos, fast_align_down_lem, fast_align_up_lem}
use libhat.Protector.Flags.{to_system_prot}
use libhat.Protector.Linux.{
  System, MemoryProtector, protection_at, constructed, construct, restore, destroy, move, is_set,
}
use libhat.Protector.Bits.{get_page_prot-lt, to_system_prot-lt}
use libhat.Protector.Pages.{in_pages, in_pages-range, restored}

-- The documented behaviour of a call of `mprotect` that returns 0, with no other flags than PROT_READ,
-- PROT_WRITE and PROT_EXEC: every page with a byte of the range has the protection, and the other bytes
-- keep theirs.
abbrev pub IsMprotect {ℓ} : {S : Type ℓ} → System S → Type ℓ
IsMprotect {S = S} system =
    (s : S) (begin size prot a : ℕ)
    → prot < 8
    → (System.mprotect system s begin size prot).1 ≡ true
    → protection_at system (System.mprotect system s begin size prot).0 a ≡ (
        if in_pages (System.page_size system) begin size a
        then some prot
        else protection_at system s a)

-- Whether a byte lies in the pages that an object changes.
abbrev pub in_changed_pages {ℓ} : {S : Type ℓ} → System S → ℕ → ℕ → ℕ → Bool
in_changed_pages system address size a =
    in_pages (System.page_size system) (fast_align_down address (System.page_size system))
      (fast_align_up size (System.page_size system)) a

module _ {ℓ} {S : Type ℓ} (system : System S) where
  -- On Linux, if a successful `mprotect`, with no flags but the three of `to_system_prot`, changes
  -- just the pages with a byte of its range, the object is set, the call in the destructor returns
  -- 0 and the pages of the object had the protection of the byte at the address, then while the
  -- object lives these pages have the flags that were asked for and all other bytes what they had,
  -- and after it every byte of memory has the protection of before.
  pub destroy-construct :
      (s : S) (address size flags a : ℕ)
      → IsMprotect system
      → is_set (construct system s address size flags).0 ≡ true
      → (System.mprotect system
          (construct system s address size flags).1
          (fast_align_down address (system.page_size))
          (fast_align_up size (system.page_size))
          (MemoryProtector.old_protection (construct system s address size flags).0)).1
        ≡ true
      → ((b : ℕ)
          → in_changed_pages system address size b ≡ true
          → protection_at system s b ≡ protection_at system s address)
      → (protection_at system (construct system s address size flags).1 a ≡ (
          if in_changed_pages system address size a
          then some (to_system_prot flags)
          else protection_at system s a))
        × (protection_at system
              (destroy system
                (construct system s address size flags).1
                (construct system s address size flags).0)
              a
            ≡ protection_at system s a)
  unfolding construct destroy restore
  destroy-construct s address size flags a kernel set ok uniform =
      go (protection_at system s address) refl set ok
    where
      go :
          (o : Option ℕ)
          → protection_at system s address ≡ o
          → is_set (constructed system s address size flags o).0 ≡ true
          → (System.mprotect system
              (constructed system s address size flags o).1
              (fast_align_down address (system.page_size))
              (fast_align_up size (system.page_size))
              (MemoryProtector.old_protection (constructed system s address size flags o).0)).1
            ≡ true
          → (protection_at system (constructed system s address size flags o).1 a ≡ (
              if in_changed_pages system address size a
              then some (to_system_prot flags)
              else protection_at system s a))
            × (protection_at system
                  (destroy system
                    (constructed system s address size flags o).1
                    (constructed system s address size flags o).0)
                  a
                ≡ protection_at system s a)
      go none e h k = absurd (cc h)
      go (some old) e h k =
          let begin = fast_align_down address (system.page_size) in
          let length = fast_align_up size (system.page_size) in
          let after = (System.mprotect system s begin length (to_system_prot flags)).0 in
          let first = kernel s begin length (to_system_prot flags) a (to_system_prot-lt flags) h in
          let final : protection_at system (System.mprotect system after begin length old).0 a
              ≡ protection_at system s a =
            restored (protection_at system) (in_changed_pages system address size) s after _
              (to_system_prot flags) old a first
              (kernel after begin length old a (get_page_prot-lt _ address old e) k)
              (λ inside. uniform a inside ∙ e) in
          (first, rw h final)

  -- After a move, the ends of the two objects together leave the system as the end of the one
  -- would have left it.
  destroy-move :
      (s : S) (p : MemoryProtector)
      → destroy system (destroy system s (move p).1) (move p).0 ≡ destroy system s p
  unfolding destroy restore
  destroy-move s p = refl

-- For a page size that is a power of two up to 2 ^ 64, an address below 2 ^ 64 at the begin of a
-- page and a size that can be rounded up without wrapping, every byte of the region lies in the
-- pages that `mprotect` changes.
changed_region :
    (k address size a : ℕ)
    → k ≤ 64
    → address % 2 ^ k ≡ 0
    → address < 2 ^ 64
    → size + 2 ^ k ≤ 2 ^ 64
    → address ≤ a
    → a < address + size
    → in_pages (2 ^ k) (fast_align_down address (2 ^ k)) (fast_align_up size (2 ^ k)) a ≡ true
changed_region k address size a le aligned small fits lo hi =
    let up = fast_align_up_lem k size le fits in
    rw (fast_align_down_lem k address le small) (
      in_pages-range (2 ^ k) _ _ a (pow_pos k) (omega (arith, lo))
        (omega (arith, hi, up.1, aligned)))
