-- ===== src/Scanner/Context.antt =====
-- include/libhat/scanner.hpp: alignments, hints, the scan context and what a scan reads.
-- A pointer is its address, a number: pointer arithmetic inside an object does not wrap.
use libhat.Prelude.{ℕ, suc, ◌+◌, ◌-◌, ◌%◌, ◌<◌, ◌==◌, bit_and, Bool, true, not, ◌&&◌}
use libhat.Prelude.{if◌then◌else◌, [], ◌∷◌, Option, none}
use libhat.Signature.Element.{Signature, all, element_matches}

-- The bytes of the process, by address.
abbrev pub Memory : Type 0
Memory = ℕ → ℕ

abbrev pub IsBytes : Memory → Type 0
IsBytes mem = (address : ℕ) → mem address < 256

pub data ScanAlignment : Type 0 where
  x1 : ScanAlignment
  x4 : ScanAlignment
  x16 : ScanAlignment

abbrev pub to_stride : ScanAlignment → ℕ
to_stride x1 = 1
to_stride x4 = 4
to_stride x16 = 16

-- `scan_hint`, and the test `static_cast<bool>(hints & hint)`.
abbrev pub none_hint : ℕ
none_hint = 0

abbrev pub x86_64_hint : ℕ
x86_64_hint = 1

abbrev pub pair0_hint : ℕ
pair0_hint = 2

abbrev pub aarch64_hint : ℕ
aarch64_hint = 4

abbrev pub has_hint : ℕ → ℕ → Bool
has_hint hints hint = not (bit_and hints hint == 0)

-- `scan_context`, less the function pointer that `resolve_scanner` picks.
pub record ScanContext : Type 0 where
  pub signature : Signature
  pub alignment : ScanAlignment
  pub hints : ℕ
  pub cmp_index : ℕ
  pub pair_index : Option ℕ

-- The loop of `scan_context::create` that counts the elements before the first whole byte.
unfoldable pub first_full : Signature → ℕ
first_full [] = 0
first_full (e ∷ sig) = if all e then 0 else suc (first_full sig)

unfoldable pub create : Signature → ScanAlignment → ℕ → ScanContext
create sig alignment hints = record {
  signature = sig;
  alignment = alignment;
  hints = hints;
  cmp_index = first_full sig;
  pair_index = none;
}

-- `align_up<alignment>`.
unfoldable pub align_up : ℕ → ℕ → ℕ
align_up alignment address =
    address + (if address % alignment == 0 then 0 else alignment - address % alignment)

-- `std::equal(signature.begin(), signature.end(), start)`.
unfoldable pub equal_at : Memory → Signature → ℕ → Bool
equal_at mem [] start = true
equal_at mem (e ∷ sig) start = element_matches e (mem start) && equal_at mem sig (start + 1)

-- What a scanner returns: an address or null. A loop whose fuel runs out gives `timeout`.
pub data Outcome : Type 0 where
  returned : Option ℕ → Outcome
  timeout : Outcome

-- Whether the signature stands at an aligned address: what every scanner looks for.
unfoldable pub occurs : Memory → Signature → ScanAlignment → ℕ → Bool
occurs mem sig alignment start = start % to_stride alignment == 0 && equal_at mem sig start
