-- ===== src/Scanner/Single.antt =====
-- include/libhat/scanner.hpp: `find_pattern_single`, the scanner that goes byte by byte.
use libhat.Prelude.{
  ℕ, zero, suc, ◌+◌, ◌-◌, ◌==◌, leb, true, false, if◌then◌else◌, Option, none, some, get_or, length,
}
use libhat.Signature.Element.{SignatureElement, nullopt_element}
use libhat.Scanner.Context.{
  Memory, ScanAlignment, x1, x4, x16, ScanContext, align_up, equal_at, Outcome, returned, timeout,
}

-- `std::memchr(i, c, n)`.
unfoldable pub memchr : Memory → ℕ → ℕ → ℕ → Option ℕ
memchr mem i c zero = none
memchr mem i c (suc n) = if mem i == c then some i else memchr mem (i + 1) c n

-- `*signature[cmpIndex]`; past the end, where C++ leaves it undefined, 0 is read.
abbrev pub cmp_byte : ScanContext → ℕ
cmp_byte ctx = SignatureElement.value (get_or ctx.signature ctx.cmp_index nullopt_element)

module _ (mem : Memory) (ctx : ScanContext) (scan_end : ℕ) where
  -- The loop for the alignments X4 and X16.
  unfoldable pub stride_loop : ℕ → ℕ → ℕ → Outcome
  stride_loop stride zero i = timeout
  stride_loop stride (suc fuel) i =
      let rest = stride_loop stride fuel (i + stride) in
      let start = i - ctx.cmp_index in
      if i == scan_end
      then returned none
      else if mem i == cmp_byte ctx
      then (if equal_at mem ctx.signature start then returned (some start) else rest)
      else rest

  -- The loop for X1, which skips to the next byte that compares equal.
  unfoldable pub byte_loop : ℕ → ℕ → Outcome
  byte_loop zero i = timeout
  byte_loop (suc fuel) i =
      let next : Outcome = elim (memchr mem i (cmp_byte ctx) (scan_end - i)) [
        | none ↦ returned none
        | some j ↦ elim (equal_at mem ctx.signature (j - ctx.cmp_index)) [
          | true ↦ returned (some (j - ctx.cmp_index))
          | false ↦ byte_loop fuel (j + 1)
        ]
      ] in
      if i == scan_end then returned none else next

-- `find_pattern_single<X4>` and `<X16>`.
unfoldable pub find_strided : ℕ → Memory → ℕ → ℕ → ScanContext → Outcome
find_strided stride mem begin end ctx =
    let scan_begin = align_up stride begin + ctx.cmp_index in
    let scan_end = align_up stride (end - length ctx.signature + 1) + ctx.cmp_index in
    if leb scan_end scan_begin
    then returned none
    else stride_loop mem ctx scan_end stride (scan_end - scan_begin + 1) scan_begin

-- `find_pattern_single<X1>`.
unfoldable pub find_bytewise : Memory → ℕ → ℕ → ScanContext → Outcome
find_bytewise mem begin end ctx =
    let scan_begin = begin + ctx.cmp_index in
    let scan_end = end - length ctx.signature + 1 + ctx.cmp_index in
    byte_loop mem ctx scan_end (scan_end - scan_begin + 1) scan_begin

-- `find_pattern_single<alignment>`.
unfoldable pub find_pattern_single : ScanAlignment → Memory → ℕ → ℕ → ScanContext → Outcome
unfolding find_strided find_bytewise
find_pattern_single x1 mem begin end ctx = find_bytewise mem begin end ctx
find_pattern_single x4 mem begin end ctx = find_strided 4 mem begin end ctx
find_pattern_single x16 mem begin end ctx = find_strided 16 mem begin end ctx
