-- ===== src/Process/Regions.antt =====
-- src/os/linux/Process.cpp: `regionHasFlag`, `is_readable`, `is_writable` and `is_executable`;
-- src/os/linux/MemoryProtector.cpp: `get_page_prot`.
use libhat.Prelude.{
  ℕ, ◌+◌, ◌%◌, ◌^◌, bit_and, ◌==◌, ltb, leb, Bool, true, false, not, ◌&&◌, ◌||◌, if◌then◌else◌,
}
use libhat.Prelude.{List, Option, none, some}
use libhat.Process.Maps.{Region, iter_mapped_regions, prot_read, prot_write, prot_exec}

abbrev pub has_flag : ℕ → ℕ → Bool
has_flag flags prot = not (bit_and prot flags == 0)

-- The variables that the lambda changes: `begin` and `found`.
pub record Cursor : Type 0 where
  pub begin : ℕ
  pub found : Bool

-- The lambda of `regionHasFlag`.
unfoldable pub region_step : ℕ → ℕ → Cursor → Region → Cursor × Bool
region_step flags end s r =
    let found = s.found || (leb r.first s.begin && ltb s.begin r.last) in
    let seen : Cursor = record { begin = s.begin; found = found } in
    let moved : Cursor = record { begin = r.last; found = true } in
    if s.found && not (r.first == s.begin)
    then (s, false)
    else if found
    then (if has_flag flags r.prot
        then (moved, ltb r.last end && leb r.first r.last)
        else (seen, false))
    else (seen, ltb s.begin end && leb r.first s.begin)

-- `regionHasFlag` of the region of `size` bytes at `address`.
unfoldable pub region_has_flag : List (List ℕ) → ℕ → ℕ → ℕ → Bool
region_has_flag lines address size flags =
    let end = (address + size) % 2 ^ 64 in
    let start : Cursor = record { begin = address; found = false } in
    if size == 0
    then false
    else leb end (Cursor.begin (iter_mapped_regions (region_step flags end) start lines))

unfoldable pub is_readable : List (List ℕ) → ℕ → ℕ → Bool
unfolding region_has_flag
is_readable lines address size = region_has_flag lines address size prot_read

unfoldable pub is_writable : List (List ℕ) → ℕ → ℕ → Bool
unfolding region_has_flag
is_writable lines address size = region_has_flag lines address size prot_write

unfoldable pub is_executable : List (List ℕ) → ℕ → ℕ → Bool
unfolding region_has_flag
is_executable lines address size = region_has_flag lines address size prot_exec

-- The lambda of `get_page_prot`.
abbrev pub page_step : ℕ → Option ℕ → Region → Option ℕ × Bool
page_step address result r =
    if leb r.first address && ltb address r.last then (some r.prot, false) else (result, true)

unfoldable pub get_page_prot : List (List ℕ) → ℕ → Option ℕ
get_page_prot lines address = iter_mapped_regions (page_step address) none lines
