-- ===== src/Scanner/FindPattern.antt =====
-- include/libhat/scanner.hpp: `scan_context::scan`, `find_pattern` and the three `find_all_pattern`.
use libhat.Prelude.{ℕ, zero, suc, ◌+◌, ◌-◌, ltb, if◌then◌else◌, List, [], ◌∷◌}
use libhat.Prelude.{Option, none, some, length}
use libhat.Signature.Element.{Signature}
use libhat.Scanner.Context.{
  Memory, ScanAlignment, to_stride, ScanContext, create, Outcome, returned, timeout,
}
use libhat.Scanner.Resolve.{Scanner, run_scanner, ScanMode, Build, Extensions, resolve_scanner}

-- What the machine is: the build, the extensions that the compiler may assume and those that the
-- system reports.
pub record Machine : Type 0 where
  pub build : Build
  pub compiled : Extensions
  pub ext : Extensions

-- `scan_context::create<mode>`: the context and its scanner.
unfoldable pub create_scan :
    Machine → ScanMode → Signature → ScanAlignment → ℕ → Scanner × ScanContext
create_scan machine mode sig alignment hints =
    resolve_scanner mode machine.build machine.compiled machine.ext (create sig alignment hints)

-- `scan_context::scan`.
unfoldable pub scan : Memory → Scanner × ScanContext → ℕ → ℕ → Outcome
scan mem (scanner, ctx) begin end =
    if ltb (end - begin) (length ctx.signature)
    then returned none
    else run_scanner scanner ctx.alignment mem begin end ctx

-- The root `find_pattern`.
unfoldable pub find_pattern :
    Machine → ScanMode → Memory → ℕ → ℕ → Signature → ScanAlignment → ℕ → Outcome
find_pattern machine mode mem begin end sig alignment hints =
    scan mem (create_scan machine mode sig alignment hints) begin end

-- The loop of the `find_all_pattern` that writes to an output iterator of its own: the results from
-- `i` on. `none` is a loop whose fuel runs out, or a scan that does not end.
unfoldable pub find_all_loop : Memory → Scanner × ScanContext → ℕ → ℕ → ℕ → ℕ → Option (List ℕ)
find_all_loop mem context stride end zero i = none
find_all_loop mem context stride end (suc fuel) i =
    let rest : Option (List ℕ) = elim (scan mem context i end) [
      | timeout ↦ none
      | returned none ↦ some []
      | returned (some s) ↦ elim (find_all_loop mem context stride end fuel (s + stride)) [
        | none ↦ none
        | some found ↦ some (s ∷ found)
      ]
    ] in
    if ltb i end then rest else some []

-- `find_all_pattern(begin, end, out, …)` with its number of matches, and the wrapper that returns a
-- vector.
unfoldable pub find_all_pattern :
    Machine → ScanMode → Memory → ℕ → ℕ → Signature → ScanAlignment → ℕ → Option (List ℕ)
find_all_pattern machine mode mem begin end sig alignment hints =
    find_all_loop mem (create_scan machine mode sig alignment hints) (to_stride alignment) end
      (suc (end - begin)) begin

-- The loop of the `find_all_pattern` with an output range that has room for `space` results: where the
-- search stopped, and the results.
unfoldable pub find_some_loop :
    Memory → Scanner × ScanContext → ℕ → ℕ → ℕ → ℕ → ℕ → Option (ℕ × List ℕ)
find_some_loop mem context stride end zero space i = none
find_some_loop mem context stride end (suc fuel) zero i = some (i, [])
find_some_loop mem context stride end (suc fuel) (suc space) i =
    let rest : Option (ℕ × List ℕ) = elim (scan mem context i end) [
      | timeout ↦ none
      | returned none ↦ some (end, [])
      | returned (some s) ↦ elim (find_some_loop mem context stride end fuel space (s + stride)) [
        | none ↦ none
        | some (stopped, found) ↦ some (stopped, s ∷ found)
      ]
    ] in
    if ltb i end then rest else some (i, [])

unfoldable pub find_some_pattern :
    Machine → ScanMode → Memory → ℕ → ℕ → ℕ → Signature → ScanAlignment → ℕ → Option (ℕ × List ℕ)
find_some_pattern machine mode mem begin end space sig alignment hints =
    find_some_loop mem (create_scan machine mode sig alignment hints) (to_stride alignment) end
      (suc (end - begin)) space begin
