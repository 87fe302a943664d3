-- ===== src/Bindings/ModuleScan.antt =====
-- `libhat_find_pattern_mod` scans the bytes of a section.
use libhat.Prelude.{
  Run, ℕ, ◌+◌, ◌-◌, ◌==◌, true, false, ◌≡◌, refl, sym, subst, ap, ◌∙◌, List, Option, none, some,
  length, arith,
}
use libhat.Signature.Element.{Signature}
use libhat.Scanner.Context.{Memory, IsBytes, ScanAlignment, occurs, Outcome, returned, timeout}
use libhat.Scanner.First.{IsFirst, Finds}
use libhat.Scanner.Resolve.{auto_mode}
use libhat.Scanner.FindPattern.{Machine, find_pattern}
use libhat.Scanner.Agree.{find_pattern-Finds}
use libhat.Modules.Spans.{ByteSpan}
use libhat.Bindings.Objects.{
  Heap, signature_object, module_object, check_type, type_of, signature_type_id, module_type_id,
}
use libhat.Bindings.Calls.{to_cpp_align}
use libhat.Bindings.IsHeap.{IsHeap}
use libhat.Bindings.Scan.{to_pointer}
use libhat.Bindings.ModuleCalls.{
  Modules, Answer, succeed, if_checked, scan_result, scan_section, scan_with_align,
  libhat_find_pattern_mod,
}

module _ (machine : Machine) (mem : Memory) (bytes : IsBytes mem) (ms : Modules) (heap : Heap)
    (inv : IsHeap heap) where
  -- A call that succeeds and writes the first occurrence in the bytes of a section, or null.
  abbrev pub IsSectionScan : Signature → ScanAlignment → ByteSpan → Answer ℕ → Type 0
  IsSectionScan sig alignment section call =
      (r : Option ℕ) × (call ≡ succeed heap (to_pointer r))
      × IsFirst (λ t. occurs mem sig alignment t) section.address
          (section.address + section.size + 1 - length sig) r

  scan_result-IsSectionScan :
      (sig : Signature) (alignment : ScanAlignment) (section : ByteSpan) (outcome : Outcome)
      → Finds
          (λ t. occurs mem sig alignment t)
          section.address
          (section.address + section.size + 1 - length sig)
          outcome
      → IsSectionScan sig alignment section (scan_result machine mem ms heap outcome)
  scan_result-IsSectionScan sig alignment section (returned none) found = (none, refl, found)
  scan_result-IsSectionScan sig alignment section (returned (some a)) found = (some a, refl, found)
  scan_result-IsSectionScan sig alignment section timeout found = absurd found

  -- In a well-formed heap and memory of bytes, for a live signature, a live module, one of the
  -- three alignments and a section that the module answers for, `libhat_find_pattern_mod`
  -- succeeds, leaves the heap alone and writes the first occurrence in the bytes of the section,
  -- or null when there is none.
  pub libhat_find_pattern_mod-IsSectionScan :
      (p q align hints base : ℕ) (name : List ℕ) (sig : Signature) (alignment : ScanAlignment)
      (section : ByteSpan)
      → heap p ≡ some (signature_object sig)
      → heap q ≡ some (module_object base)
      → (p == 0) ≡ false
      → (q == 0) ≡ false
      → to_cpp_align align ≡ some alignment
      → Modules.get_section_data ms base name ≡ Run.done section
      → IsSectionScan sig alignment section
          (libhat_find_pattern_mod machine mem ms heap p q (some name) true align hints)
  unfolding libhat_find_pattern_mod check_type
  libhat_find_pattern_mod-IsSectionScan p q align hints base name sig alignment section live live'
        not_null not_null' known found =
      let good = inv.objects p (signature_object sig) live in
      let scan = scan_result machine mem ms heap in
      let scans : if_checked heap (type_of (heap p) signature_type_id) (
            if_checked heap (type_of (heap q) module_type_id) (
              scan_with_align machine mem ms heap (heap p) (heap q) name (to_cpp_align align)
                hints))
          ≡ scan (
              find_pattern machine auto_mode mem section.address (section.address + section.size)
                sig alignment hints) =
        (λ i. if_checked heap (type_of (live i) signature_type_id) (
          if_checked heap (type_of (live' i) module_type_id)
            (scan_with_align machine mem ms heap (live i) (live' i) name (known i) hints)))
        ∙ ap (scan_section machine mem ms heap sig alignment hints) found in
      rw (not_null, not_null')
        (subst (IsSectionScan sig alignment section) (sym scans) (
          scan_result-IsSectionScan sig alignment section _ (
            find_pattern-Finds machine auto_mode mem section.address
              (section.address + section.size) sig alignment hints good.payload_ok.1 bytes
              (omega arith))))
