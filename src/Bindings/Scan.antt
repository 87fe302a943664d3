-- ===== src/Bindings/Scan.antt =====
-- `libhat_find_pattern` scans as the C++ interface does.
use libhat.Prelude.{
  ℕ, ◌+◌, ◌-◌, ◌==◌, Bool, true, false, not, ◌&&◌, ◌≡◌, refl, sym, subst, ◌∙◌, ap, length, Option,
  none, some, arith, Bool-cases, inl, inr,
}
use libhat.Signature.Element.{Signature}
use libhat.Scanner.Context.{Memory, IsBytes, ScanAlignment, occurs, Outcome, returned, timeout}
use libhat.Scanner.First.{IsFirst, Finds}
use libhat.Scanner.Resolve.{auto_mode}
use libhat.Scanner.FindPattern.{Machine, find_pattern}
use libhat.Scanner.Agree.{find_pattern-Finds}
use libhat.Bindings.Objects.{Heap, Call, signature_type_id, signature_object, type_of, check_type}
use libhat.Bindings.Calls.{
  Status, Out, to_cpp_align, with_result, is_buffer, scan_aligned, if_type, libhat_find_pattern,
}
use libhat.Bindings.IsHeap.{IsHeap}

-- The pointer that stands for a result.
abbrev pub to_pointer : Option ℕ → ℕ
to_pointer none = 0
to_pointer (some address) = address

-- A call that scans: it succeeds, and what it writes is the first occurrence, or null.
abbrev pub IsScan : Memory → Heap → Signature → ScanAlignment → ℕ → ℕ → Call (Status × Out) → Type 0
IsScan mem heap sig alignment buffer size call =
    (r : Option ℕ) × (call ≡ Call.returned heap (Status.success, Out.written (to_pointer r)))
    × IsFirst (λ t. occurs mem sig alignment t) buffer (buffer + size + 1 - length sig) r

with_result-IsScan :
    (mem : Memory) (heap : Heap) (sig : Signature) (alignment : ScanAlignment) (buffer size : ℕ)
    (outcome : Outcome)
    → Finds (λ t. occurs mem sig alignment t) buffer (buffer + size + 1 - length sig) outcome
    → IsScan mem heap sig alignment buffer size (with_result heap true outcome)
with_result-IsScan mem heap sig alignment buffer size (returned none) found = (none, refl, found)
with_result-IsScan mem heap sig alignment buffer size (returned (some a)) found =
    (some a, refl, found)
with_result-IsScan mem heap sig alignment buffer size timeout found = absurd found

-- A buffer that is not empty is not null.
is_buffer-null :
    (readable : ℕ → Bool) (buffer size : ℕ)
    → is_buffer readable buffer size ≡ true
    → (buffer == 0 && not (size == 0)) ≡ false
unfolding is_buffer
is_buffer-null readable buffer size h = elim (Bool-cases (size == 0)) [
  | inl e ↦ elim (Bool-cases (buffer == 0)) [ inl f ↦ rw (e, f) refl | inr f ↦ rw f refl ]
  | inr e ↦ elim (Bool-cases (buffer == 0)) [
    | inl f ↦ absurd (cc (rw (e, f) at h))
    | inr f ↦ rw f refl
  ]
]

module _ (machine : Machine) (readable : ℕ → Bool) (mem : Memory) (bytes : IsBytes mem)
    (heap : Heap) (inv : IsHeap heap) where
  abbrev scanned : ℕ → ℕ → ℕ → ℕ → ℕ → Call (Status × Out)
  scanned p buffer size align hints =
      if_type heap (type_of (heap p) signature_type_id) (
        scan_aligned machine readable mem heap (heap p) buffer size true (to_cpp_align align) hints)

  -- In a well-formed heap, for a live signature that is not null, a buffer that is empty or that
  -- is not null, ends below 2 ^ 64 and can be read, a result pointer, one of the three alignments
  -- and memory of bytes, `libhat_find_pattern` succeeds, leaves the heap alone and writes the
  -- first occurrence in the buffer, or null when there is none.
  pub libhat_find_pattern-IsScan :
      (p buffer size align hints : ℕ) (sig : Signature) (alignment : ScanAlignment)
      → heap p ≡ some (signature_object sig)
      → (p == 0) ≡ false
      → is_buffer readable buffer size ≡ true
      → to_cpp_align align ≡ some alignment
      → IsScan mem heap sig alignment buffer size
          (libhat_find_pattern machine readable mem heap p buffer size true align hints)
  unfolding libhat_find_pattern check_type
  libhat_find_pattern-IsScan p buffer size align hints sig alignment live not_null has_buffer
        known =
      let good = inv.objects p (signature_object sig) live in
      let scans : scanned p buffer size align hints
          ≡ with_result heap true
              (find_pattern machine auto_mode mem buffer (buffer + size) sig alignment hints) =
        ap
          (λ o.
            if_type heap (type_of o signature_type_id) (
              scan_aligned machine readable mem heap o buffer size true (to_cpp_align align) hints))
          live
        ∙ ap
            (λ a.
              scan_aligned machine readable mem heap (some (signature_object sig)) buffer size true
                a hints)
            known
        ∙ rw has_buffer refl in
      rw (not_null, is_buffer-null readable buffer size has_buffer)
        (subst (IsScan mem heap sig alignment buffer size) (sym scans) (
          with_result-IsScan mem heap sig alignment buffer size _ (
            find_pattern-Finds machine auto_mode mem buffer (buffer + size) sig alignment hints
              (good.payload_ok.1) bytes (omega arith))))
