-- ===== src/Bindings/Answered.antt =====
-- bindings/c/src/libhat.cpp: which status `libhat_find_pattern` gives, as the table of bindings/c/README.md has it.
use libhat.Prelude.{
  ℕ, ◌+◌, ◌-◌, ◌==◌, ==_iff, Bool, true, false, not, ◌&&◌, ◌||◌, ◌≡◌, refl, sym, subst, length,
  none, some, Bool-cases, inl, inr, ◌⊎◌, arith,
}
use libhat.Signature.Element.{Signature}
use libhat.Scanner.Context.{Memory, IsBytes, ScanAlignment, x1, x4, x16, occurs, Outcome}
use libhat.Scanner.Context.{returned, timeout}
use libhat.Scanner.First.{Finds}
use libhat.Scanner.Resolve.{auto_mode}
use libhat.Scanner.FindPattern.{Machine}
use libhat.Scanner.Agree.{find_pattern-Finds}
use libhat.Bindings.Objects.{
  Heap, Call, FfiObject, Payload, object_magic, signature_type_id, is_type, type_of, check_type,
}
use libhat.Bindings.Calls.{
  Status, Out, to_cpp_align, with_result, is_buffer, scan_aligned, if_type, libhat_find_pattern,
}
use libhat.Bindings.IsHeap.{IsHeap, IsObject, IsPayload}

-- An argument that must not be null is null.
abbrev pub HasNull : ℕ → ℕ → ℕ → Bool → Type 0
HasNull p buffer size has_out = (p ≡ 0) ⊎ (((buffer ≡ 0) × ¬ (size ≡ 0)) ⊎ (has_out ≡ false))

abbrev pub IsAlignment : ℕ → Type 0
IsAlignment align = (align ≡ 1) ⊎ ((align ≡ 4) ⊎ (align ≡ 16))

abbrev pub Wraps : Heap → ℕ → Payload → Type 0
Wraps heap p payload = (o : FfiObject) × (heap p ≡ some o) × (FfiObject.payload o ≡ payload)

-- What each answer says of the arguments; no other answer is given.
abbrev pub Explains : Heap → ℕ → ℕ → ℕ → Bool → ℕ → Status → Out → Type 0
Explains heap p buffer size has_out align Status.success (Out.written address) =
    ¬ HasNull p buffer size has_out
    × ((sig : Signature) × Wraps heap p (Payload.signature sig))
    × IsAlignment align
Explains heap p buffer size has_out align Status.err_invalid_argument_type Out.untouched =
    ¬ HasNull p buffer size has_out × ((base : ℕ) × Wraps heap p (Payload.module_of base))
Explains heap p buffer size has_out align Status.err_invalid_argument_value Out.untouched =
    HasNull p buffer size has_out
    ⊎ (((sig : Signature) × Wraps heap p (Payload.signature sig)) × ¬ IsAlignment align)
Explains _ _ _ _ _ _ _ _ = ⊥

abbrev pub IsAnswered : Heap → ℕ → ℕ → ℕ → Bool → ℕ → Call (Status × Out) → Type 0
IsAnswered heap p buffer size has_out align call =
    (status : Status) × (out : Out) × (call ≡ Call.returned heap (status, out))
    × Explains heap p buffer size has_out align status out

null-cases :
    (p buffer size : ℕ) (has_out : Bool)
    → (((p == 0 || (buffer == 0 && not (size == 0)) || not has_out) ≡ true)
        × HasNull p buffer size has_out)
      ⊎ (((p == 0 || (buffer == 0 && not (size == 0)) || not has_out) ≡ false)
          × (¬ HasNull p buffer size has_out))
null-cases p buffer size false =
    elim (Bool-cases (p == 0 || (buffer == 0 && not (size == 0)) || true)) [
      | inl e ↦ inl (e, inr (inr refl))
      | inr e ↦ ground arith
    ]
null-cases p buffer size true = elim (Bool-cases (p == 0)) [
  | inl e ↦ inl (rw e refl, inl ((==_iff p 0).0 e))
  | inr e ↦ elim (Bool-cases (buffer == 0)) [
    | inl f ↦ elim (Bool-cases (size == 0)) [
      | inl g ↦ inr (
        rw (e, f, g) refl,
        λ h. elim h [
          | inl null ↦ ground arith
          | inr (inl (null, sized)) ↦ sized ((==_iff size 0).0 g)
          | inr (inr no_out) ↦ cc no_out
        ],
      )
      | inr g ↦ inl (
        rw (e, f, g) refl,
        inr (inl ((==_iff buffer 0).0 f, λ empty. cc ((==_iff size 0).1 empty, g))),
      )
    ]
    | inr f ↦ inr (
      rw (e, f) refl,
      λ h. elim h [
        | inl null ↦ ground arith
        | inr (inl (null, sized)) ↦ ground arith
        | inr (inr no_out) ↦ cc no_out
      ],
    )
  ]
]

to_cpp_align-cases :
    (align : ℕ)
    → ((alignment : ScanAlignment) × (to_cpp_align align ≡ some alignment) × IsAlignment align)
      ⊎ ((to_cpp_align align ≡ none) × ¬ IsAlignment align)
unfolding to_cpp_align
to_cpp_align-cases align = elim (Bool-cases (align == 1)) [
  | inl e ↦ inl (x1, rw e refl, inl (ground arith))
  | inr e ↦ elim (Bool-cases (align == 4)) [
    | inl f ↦ inl (x4, rw (e, f) refl, inr (inl (ground arith)))
    | inr f ↦ elim (Bool-cases (align == 16)) [
      | inl g ↦ inl (x16, rw (e, f, g) refl, inr (inr (ground arith)))
      | inr g ↦ inr (
        rw (e, f, g) refl,
        λ known. elim known [
          | inl h ↦ ground arith
          | inr (inl h) ↦ ground arith
          | inr (inr h) ↦ ground arith
        ],
      )
    ]
  ]
]

module _ (machine : Machine) (readable : ℕ → Bool) (mem : Memory) (bytes : IsBytes mem)
    (heap : Heap) (p buffer size align hints : ℕ) (has_out : Bool)
    (given : ¬ HasNull p buffer size has_out) where
  with_result-IsAnswered :
      (sig : Signature) (test : ℕ → Bool) (lo hi : ℕ) (outcome : Outcome)
      → has_out ≡ true
      → Wraps heap p (Payload.signature sig)
      → IsAlignment align
      → Finds test lo hi outcome
      → IsAnswered heap p buffer size has_out align (with_result heap has_out outcome)
  with_result-IsAnswered sig test lo hi (returned none) out wraps known found =
      (Status.success, Out.written 0, rw out refl, (given, (sig, wraps), known))
  with_result-IsAnswered sig test lo hi (returned (some a)) out wraps known found =
      (Status.success, Out.written a, rw out refl, (given, (sig, wraps), known))
  with_result-IsAnswered sig test lo hi timeout out wraps known found = absurd found

  out_given : has_out ≡ true
  out_given = elim (Bool-cases has_out) [ inl e ↦ e | inr e ↦ absurd (given (inr (inr e))) ]

  payload-IsAnswered :
      (id : ℕ) (payload : Payload)
      → IsPayload id payload
      → Wraps heap p payload
      → is_buffer readable buffer size ≡ true
      → IsAnswered heap p buffer size has_out align (
          if_type heap (some (id == signature_type_id)) (
            scan_aligned machine readable mem heap
              (some (record { magic = object_magic; type_id = id; payload = payload }))
              buffer
              size
              has_out
              (to_cpp_align align)
              hints))
  payload-IsAnswered id (Payload.module_of base) h wraps valid =
      (Status.err_invalid_argument_type, Out.untouched, rw h refl, (given, (base, wraps)))
  payload-IsAnswered id (Payload.signature sig) h wraps valid = elim (to_cpp_align-cases align) [
    | inl (alignment, e, known) ↦
        rw (h.0, e, valid)
          (with_result-IsAnswered sig (λ t. occurs mem sig alignment t) buffer
            (buffer + size + 1 - length sig) _ out_given wraps known
            (find_pattern-Finds machine auto_mode mem buffer (buffer + size) sig alignment hints
              (h.1) bytes (omega arith)))
    | inr (e, unknown) ↦ (
      Status.err_invalid_argument_value,
      Out.untouched,
      rw (h.0, e) refl,
      inr ((sig, wraps), unknown),
    )
  ]

  typed-IsAnswered :
      (o : FfiObject)
      → IsObject o
      → heap p ≡ some o
      → is_buffer readable buffer size ≡ true
      → IsAnswered heap p buffer size has_out align (
          if_type heap (some (is_type o signature_type_id)) (
            scan_aligned machine readable mem heap
              (some o)
              buffer
              size
              has_out
              (to_cpp_align align)
              hints))
  typed-IsAnswered o good live valid =
      rw good.magic_eq
        (payload-IsAnswered o.type_id o.payload good.payload_ok (o, live, refl) valid)

-- A null pointer, or one that is what it should be.
abbrev pub IsNullOr : ℕ → Type 0 → Type 0
IsNullOr p T = (p ≡ 0) ⊎ T

valid_unless_null :
    (readable : ℕ → Bool) (p buffer size : ℕ) (has_out : Bool)
    → IsNullOr buffer (is_buffer readable buffer size ≡ true)
    → ¬ HasNull p buffer size has_out
    → is_buffer readable buffer size ≡ true
unfolding is_buffer
valid_unless_null readable p buffer size has_out (inr valid) given = valid
valid_unless_null readable p buffer size has_out (inl null) given = elim (Bool-cases (size == 0)) [
  | inl e ↦ rw e refl
  | inr e ↦ absurd (given (inr (inl (null, λ empty. cc ((==_iff size 0).1 empty, e)))))
]

-- In a well-formed heap and memory of bytes, when the first argument is null or a live object and
-- the buffer is null, or is empty, or ends below 2 ^ 64 and can be read, `libhat_find_pattern`
-- returns and leaves the heap alone. It succeeds and writes a result exactly when no argument that
-- must not be null is null, the object is a signature and the alignment is 1, 4 or 16; it gives
-- the status of a wrong type exactly when no such argument is null and the object is a module;
-- otherwise it gives that of a wrong value, and then such an argument is null or a signature comes
-- with another alignment. Without success it writes nothing.
pub libhat_find_pattern-IsAnswered :
    (machine : Machine) (readable : ℕ → Bool) (mem : Memory) (heap : Heap)
    (p buffer size align hints : ℕ) (has_out : Bool)
    → IsBytes mem
    → IsHeap heap
    → IsNullOr p ((o : FfiObject) × (heap p ≡ some o))
    → IsNullOr buffer (is_buffer readable buffer size ≡ true)
    → IsAnswered heap p buffer size has_out align
        (libhat_find_pattern machine readable mem heap p buffer size has_out align hints)
unfolding libhat_find_pattern check_type
libhat_find_pattern-IsAnswered machine readable mem heap p buffer size align hints has_out bytes inv
      object valid =
    elim (null-cases p buffer size has_out) [
      | inl (refused, null) ↦
          (Status.err_invalid_argument_value, Out.untouched, rw refused refl, inl null)
      | inr (accepted, given) ↦ rw accepted (go object given)
    ]
  where
    go :
        IsNullOr p ((o : FfiObject) × (heap p ≡ some o))
        → ¬ HasNull p buffer size has_out
        → IsAnswered heap p buffer size has_out align (
            if_type heap (type_of (heap p) signature_type_id) (
              scan_aligned machine readable mem heap
                (heap p)
                buffer
                size
                has_out
                (to_cpp_align align)
                hints))
    go (inl null) given = absurd (given (inl null))
    go (inr (o, live)) given =
        subst
          (λ x. IsAnswered heap p buffer size has_out align (
            if_type heap (type_of x signature_type_id) (
              scan_aligned machine readable mem heap x buffer size has_out (to_cpp_align align)
                hints)))
          (sym live)
          (typed-IsAnswered machine readable mem bytes heap p buffer size align hints has_out given
            o (inv.objects p o live) live
            (valid_unless_null readable p buffer size has_out valid given))
