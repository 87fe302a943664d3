-- ===== src/Bindings/Calls.antt =====
-- bindings/c/src/libhat.cpp: the calls that make signatures and that scan. The allocator of `new` is a
-- parameter: it gives the address of a new object.
use libhat.Prelude.{
  ℕ, zero, suc, ◌+◌, ◌^◌, ◌==◌, ltb, Bool, true, false, not, ◌&&◌, ◌||◌, if◌then◌else◌, List, [],
  ◌∷◌, Option, none, some,
}
use libhat.Signature.Element.{
  Result, Signature, SignatureError, missing_masked_byte, element_parse_error, empty_signature,
  expected_wildcard, invalid_token_length, masked_element, all,
}
use libhat.Signature.Parse.{parse_signature}
use libhat.Scanner.Context.{Memory, ScanAlignment, x1, x4, x16, Outcome, returned, timeout}
use libhat.Scanner.Resolve.{auto_mode}
use libhat.Scanner.FindPattern.{Machine, find_pattern}
use libhat.Bindings.Objects.{
  Heap, Call, FfiObject, Payload, signature_object, set_at, check_type, signature_type_id,
}

-- `libhat_status`.
pub data Status : Type 0 where
  success : Status
  err_unknown : Status
  err_sig_missing_masked_byte : Status
  err_sig_element_parse_error : Status
  err_sig_empty_signature : Status
  err_sig_expected_wildcard : Status
  err_sig_invalid_token_length : Status
  err_invalid_argument_value : Status
  err_invalid_argument_type : Status

-- An output argument: left alone, or written.
pub data Out : Type 0 where
  untouched : Out
  written : ℕ → Out

abbrev pub to_status : SignatureError → Status
to_status missing_masked_byte = Status.err_sig_missing_masked_byte
to_status element_parse_error = Status.err_sig_element_parse_error
to_status empty_signature = Status.err_sig_empty_signature
to_status expected_wildcard = Status.err_sig_expected_wildcard
to_status invalid_token_length = Status.err_sig_invalid_token_length

-- The values 1, 4 and 16 of `libhat_alignment`.
unfoldable pub to_cpp_align : ℕ → Option ScanAlignment
to_cpp_align align =
    if align == 1
    then some x1
    else if align == 4
    then some x4
    else if align == 16
    then some x16
    else none

-- `new libhat_signature{…}`, and its address in the output argument.
abbrev pub new_signature : (Heap → ℕ) → Heap → Signature → Call (Status × Out)
new_signature allocate heap sig =
    Call.returned (set_at heap (allocate heap) (some (signature_object sig)))
      (Status.success, Out.written (allocate heap))

abbrev pub parsed : (Heap → ℕ) → Heap → Result SignatureError Signature → Call (Status × Out)
parsed allocate heap (Result.ok sig) = new_signature allocate heap sig
parsed allocate heap (Result.err error) = Call.returned heap (to_status error, Out.written 0)

-- The output pointer is not tested.
unfoldable pub libhat_parse_signature : (Heap → ℕ) → Heap → List ℕ → Call (Status × Out)
libhat_parse_signature allocate heap text = parsed allocate heap (parse_signature text)

-- The loop of `libhat_create_signature` over the bytes from `i` on: the signature and `containsByte`.
unfoldable pub create_loop : (ℕ → ℕ) → (ℕ → ℕ) → ℕ → ℕ → Signature × Bool
create_loop bytes mask zero i = ([], false)
create_loop bytes mask (suc n) i =
    let (sig, contains_byte) = create_loop bytes mask n (i + 1) in
    let e = masked_element (bytes i) (mask i) in (e ∷ sig, all e || contains_byte)

-- Null arguments are `none`; `has_out` is whether the output pointer is not null.
unfoldable pub libhat_create_signature :
    (Heap → ℕ) → Heap → Option (ℕ → ℕ) → Option (ℕ → ℕ) → ℕ → Bool → Call (Status × Out)
libhat_create_signature allocate heap bytes mask size false =
    Call.returned heap (Status.err_invalid_argument_value, Out.untouched)
libhat_create_signature allocate heap bytes mask zero true =
    Call.returned heap (Status.err_sig_empty_signature, Out.untouched)
libhat_create_signature allocate heap (some bytes) (some mask) (suc n) true =
    let (sig, contains_byte) = create_loop bytes mask (suc n) 0 in
    if contains_byte
    then new_signature allocate heap sig
    else Call.returned heap (Status.err_sig_missing_masked_byte, Out.untouched)
libhat_create_signature allocate heap _ _ (suc n) true =
    Call.returned heap (Status.err_invalid_argument_value, Out.untouched)

-- `*resultOut = …`: the result of a scan, null when there is none. A null output is not to be written.
abbrev pub with_result : Heap → Bool → Outcome → Call (Status × Out)
with_result heap false (returned result) = Call.undefined
with_result heap true (returned (some address)) =
    Call.returned heap (Status.success, Out.written address)
with_result heap true (returned none) = Call.returned heap (Status.success, Out.written 0)
with_result heap _ timeout = Call.diverges

-- Whether all bytes of a buffer can be read.
unfoldable pub can_read : (ℕ → Bool) → ℕ → ℕ → Bool
can_read readable buffer zero = true
can_read readable buffer (suc n) = readable buffer && can_read readable (buffer + 1) n

-- `begin`, `end` and the reads between them are defined for an empty buffer, and for one that is not null, does not
-- pass the end of the addresses and can be read.
unfoldable pub is_buffer : (ℕ → Bool) → ℕ → ℕ → Bool
is_buffer readable buffer size =
    size == 0
    || (not (buffer == 0) && ltb (buffer + size) (2 ^ 64) && can_read readable buffer size)

-- The scan with the signature that a `libhat_signature` wraps.
abbrev pub scan_payload :
    Machine
    → (ℕ → Bool)
    → Memory
    → Heap
    → Option FfiObject
    → ℕ
    → ℕ
    → Bool
    → ScanAlignment
    → ℕ
    → Call (Status × Out)
scan_payload machine readable mem heap none buffer size has_out alignment hints = Call.undefined
scan_payload machine readable mem heap (some o) buffer size has_out alignment hints =
    elim (o.payload) [
      | Payload.signature sig ↦
          if is_buffer readable buffer size
          then with_result heap has_out
              (find_pattern machine auto_mode mem buffer (buffer + size) sig alignment hints)
          else Call.undefined
      | Payload.module_of base ↦ Call.undefined
    ]

-- The switch over the alignment, and the scan.
abbrev pub scan_aligned :
    Machine
    → (ℕ → Bool)
    → Memory
    → Heap
    → Option FfiObject
    → ℕ
    → ℕ
    → Bool
    → Option ScanAlignment
    → ℕ
    → Call (Status × Out)
scan_aligned machine readable mem heap o buffer size has_out none hints =
    Call.returned heap (Status.err_invalid_argument_value, Out.untouched)
scan_aligned machine readable mem heap o buffer size has_out (some alignment) hints =
    scan_payload machine readable mem heap o buffer size has_out alignment hints

-- The test of the object's type.
abbrev pub if_type : Heap → Option Bool → Call (Status × Out) → Call (Status × Out)
if_type heap none call = Call.undefined
if_type heap (some false) call =
    Call.returned heap (Status.err_invalid_argument_type, Out.untouched)
if_type heap (some true) call = call

-- `readable` says which bytes of the memory can be read.
unfoldable pub libhat_find_pattern :
    Machine → (ℕ → Bool) → Memory → Heap → ℕ → ℕ → ℕ → Bool → ℕ → ℕ → Call (Status × Out)
libhat_find_pattern machine readable mem heap p buffer size has_out align hints =
    if p == 0 || (buffer == 0 && not (size == 0)) || not has_out
    then Call.returned heap (Status.err_invalid_argument_value, Out.untouched)
    else if_type heap (check_type heap p signature_type_id) (
        scan_aligned machine readable mem heap (heap p) buffer size has_out (to_cpp_align align)
          hints)
