-- ===== src/Bindings/ModuleCalls.antt =====
-- bindings/c/src/libhat.cpp: the calls on modules. What `hat::process` does for them is the interface
-- `Modules`, by the address of a module.
use libhat.Prelude.{
  Run, ℕ, ◌+◌, ◌==◌, Bool, true, false, not, ◌&&◌, ◌||◌, if◌then◌else◌, List, [], Option, none,
  some,
}
use libhat.Scanner.Context.{Memory, ScanAlignment, Outcome, returned, timeout}
use libhat.Scanner.Resolve.{auto_mode}
use libhat.Scanner.FindPattern.{Machine, find_pattern}
use libhat.Signature.Element.{Signature}
use libhat.Modules.Spans.{ByteSpan, Section, before_zero, while_true}
use libhat.Bindings.Objects.{
  Heap, Call, FfiObject, Payload, module_object, set_at, check_type, signature_type_id,
  module_type_id,
}
use libhat.Bindings.Calls.{Status, to_cpp_align}

-- The modules of the process: the members of `hat::process::module`, what the iterations go through, and the
-- functions that find a module.
pub record Modules : Type 0 where
  pub get_symbol : ℕ → List ℕ → ℕ
  pub get_module_data : ℕ → ByteSpan
  pub get_executable_data : ℕ → Run ByteSpan
  pub get_section_data : ℕ → List ℕ → Run ByteSpan
  pub sections : ℕ → Run (List (List ℕ × Section))
  pub segments : ℕ → List Section
  pub get_module : List ℕ → Option ℕ
  pub module_at : ℕ → Option ℕ

-- The status, and what is written to the output argument.
abbrev pub Answer {ℓ} : Type ℓ → Type ℓ
Answer A = Call (Status × Option A)

module _ {ℓ} {A : Type ℓ} where
  abbrev pub refuse : Heap → Status → Answer A
  refuse heap status = Call.returned heap (status, none)

  abbrev pub succeed : Heap → A → Answer A
  succeed heap a = Call.returned heap (Status.success, some a)

  -- An exception that leaves a function of C.
  abbrev pub from_run : Heap → Run A → Answer A
  from_run heap (Run.done a) = succeed heap a
  from_run heap Run.thrown = Call.undefined
  from_run heap Run.undefined = Call.undefined

  -- The test of the object's type.
  abbrev pub if_checked : Heap → Option Bool → Answer A → Answer A
  if_checked heap none call = Call.undefined
  if_checked heap (some false) call = refuse heap Status.err_invalid_argument_type
  if_checked heap (some true) call = call

  -- A call on the module that an object wraps.
  abbrev pub on_payload : Payload → (ℕ → Answer A) → Answer A
  on_payload (Payload.module_of base) call = call base
  on_payload (Payload.signature sig) call = Call.undefined

  abbrev pub on_module : Option FfiObject → (ℕ → Answer A) → Answer A
  on_module none call = Call.undefined
  on_module (some o) call = on_payload (FfiObject.payload o) call

  -- What the calls on a module have in common: the tests of the arguments and of the type.
  abbrev pub module_call : Heap → ℕ → Bool → (ℕ → Answer A) → Answer A
  module_call heap p has_arguments call =
      if p == 0 || not has_arguments
      then refuse heap Status.err_invalid_argument_value
      else if_checked heap (check_type heap p module_type_id) (on_module (heap p) call)

-- A null text is none.
abbrev pub is_text : Option (List ℕ) → Bool
is_text none = false
is_text (some text) = true

abbrev pub text_of : Option (List ℕ) → List ℕ
text_of none = []
text_of (some text) = text

module _ (ms : Modules) (heap : Heap) where
  unfoldable pub libhat_module_address : ℕ → Bool → Answer ℕ
  libhat_module_address p has_out = module_call heap p has_out (λ base. succeed heap base)

  unfoldable pub libhat_module_get_symbol : ℕ → Option (List ℕ) → Bool → Answer ℕ
  libhat_module_get_symbol p name has_out =
      module_call heap p (is_text name && has_out)
        (λ base. succeed heap (Modules.get_symbol ms base (text_of name)))

  unfoldable pub libhat_module_get_data : ℕ → Bool → Answer ByteSpan
  libhat_module_get_data p has_out =
      module_call heap p has_out (λ base. succeed heap (Modules.get_module_data ms base))

  unfoldable pub libhat_module_get_executable_data : ℕ → Bool → Answer ByteSpan
  libhat_module_get_executable_data p has_out =
      module_call heap p has_out (λ base. from_run heap (Modules.get_executable_data ms base))

  unfoldable pub libhat_module_get_section_data : ℕ → Option (List ℕ) → Bool → Answer ByteSpan
  libhat_module_get_section_data p name has_out =
      module_call heap p (is_text name && has_out)
        (λ base. from_run heap (Modules.get_section_data ms base (text_of name)))

  module _ {ℓ} {S : Type ℓ} where
    -- The lambda of `libhat_module_for_each_section` gives the callback a text that ends at a zero.
    abbrev pub loop_sections :
        (S → List ℕ × Section → S × Bool) → S → Run (List (List ℕ × Section)) → Run S
    loop_sections callback s (Run.done items) =
        Run.done
          (while_true (λ s' (name, section). callback s' (before_zero name, section)) s items)
    loop_sections callback s Run.thrown = Run.thrown
    loop_sections callback s Run.undefined = Run.undefined

    -- The state of the callback stands for the user's data.
    unfoldable pub libhat_module_for_each_section :
        ℕ → Bool → (S → List ℕ × Section → S × Bool) → S → Answer S
    libhat_module_for_each_section p has_callback callback s =
        module_call heap p has_callback
          (λ base. from_run heap (loop_sections callback s (Modules.sections ms base)))

    unfoldable pub libhat_module_for_each_segment :
        ℕ → Bool → (S → Section → S × Bool) → S → Answer S
    libhat_module_for_each_segment p has_callback callback s =
        module_call heap p has_callback
          (λ base. succeed heap (while_true callback s (Modules.segments ms base)))

-- `new libhat_module{…}`, or null.
abbrev pub new_module : (Heap → ℕ) → Heap → Option ℕ → Call ℕ
new_module allocate heap none = Call.returned heap 0
new_module allocate heap (some base) =
    Call.returned (set_at heap (allocate heap) (some (module_object base))) (allocate heap)

-- `std::abort`, or the module.
abbrev pub new_or_abort : (Heap → ℕ) → Heap → Option ℕ → Call ℕ
new_or_abort allocate heap none = Call.terminated
new_or_abort allocate heap (some base) = new_module allocate heap (some base)

module _ (ms : Modules) (allocate : Heap → ℕ) (heap : Heap) where
  unfoldable pub libhat_get_process_module : Call ℕ
  libhat_get_process_module = new_or_abort allocate heap (Modules.get_module ms [])

  unfoldable pub libhat_get_module : Option (List ℕ) → Call ℕ
  unfolding libhat_get_process_module
  libhat_get_module none = libhat_get_process_module
  libhat_get_module (some name) = new_module allocate heap (Modules.get_module ms name)

  unfoldable pub libhat_module_at : ℕ → Call ℕ
  libhat_module_at address = new_module allocate heap (Modules.module_at ms address)

-- A scan of the bytes of a section. `find_pattern` is `noexcept`.
module _ (machine : Machine) (mem : Memory) (ms : Modules) (heap : Heap) where
  abbrev pub scan_result : Outcome → Answer ℕ
  scan_result (returned (some address)) = succeed heap address
  scan_result (returned none) = succeed heap 0
  scan_result timeout = Call.diverges

  abbrev pub scan_section : Signature → ScanAlignment → ℕ → Run ByteSpan → Answer ℕ
  scan_section sig alignment hints (Run.done bytes) = scan_result (
      find_pattern machine auto_mode mem bytes.address (bytes.address + bytes.size) sig alignment
        hints)
  scan_section sig alignment hints Run.thrown = Call.terminated
  scan_section sig alignment hints Run.undefined = Call.undefined

  abbrev pub scan_objects :
      Option FfiObject → Option FfiObject → List ℕ → ScanAlignment → ℕ → Answer ℕ
  scan_objects none m section alignment hints = Call.undefined
  scan_objects (some o) m section alignment hints = elim (FfiObject.payload o) [
    | Payload.signature sig ↦
        on_module m
          (λ base. scan_section sig alignment hints (Modules.get_section_data ms base section))
    | Payload.module_of base ↦ Call.undefined
  ]

  abbrev pub scan_with_align :
      Option FfiObject → Option FfiObject → List ℕ → Option ScanAlignment → ℕ → Answer ℕ
  scan_with_align o m section none hints = refuse heap Status.err_invalid_argument_value
  scan_with_align o m section (some alignment) hints = scan_objects o m section alignment hints

  unfoldable pub libhat_find_pattern_mod : ℕ → ℕ → Option (List ℕ) → Bool → ℕ → ℕ → Answer ℕ
  libhat_find_pattern_mod p q section has_out align hints =
      if p == 0 || q == 0 || not (is_text section) || not has_out
      then refuse heap Status.err_invalid_argument_value
      else if_checked heap (check_type heap p signature_type_id) (
          if_checked heap (check_type heap q module_type_id)
            (scan_with_align (heap p) (heap q) (text_of section) (to_cpp_align align) hints))
