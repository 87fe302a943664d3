-- ===== src/Modules/Vtable.antt =====
-- src/os/win32/Scanner.cpp: `find_vtable`, on a machine of 64 bits; include/libhat/signature.hpp:
-- `object_to_signature`; include/libhat/scanner.hpp: `find_pattern` in a section of a module.
use libhat.Prelude.{
  ℕ, zero, suc, ◌+◌, ◌-◌, ◌/◌, ◌%◌, ◌^◌, ◌==◌, ltb, if◌then◌else◌, List, [], ◌∷◌, ◌++◌, map, none,
  some, length,
}
use libhat.Signature.Element.{Result, Signature, SignatureError, byte_element, nullopt_element}
use libhat.Signature.Bytes.{char_bytes, string_to_signature}
use libhat.Scanner.Context.{Memory, x1, none_hint, Outcome, returned, timeout}
use libhat.Scanner.Resolve.{auto_mode}
use libhat.Scanner.FindPattern.{Machine, find_pattern}
use libhat.Modules.Pe.{get_section_data}

-- `object_to_signature`, of a number of `size` bytes.
unfoldable pub object_to_signature : ℕ → ℕ → Signature
object_to_signature size value = map (λ b. byte_element b) (char_bytes size value)

-- `find_pattern(signature, section, mod)`.
unfoldable pub find_in_section : Machine → Memory → ℕ → List ℕ → Signature → Outcome
find_in_section machine mem base section sig =
    let bytes = get_section_data mem base section in
    find_pattern machine auto_mode mem bytes.address (bytes.address + bytes.size) sig x1 none_hint

-- The rest of the search, if the pointer that a search gives is not null.
abbrev pub if_found : Outcome → (ℕ → Outcome) → Outcome
if_found timeout next = timeout
if_found (returned none) next = returned none
if_found (returned (some address)) next = if address == 0 then returned none else next address

-- `value()`, of a signature that is there.
abbrev pub value_of : Result SignatureError Signature → Signature
value_of (Result.ok sig) = sig
value_of (Result.err e) = []

-- `sig[i] = {}`.
abbrev pub reset : ℕ → Signature → Signature
reset i [] = []
reset zero (e ∷ sig) = nullopt_element ∷ sig
reset (suc i) (e ∷ sig) = e ∷ reset i sig

-- ".data"
abbrev pub dot_data : List ℕ
dot_data = b'.' ∷ b'd' ∷ b'a' ∷ b't' ∷ b'a' ∷ []

-- ".rdata"
abbrev pub dot_rdata : List ℕ
dot_rdata = b'.' ∷ b'r' ∷ b'd' ∷ b'a' ∷ b't' ∷ b'a' ∷ []

-- The name of the type descriptor: ".?AV", the class and "@@", with the fourth character left open.
unfoldable pub type_signature : List ℕ → Signature
type_signature class_name =
    reset 3 (
      value_of (string_to_signature 1 (b'.' ∷ b'?' ∷ b'A' ∷ b'V' ∷ class_name ++ b'@' ∷ b'@' ∷ [])))

-- `pointer -= n`.
abbrev pub back : ℕ → ℕ → ℕ
back pointer n = (pointer + (2 ^ 64 - n)) % 2 ^ 64

-- The offset of a pointer from the module, as an `std::uint32_t`.
abbrev pub offset_of : ℕ → ℕ → ℕ
offset_of base pointer = (pointer + (2 ^ 64 - base % 2 ^ 64)) % 2 ^ 32

-- The object locator with a type descriptor: twelve fixed bytes before its offset.
unfoldable pub locator_signature : ℕ → Signature
locator_signature offset =
    map (λ b. byte_element b) (1 ∷ 0 ∷ 0 ∷ 0 ∷ 0 ∷ 0 ∷ 0 ∷ 0 ∷ 0 ∷ 0 ∷ 0 ∷ 0 ∷ [])
    ++ object_to_signature 4 offset

-- The digits of `std::to_string`; a number of 64 bits has at most 20.
unfoldable pub decimal : ℕ → ℕ → List ℕ → List ℕ
decimal zero n text = text
decimal (suc fuel) n text =
    let text' = (n % 10 + b'0') ∷ text in
    let rest = decimal fuel (n / 10) text' in if ltb n 10 then text' else rest

-- The length of the class and the class; the literal "\0" adds nothing.
unfoldable pub name_signature : List ℕ → Signature
name_signature class_name =
    value_of (string_to_signature 1 (decimal 20 (length class_name) [] ++ class_name))

module _ (machine : Machine) (mem : Memory) (base : ℕ) where
  abbrev pub at_vtable : ℕ → Outcome
  at_vtable vtable = returned (some (vtable + 8))

  -- `find_vtable<compiler_type::MSVC>`, from the object locator on, from the type descriptor on, and whole.
  abbrev pub at_object_locator : ℕ → Outcome
  at_object_locator object_locator =
      if_found (find_in_section machine mem base dot_data (object_to_signature 8 object_locator))
        at_vtable

  abbrev pub at_type_desc : ℕ → Outcome
  at_type_desc type_desc =
      if_found
        (find_in_section machine mem base dot_rdata
          (locator_signature (offset_of base (back type_desc 16))))
        at_object_locator

  unfoldable pub find_vtable_msvc : List ℕ → Outcome
  find_vtable_msvc class_name =
      if_found (find_in_section machine mem base dot_data (type_signature class_name)) at_type_desc

  -- `find_vtable<compiler_type::GNU>`, from the type information on, from the name on, and whole.
  abbrev pub at_type_info : ℕ → Outcome
  at_type_info type_info =
      if_found
        (find_in_section machine mem base dot_rdata (object_to_signature 8 (back type_info 8)))
        at_vtable

  abbrev pub at_type_name : ℕ → Outcome
  at_type_name type_name =
      if_found (find_in_section machine mem base dot_rdata (object_to_signature 8 type_name))
        at_type_info

  unfoldable pub find_vtable_gnu : List ℕ → Outcome
  find_vtable_gnu class_name =
      if_found (find_in_section machine mem base dot_rdata (name_signature class_name)) at_type_name
