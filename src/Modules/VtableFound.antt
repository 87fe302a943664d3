-- ===== src/Modules/VtableFound.antt =====
-- What `find_vtable` finds.
use libhat.Prelude.{
  ℕ, zero, suc, ◌+◌, ◌-◌, ◌==◌, ==_iff, ◌≡◌, ◌≢◌, refl, List, [], ◌∷◌, ◌++◌, Option, none, some,
  length, ◌⊎◌, inl, inr, Bool-cases, arith, ltb, ◌/◌, ◌%◌,
}
use libhat.Signature.Element.{Signature, all}
use libhat.Signature.Bytes.{
  bytes-All, bytes-IsSignature, byte_element-IsElement, string_bytes-All, char_bytes-All,
  string_to_signature, string_bytes,
}
use libhat.Signature.Shape.{IsSignature, has_full}
use libhat.Scanner.Context.{Memory, IsBytes, x1, occurs, Outcome, returned, timeout}
use libhat.Scanner.First.{IsFirst, Finds}
use libhat.Scanner.FindPattern.{Machine}
use libhat.Scanner.Agree.{find_pattern-Finds}
use libhat.Modules.Pe.{get_section_data}
use libhat.Modules.Vtable.{
  object_to_signature, find_in_section, if_found, dot_data, dot_rdata, type_signature, back,
  offset_of, locator_signature, name_signature, find_vtable_msvc, find_vtable_gnu, at_vtable,
  at_object_locator, at_type_desc, at_type_info, at_type_name, decimal, value_of,
}

object_to_signature-IsSignature : (n value : ℕ) → IsSignature (object_to_signature (suc n) value)
unfolding object_to_signature
object_to_signature-IsSignature n value = bytes-IsSignature _ _ (char_bytes-All (suc n) value)

type_signature-IsSignature : (class_name : List ℕ) → IsSignature (type_signature class_name)
unfolding type_signature string_to_signature string_bytes has_full all
type_signature-IsSignature class_name = record {
  elements = (
    byte_element-IsElement b'.' (omega arith),
    (
      byte_element-IsElement b'?' (omega arith),
      (
        byte_element-IsElement b'A' (omega arith),
        (
          record { value_lt = omega arith; mask_lt = omega arith; inside = refl },
          bytes-All _ (string_bytes-All 1 (class_name ++ b'@' ∷ b'@' ∷ [])),
        ),
      ),
    ),
  );
  full = refl;
}

locator_signature-IsSignature : (offset : ℕ) → IsSignature (locator_signature offset)
unfolding locator_signature has_full all
locator_signature-IsSignature offset =
    let zero_ok = byte_element-IsElement 0 (omega arith) in
    let behind = IsSignature.elements (object_to_signature-IsSignature 3 offset) in
    record {
      elements = (
        byte_element-IsElement 1 (omega arith),
        (
          zero_ok,
          (
            zero_ok,
            (
              zero_ok,
              (
                zero_ok,
                (zero_ok, (zero_ok, (zero_ok, (zero_ok, (zero_ok, (zero_ok, (zero_ok, behind))))))),
              ),
            ),
          ),
        ),
      );
      full = refl;
    }

-- The text is not empty.
decimal_nonempty :
    (fuel n : ℕ) (c : ℕ) (text : List ℕ)
    → (d : ℕ) × (ds : List ℕ) × (decimal fuel n (c ∷ text) ≡ d ∷ ds)
unfolding decimal
decimal_nonempty zero n c text = (c, text, refl)
decimal_nonempty (suc fuel) n c text = elim (Bool-cases (ltb n 10)) [
  | inl small ↦ (n % 10 + b'0', c ∷ text, rw small refl)
  | inr large ↦
      let (d, ds, e) = decimal_nonempty fuel (n / 10) (n % 10 + b'0') (c ∷ text) in
      (d, ds, rw large e)
]

name_signature-IsSignature : (class_name : List ℕ) → IsSignature (name_signature class_name)
unfolding name_signature decimal string_to_signature string_bytes
name_signature-IsSignature class_name =
    let n = length class_name in
    elim (Bool-cases (ltb n 10)) [
      | inl small ↦ rw small (named _ _)
      | inr large ↦
          let (d, ds, e) = decimal_nonempty 19 (n / 10) (n % 10 + b'0') [] in
          rw (large, e) (named _ _)
    ]
  where
    named : (c : ℕ) (text : List ℕ) → IsSignature (value_of (string_to_signature 1 (c ∷ text)))
    named c text = bytes-IsSignature _ _ (string_bytes-All 1 (c ∷ text))

module _ (machine : Machine) (mem : Memory) (bytes : IsBytes mem) (base : ℕ) where
  -- The first place in a section where a signature stands, or none.
  abbrev pub IsIn : List ℕ → Signature → Option ℕ → Type 0
  IsIn section sig =
      let s = get_section_data mem base section in
      IsFirst (λ t. occurs mem sig x1 t) s.address (s.address + s.size + 1 - length sig)

  -- One step of the search: without a place, or with one that is the null pointer, the result is null; with
  -- another one, the next steps say what it is.
  abbrev pub IsAfter : (ℕ → Outcome → Type 0) → Outcome → Option ℕ → Type 0
  IsAfter next r none = r ≡ returned none
  IsAfter next r (some a) = ((a ≡ 0) × (r ≡ returned none)) ⊎ ((a ≢ 0) × next a r)

  abbrev pub IsStep : List ℕ → Signature → (ℕ → Outcome → Type 0) → Outcome → Type 0
  IsStep section sig next r = (o : Option ℕ) × IsIn section sig o × IsAfter next r o

  if_found-IsStep :
      (section : List ℕ) (sig : Signature) (next : ℕ → Outcome → Type 0) (f : ℕ → Outcome)
      → IsSignature sig
      → ((a : ℕ) → next a (f a))
      → IsStep section sig next (if_found (find_in_section machine mem base section sig) f)
  unfolding find_in_section
  if_found-IsStep section sig next f good rest =
      go _ (find_pattern-Finds machine _ mem _ _ sig x1 _ good bytes (omega arith))
    where
      go :
          (o : Outcome)
          → Finds
              (λ t. occurs mem sig x1 t)
              (get_section_data mem base section).address
              ((get_section_data mem base section).address
                + (get_section_data mem base section).size
                + 1
                - length sig)
              o
          → IsStep section sig next (if_found o f)
      go timeout found = absurd found
      go (returned none) found = (none, found, refl)
      go (returned (some a)) found = elim (Bool-cases (a == 0)) [
        | inl null ↦ (some a, found, inl ((==_iff a 0).0 null, rw null refl))
        | inr there ↦ (some a, found, inr (ground arith, rw there (rest a)))
      ]

  -- The vtable begins behind the pointer.
  abbrev pub IsBehind : ℕ → Outcome → Type 0
  IsBehind pointer r = r ≡ returned (some (pointer + 8))

  -- A pointer to the object locator in ".data", an object locator with the offset of a type descriptor in
  -- ".rdata", and the name of the type in ".data".
  abbrev pub IsLocated : ℕ → Outcome → Type 0
  IsLocated object_locator = IsStep dot_data (object_to_signature 8 object_locator) IsBehind

  abbrev pub IsDescribed : ℕ → Outcome → Type 0
  IsDescribed type_desc =
      IsStep dot_rdata (locator_signature (offset_of base (back type_desc 16))) IsLocated

  abbrev pub IsMsvcVtable : List ℕ → Outcome → Type 0
  IsMsvcVtable class_name = IsStep dot_data (type_signature class_name) IsDescribed

  -- A pointer to the type information in ".rdata", the pointer to the name that it holds, and the name.
  abbrev pub IsTyped : ℕ → Outcome → Type 0
  IsTyped type_info = IsStep dot_rdata (object_to_signature 8 (back type_info 8)) IsBehind

  abbrev pub IsNamed : ℕ → Outcome → Type 0
  IsNamed type_name = IsStep dot_rdata (object_to_signature 8 type_name) IsTyped

  abbrev pub IsGnuVtable : List ℕ → Outcome → Type 0
  IsGnuVtable class_name = IsStep dot_rdata (name_signature class_name) IsNamed

  find_vtable_msvc-IsMsvcVtable :
      (class_name : List ℕ) → IsMsvcVtable class_name (find_vtable_msvc machine mem base class_name)
  unfolding find_vtable_msvc
  find_vtable_msvc-IsMsvcVtable class_name =
      if_found-IsStep dot_data (type_signature class_name) IsDescribed
        (at_type_desc machine mem base) (type_signature-IsSignature class_name)
        (λ t.
          if_found-IsStep dot_rdata (locator_signature (offset_of base (back t 16))) IsLocated
            (at_object_locator machine mem base)
            (locator_signature-IsSignature (offset_of base (back t 16)))
            (λ l.
              if_found-IsStep dot_data (object_to_signature 8 l) IsBehind
                (at_vtable machine mem base) (object_to_signature-IsSignature 7 l) (λ v. refl)))

  -- In a memory of bytes, `find_vtable<compiler_type::GNU>` ends, and follows the cross-
  -- references: the first place in ".rdata" of the length and the name of the class; the first
  -- place there of a pointer to it; the first place there of a pointer to eight bytes before that;
  -- the vtable begins eight bytes behind. Where a step finds nothing or address 0, the result is
  -- null.
  pub find_vtable_gnu-IsGnuVtable :
      (class_name : List ℕ) → IsGnuVtable class_name (find_vtable_gnu machine mem base class_name)
  unfolding find_vtable_gnu
  find_vtable_gnu-IsGnuVtable class_name =
      if_found-IsStep dot_rdata (name_signature class_name) IsNamed (at_type_name machine mem base)
        (name_signature-IsSignature class_name)
        (λ t.
          if_found-IsStep dot_rdata (object_to_signature 8 t) IsTyped
            (at_type_info machine mem base) (object_to_signature-IsSignature 7 t)
            (λ l.
              if_found-IsStep dot_rdata (object_to_signature 8 (back l 8)) IsBehind
                (at_vtable machine mem base) (object_to_signature-IsSignature 7 (back l 8))
                (λ v. refl)))
