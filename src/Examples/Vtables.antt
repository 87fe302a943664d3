-- ===== src/Examples/Vtables.antt =====
-- A vtable in a small image of Windows.
use libhat.Prelude.{
  ℕ, zero, suc, ◌-◌, ◌<◌, ◌≡◌, refl, Bool, true, false, ltb, ◌&&◌, List, [], ◌∷◌, some, get_or,
  if◌then◌else◌, arith, Bool-cases, inl, inr,
}
use libhat.Scanner.Context.{Memory, IsBytes, returned}
use libhat.Modules.Vtable.{find_vtable_gnu}
use libhat.Modules.VtableFound.{IsGnuVtable, find_vtable_gnu-IsGnuVtable}
use libhat.Examples.Machines.{desktop}
use libhat.Examples.Scanning.{program}
use libhat.Signature.Bytes.{string_to_signature, string_bytes}
use libhat.Scanner.ScanResult.{read_bytes}
use libhat.Modules.Names.{name_eq}
use libhat.Modules.Spans.{before_zero}
use libhat.Modules.Pe.{headers_from, named_header, get_section_data}
use libhat.Modules.Vtable.{object_to_signature, find_in_section, name_signature, decimal}

-- An image with the section ".rdata", in which stand the name "3Foo", the type information and a vtable.
abbrev image : List ℕ
image =
    77 ∷ 90 ∷ 0 ∷ 0 ∷ 0 ∷ 0 ∷ 0 ∷ 0 ∷ 0 ∷ 0 ∷ 0 ∷ 0 ∷ 0 ∷ 0 ∷ 0 ∷ 0 ∷ 0 ∷ 0 ∷ 0 ∷ 0 ∷ 0 ∷ 0 ∷ 0 ∷ 0
    ∷ 0 ∷ 0 ∷ 0 ∷ 0 ∷ 0 ∷ 0 ∷ 0 ∷ 0 ∷ 0 ∷ 0 ∷ 0 ∷ 0 ∷ 0 ∷ 0 ∷ 0 ∷ 0 ∷ 0 ∷ 0 ∷ 0 ∷ 0 ∷ 0 ∷ 0 ∷ 0 ∷ 0
    ∷ 0 ∷ 0 ∷ 0 ∷ 0 ∷ 0 ∷ 0 ∷ 0 ∷ 0 ∷ 0 ∷ 0 ∷ 0 ∷ 0 ∷ 64 ∷ 0 ∷ 0 ∷ 0 ∷ 80 ∷ 69 ∷ 0 ∷ 0 ∷ 100 ∷ 134
    ∷ 1 ∷ 0 ∷ 0 ∷ 0 ∷ 0 ∷ 0 ∷ 0 ∷ 0 ∷ 0 ∷ 0 ∷ 0 ∷ 0 ∷ 0 ∷ 0 ∷ 64 ∷ 0 ∷ 0 ∷ 0 ∷ 0 ∷ 0 ∷ 0 ∷ 0 ∷ 0 ∷ 0
    ∷ 0 ∷ 0 ∷ 0 ∷ 0 ∷ 0 ∷ 0 ∷ 0 ∷ 0 ∷ 0 ∷ 0 ∷ 0 ∷ 0 ∷ 0 ∷ 0 ∷ 0 ∷ 0 ∷ 0 ∷ 0 ∷ 0 ∷ 0 ∷ 0 ∷ 0 ∷ 0 ∷ 0
    ∷ 0 ∷ 0 ∷ 0 ∷ 0 ∷ 0 ∷ 0 ∷ 0 ∷ 0 ∷ 0 ∷ 0 ∷ 0 ∷ 0 ∷ 0 ∷ 0 ∷ 0 ∷ 0 ∷ 0 ∷ 0 ∷ 0 ∷ 0 ∷ 0 ∷ 0 ∷ 0 ∷ 0
    ∷ 0 ∷ 0 ∷ 0 ∷ 64 ∷ 0 ∷ 0 ∷ 0 ∷ 0 ∷ 0 ∷ 0 ∷ 46 ∷ 114 ∷ 100 ∷ 97 ∷ 116 ∷ 97 ∷ 0 ∷ 0 ∷ 48 ∷ 0 ∷ 0
    ∷ 0 ∷ 192 ∷ 0 ∷ 0 ∷ 0 ∷ 0 ∷ 0 ∷ 0 ∷ 0 ∷ 0 ∷ 0 ∷ 0 ∷ 0 ∷ 0 ∷ 0 ∷ 0 ∷ 0 ∷ 0 ∷ 0 ∷ 0 ∷ 0 ∷ 0 ∷ 0
    ∷ 0 ∷ 0 ∷ 64 ∷ 0 ∷ 0 ∷ 64 ∷ 51 ∷ 70 ∷ 111 ∷ 111 ∷ 0 ∷ 0 ∷ 0 ∷ 0 ∷ 0 ∷ 0 ∷ 0 ∷ 0 ∷ 0 ∷ 0 ∷ 0 ∷ 0
    ∷ 192 ∷ 0 ∷ 1 ∷ 0 ∷ 0 ∷ 0 ∷ 0 ∷ 0 ∷ 0 ∷ 0 ∷ 0 ∷ 0 ∷ 0 ∷ 0 ∷ 0 ∷ 0 ∷ 200 ∷ 0 ∷ 1 ∷ 0 ∷ 0 ∷ 0 ∷ 0
    ∷ 0 ∷ 0 ∷ 0 ∷ 0 ∷ 0 ∷ 0 ∷ 0 ∷ 0 ∷ 0 ∷ []

-- The image at 65536.
abbrev mem : Memory
mem a = if ltb a 65536 then 0 else get_or image (a - 65536) 0

abbrev are_bytes : List ℕ → Bool
are_bytes [] = true
are_bytes (b ∷ bytes) = ltb b 256 && are_bytes bytes

get_or_lt : (bytes : List ℕ) (i : ℕ) → are_bytes bytes ≡ true → get_or bytes i 0 < 256
get_or_lt [] i h = omega arith
get_or_lt (b ∷ bytes) zero h = ground arith
get_or_lt (b ∷ bytes) (suc i) h = get_or_lt bytes i (and_right (ltb b 256) _ h)
  where
    and_right : (a b : Bool) → (a && b) ≡ true → b ≡ true
    and_right true b h = h
    and_right false b h = absurd (cc h)

mem-IsBytes : IsBytes mem
mem-IsBytes a = elim (Bool-cases (ltb a 65536)) [
  | inl below ↦ rw below (omega arith)
  | inr behind ↦ rw behind (get_or_lt image (a - 65536) refl)
]

-- "Foo"
abbrev foo : List ℕ
foo = b'F' ∷ b'o' ∷ b'o' ∷ []

found : find_vtable_gnu desktop mem 65536 foo ≡ returned (some 65768)
unfolding program string_to_signature string_bytes read_bytes name_eq before_zero headers_from
    named_header get_section_data object_to_signature find_in_section name_signature decimal
    find_vtable_gnu
found = refl

find_vtable_gnu-IsGnuVtable_example :
    IsGnuVtable desktop mem mem-IsBytes 65536 foo (find_vtable_gnu desktop mem 65536 foo)
find_vtable_gnu-IsGnuVtable_example = find_vtable_gnu-IsGnuVtable desktop mem mem-IsBytes 65536 foo
