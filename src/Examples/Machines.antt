-- ===== src/Examples/Machines.antt =====
-- Memory, signatures and machines that the examples share.
use libhat.Prelude.{◌%◌, refl, true, false, [], ◌∷◌, none, some, arith}
use libhat.Signature.Element.{Signature, byte_element, nullopt_element, IsElement, all}
use libhat.Signature.Shape.{IsSignature, has_full}
use libhat.Scanner.Context.{Memory, IsBytes}
use libhat.Scanner.Hints.{HintTables, PairHint}
use libhat.Scanner.Resolve.{Build, Extensions}
use libhat.Scanner.FindPattern.{Machine}

abbrev pub counting : Memory
counting a = a % 256

pub counting-IsBytes : IsBytes counting
counting-IsBytes a = omega arith

-- "05 ? 07"
abbrev pub five_seven : Signature
five_seven = byte_element 5 ∷ nullopt_element ∷ byte_element 7 ∷ []

-- "05 06"
abbrev pub five_six : Signature
five_six = byte_element 5 ∷ byte_element 6 ∷ []

byte_five-IsElement : IsElement (byte_element 5)
byte_five-IsElement = record { value_lt = omega arith; mask_lt = omega arith; inside = refl }

wildcard-IsElement : IsElement nullopt_element
wildcard-IsElement = record { value_lt = omega arith; mask_lt = omega arith; inside = refl }

byte_seven-IsElement : IsElement (byte_element 7)
byte_seven-IsElement = record { value_lt = omega arith; mask_lt = omega arith; inside = refl }

pub five_seven-IsSignature : IsSignature five_seven
unfolding has_full all
five_seven-IsSignature = record {
  elements = (byte_five-IsElement, (wildcard-IsElement, (byte_seven-IsElement, tt)));
  full = refl;
}

abbrev pub no_extension : Extensions
no_extension = record {
  sse41 = false;
  avx2 = false;
  avx512f = false;
  avx512bw = false;
  bmi = false;
  neon = false;
}

abbrev pub with_avx2 : Extensions
with_avx2 = record {
  sse41 = true;
  avx2 = true;
  avx512f = false;
  avx512bw = false;
  bmi = true;
  neon = false;
}

abbrev pub small_table : PairHint
small_table = record { pairs = (0, 0) ∷ (5, 6) ∷ []; scores = 3 ∷ 7 ∷ [] }

abbrev pub tables : HintTables
tables = record { x86_64 = some small_table; aarch64 = none }

abbrev pub x86_64_build : Build
x86_64_build = record {
  is_x86 = false;
  is_x86_64 = true;
  is_arm = false;
  feature_avx512 = true;
  feature_sse = true;
  tables = tables;
}

abbrev pub desktop : Machine
desktop = record { build = x86_64_build; compiled = no_extension; ext = with_avx2 }

abbrev pub old : Machine
old = record { build = x86_64_build; compiled = no_extension; ext = no_extension }
