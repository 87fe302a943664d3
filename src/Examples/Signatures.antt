-- ===== src/Examples/Signatures.antt =====
-- The parser and the printer of include/libhat/signature.hpp at concrete inputs.
use libhat.Prelude.{ℕ, ◌≡◌, refl, ◌≤◌, true, List, [], ◌∷◌, length, arith}
use libhat.Signature.Element.{
  Result, Signature, byte_element, nullopt_element, masked_element, all, is_none, has, at,
}
use libhat.Signature.ParseInt.{
  char_value, parse_digits, parse_signed_digits, parse_sign, apply_sign, parse_int,
  parse_int_signed,
}
use libhat.Signature.Number.{number, in_word}
use libhat.Signature.SignedNumber.{Sign, with_sign, value_of_sign, IsSignedRead, parse_int-number}
use libhat.Prelude.{Run, neg}
use libhat.Signature.Parse.{
  element_loop, parse_signature_element, split_words, split, read_word, parse_words,
  parse_signature_to, parse_signature, max_size, compile_signature,
}
use libhat.Signature.Print.{element_text, elements_text, to_string}
use libhat.Signature.Shape.{has_full, IsSignature, IsParsed, parse_signature_to-IsParsed}
use libhat.Signature.RoundTrip.{IsPrintable, parse_signature-to_string}
use libhat.Signature.Capacity.{
  parse_signature_to-max_size, to_option, compile_signature-parse_signature,
}
use libhat.Prelude.{ℕ, ◌+◌, ◌==◌, if◌then◌else◌}
use libhat.Signature.Element.{bytes_to_signature}
use libhat.Signature.Bytes.{
  string_bytes, string_to_signature, bytes_to_signature-IsSignature,
  string_to_signature-IsSignature,
}
use libhat.Scanner.ScanResult.{read_bytes, read, rel}
use libhat.Scanner.Relative.{read_bytes-Stores, rel-Stores}

-- "E8 ? ?C"
abbrev call_text : List ℕ
call_text = b'E' ∷ b'8' ∷ b' ' ∷ b'?' ∷ b' ' ∷ b'?' ∷ b'C' ∷ []

abbrev call : Signature
call = byte_element 0xE8 ∷ nullopt_element ∷ masked_element 0x0C 0x0F ∷ []

program : Unit {0}
unfolding parse_signature parse_signature_to split split_words parse_words read_word
    parse_signature_element element_loop parse_int parse_digits parse_int_signed parse_signed_digits
    parse_sign apply_sign char_value all to_string elements_text element_text is_none has at number
    has_full compile_signature
program = tt

parse_call : parse_signature call_text ≡ Result.ok call
unfolding program
parse_call = refl

print_call : to_string call ≡ call_text
unfolding program
print_call = refl

parse_signature_to-IsParsed_example : IsParsed (parse_signature_to call_text)
parse_signature_to-IsParsed_example = parse_signature_to-IsParsed call_text

whole-IsPrintable : IsPrintable (byte_element 0xE8)
whole-IsPrintable = record {
  good = record { value_lt = omega arith; mask_lt = omega arith; inside = refl };
  kept = refl;
}

wildcard-IsPrintable : IsPrintable nullopt_element
wildcard-IsPrintable = record {
  good = record { value_lt = omega arith; mask_lt = omega arith; inside = refl };
  kept = refl;
}

nibble-IsPrintable : IsPrintable (masked_element 0x0C 0x0F)
nibble-IsPrintable = record {
  good = record { value_lt = omega arith; mask_lt = omega arith; inside = refl };
  kept = refl;
}

call-has_full : has_full call ≡ true
unfolding program
call-has_full = refl

parse_signature-to_string_example : parse_signature (to_string call) ≡ Result.ok call
parse_signature-to_string_example =
    parse_signature-to_string call
      (whole-IsPrintable, (wildcard-IsPrintable, (nibble-IsPrintable, tt))) call-has_full

parse_signature_to-max_size_example : length (parse_signature_to call_text).1 ≤ max_size call_text
parse_signature_to-max_size_example = parse_signature_to-max_size call_text

compile_signature-parse_signature_example :
    compile_signature call_text ≡ to_option (parse_signature call_text)
compile_signature-parse_signature_example = compile_signature-parse_signature call_text

-- "7f" in base 16, behind a minus, for a signed type of 32 bits.
abbrev digits_7f : List ℕ
digits_7f = b'7' ∷ b'f' ∷ []

parse_minus_7f :
    parse_int_signed 32 (with_sign Sign.minus digits_7f) 16 ≡ Run.done (Result.ok (neg 127))
unfolding program
parse_minus_7f = refl

-- "-80000000" in base 16 is the least number of 32 bits, but its digits overflow.
abbrev digits_least : List ℕ
digits_least = b'8' ∷ b'0' ∷ b'0' ∷ b'0' ∷ b'0' ∷ b'0' ∷ b'0' ∷ b'0' ∷ []

parse_least : parse_int_signed 32 (with_sign Sign.minus digits_least) 16 ≡ Run.undefined
unfolding program
parse_least = refl

parse_int-number_example :
    (parse_int 32 digits_7f 16 ≡ in_word 32 (number 16 digits_7f))
    × IsSignedRead 32 16
        (value_of_sign Sign.minus)
        digits_7f
        (parse_int_signed 32 (with_sign Sign.minus digits_7f) 16)
parse_int-number_example =
    parse_int-number 32 16 Sign.minus digits_7f (omega arith) (omega arith) tt

-- "AB" and its bytes.
abbrev letters : List ℕ
letters = b'A' ∷ b'B' ∷ []

letters_signature :
    string_to_signature 1 letters ≡ Result.ok (byte_element 0x41 ∷ byte_element 0x42 ∷ [])
unfolding string_to_signature string_bytes
letters_signature = refl

letters-bytes : bytes_to_signature letters ≡ Result.ok (byte_element 0x41 ∷ byte_element 0x42 ∷ [])
unfolding bytes_to_signature
letters-bytes = refl

letters-IsSignature : IsSignature (byte_element 0x41 ∷ byte_element 0x42 ∷ [])
letters-IsSignature =
    bytes_to_signature-IsSignature letters (omega arith, (omega arith, tt)) letters-bytes

letters_string-IsSignature : IsSignature (byte_element 0x41 ∷ byte_element 0x42 ∷ [])
letters_string-IsSignature =
    string_to_signature-IsSignature 1 letters (omega arith) letters_signature

-- 48 8D 05 BE 53 23 01: the displacement of the comment on `rel`.
abbrev instruction : ℕ → ℕ
instruction a =
    if a == 4099
    then 0xBE
    else if a == 4100
    then 0x53
    else if a == 4101
    then 0x23
    else if a == 4102
    then 0x01
    else 0

rel_of_comment : rel instruction 4096 3 0 ≡ 4096 + 0x12353C5
unfolding rel read read_bytes
rel_of_comment = refl

read_bytes_of_comment : read_bytes instruction 4 4099 ≡ 0x12353BE
read_bytes_of_comment =
    read_bytes-Stores instruction 4 4099 0x12353BE (refl, (refl, (refl, (refl, tt)))) (omega arith)

rel-Stores_example : rel instruction 4096 3 0 ≡ 4096 + 0x12353C5
rel-Stores_example =
    rel-Stores instruction 4096 3 0 (4096 + 0x12353C5) refl (omega arith) (omega arith) refl
      (refl, (refl, (refl, (refl, tt))))
