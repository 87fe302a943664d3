-- ===== src/Signature/Parse.antt =====
-- include/libhat/signature.hpp: `parse_signature_element`, `parse_signature_to`, `parse_signature`
-- and `compile_signature`. Text is a list of character codes.
use libhat.Prelude.{ℕ, ◌+◌, ◌-◌, ◌*◌, ◌/◌, ◌%◌, ◌==◌, ltb, Bool, false, ◌||◌}
use libhat.Prelude.{if◌then◌else◌, List, [], ◌∷◌, ◌++◌, Option, none, some, length, take}
use libhat.Signature.Element.{
  Result, SignatureElement, nullopt_element, masked_element, all, Signature, SignatureError,
  missing_masked_byte, element_parse_error, empty_signature, expected_wildcard,
  invalid_token_length,
}
use libhat.Signature.ParseInt.{parse_int}

-- The loop of `detail::parse_signature_element`; `value` and `mask` are `std::uint8_t`.
unfoldable pub element_loop : ℕ → ℕ → ℕ → List ℕ → Option SignatureElement
element_loop base value mask [] = some (masked_element value mask)
element_loop base value mask (ch ∷ rest) =
    let value' = (value * base) % 256 in
    let mask' = (mask * base) % 256 in
    let wild = element_loop base value' mask' rest in
    if ch == b'?' then wild else elim (parse_int 8 (ch ∷ []) base) [
      | Result.ok digit ↦
          element_loop base ((value' + digit) % 256) ((mask' + (base - 1)) % 256) rest
      | Result.err _ ↦ none
    ]

unfoldable pub parse_signature_element : List ℕ → ℕ → Option SignatureElement
parse_signature_element text base = element_loop base 0 0 text

-- One more character in the first word.
abbrev pub cons_head : ℕ → List (List ℕ) → List (List ℕ)
cons_head ch [] = (ch ∷ []) ∷ []
cons_head ch (word ∷ words) = (ch ∷ word) ∷ words

-- `str | std::views::split(' ')` on a text that is not empty: each space ends a word, and a word can
-- be empty.
unfoldable pub split_words : List ℕ → List (List ℕ)
split_words [] = [] ∷ []
split_words (ch ∷ rest) =
    let words = split_words rest in if ch == b' ' then [] ∷ words else cons_head ch words

-- The same on any text: an empty one has no word.
unfoldable pub split : List ℕ → List (List ℕ)
unfolding split_words
split [] = []
split (ch ∷ rest) = split_words (ch ∷ rest)

-- What the `switch` on a word's size does with it.
pub data Token : Type 0 where
  skip : Token
  wildcard : Token
  element : SignatureElement → Token
  refused : SignatureError → Token

abbrev pub parsed_token : Option SignatureElement → Token
parsed_token (some e) = element e
parsed_token none = refused element_parse_error

unfoldable pub read_word : List ℕ → Token
read_word [] = skip
read_word (ch ∷ []) = if ch == b'?' then wildcard else refused expected_wildcard
read_word word =
    if length word == 2
    then parsed_token (parse_signature_element word 16)
    else if length word == 8
    then parsed_token (parse_signature_element word 2)
    else refused invalid_token_length

-- The variables of the loop: what `out` was given, `written` and `containsByte`.
pub record ParseState : Type 0 where
  pub out : Signature
  pub written : ℕ
  pub contains_byte : Bool

abbrev pub write : SignatureElement → Bool → ParseState → ParseState
write e full s = record {
  out = s.out ++ e ∷ [];
  written = s.written + 1;
  contains_byte = s.contains_byte || full;
}

-- The tests after the loop.
abbrev pub finish : ParseState → Result SignatureError ℕ
finish s =
    if s.written == 0
    then Result.err empty_signature
    else if s.contains_byte
    then Result.ok s.written
    else Result.err missing_masked_byte

-- The loop over the words. An error leaves in `out` what was written before it.
unfoldable pub parse_words : List (List ℕ) → ParseState → Result SignatureError ℕ × Signature
parse_words [] s = (finish s, s.out)
parse_words (word ∷ words) s = elim (read_word word) [
  | skip ↦ parse_words words s
  | wildcard ↦ parse_words words (write nullopt_element false s)
  | element e ↦ parse_words words (write e (all e) s)
  | refused error ↦ (Result.err error, s.out)
]

abbrev pub initial_state : ParseState
initial_state = record { out = []; written = 0; contains_byte = false }

-- The result, and what the output iterator was given.
unfoldable pub parse_signature_to : List ℕ → Result SignatureError ℕ × Signature
parse_signature_to text = parse_words (split text) initial_state

abbrev pub with_signature : Result SignatureError ℕ × Signature → Result SignatureError Signature
with_signature (Result.ok written, sig) = Result.ok sig
with_signature (Result.err error, sig) = Result.err error

unfoldable pub parse_signature : List ℕ → Result SignatureError Signature
parse_signature text = with_signature (parse_signature_to text)

-- `compile_signature`: the array that `compile_signature_max_size` fills has this many elements, and
-- the first `written` of them are kept.
abbrev pub max_size : List ℕ → ℕ
max_size text = length text / 2 + 1

-- `none` is a program that does not compile: a signature that is refused, or a write past the array.
abbrev pub with_array : ℕ → Result SignatureError ℕ × Signature → Option Signature
with_array capacity (Result.ok written, array) =
    if ltb capacity (length array) then none else some (take written array)
with_array capacity (Result.err error, array) = none

unfoldable pub compile_signature : List ℕ → Option Signature
compile_signature text = with_array (max_size text) (parse_signature_to text)
