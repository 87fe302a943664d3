-- ===== src/Signature/Print.antt =====
-- include/libhat/signature.hpp: `hat::to_string`.
use libhat.Prelude.{ℕ, ◌+◌, ◌-◌, ◌/◌, bit_and, ◌==◌, ltb, ◌||◌}
use libhat.Prelude.{if◌then◌else◌, List, [], ◌∷◌, ◌++◌}
use libhat.Signature.Element.{SignatureElement, Signature, is_none, has, at}

-- `hex[digit]`, for the literal "0123456789ABCDEF".
abbrev pub hex_digit : ℕ → ℕ
hex_digit digit = if ltb digit 10 then b'0' + digit else b'A' + (digit - 10)

abbrev pub bit_char : SignatureElement → ℕ → ℕ
bit_char e digit = if has e digit then (if at e digit then b'1' else b'0') else b'?'

-- One element with the space behind it.
unfoldable pub element_text : SignatureElement → List ℕ
unfolding is_none has at
element_text e =
    let high = bit_and e.mask 0xF0 == 0xF0 in
    let low = bit_and e.mask 0x0F == 0x0F in
    if high || low
    then (if high then hex_digit (bit_and (e.value / 16) 0xF) else b'?')
      ∷ (if low then hex_digit (bit_and e.value 0xF) else b'?')
      ∷ b' '
      ∷ []
    else if is_none e
    then b'?' ∷ b' ' ∷ []
    else bit_char e 7
      ∷ bit_char e 6
      ∷ bit_char e 5
      ∷ bit_char e 4
      ∷ bit_char e 3
      ∷ bit_char e 2
      ∷ bit_char e 1
      ∷ bit_char e 0
      ∷ b' '
      ∷ []

unfoldable pub elements_text : Signature → List ℕ
elements_text [] = []
elements_text (e ∷ sig) = element_text e ++ elements_text sig

-- `ret.pop_back()`. On the empty string, which an empty signature gives, C++ leaves it undefined.
abbrev pub pop_back : List ℕ → List ℕ
pop_back [] = []
pop_back (ch ∷ []) = []
pop_back (ch ∷ ch' ∷ rest) = ch ∷ pop_back (ch' ∷ rest)

unfoldable pub to_string : Signature → List ℕ
to_string sig = pop_back (elements_text sig)
