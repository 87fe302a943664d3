-- ===== src/Signature/Printable.antt =====
-- Which elements `hat::to_string` prints so that the parser reads them back: the text has a digit for
-- each nibble when one nibble is whole, and then the other must be whole or empty.
use libhat.Prelude.{ℕ, ◌/◌, bit_and, ◌==◌, ◌≡◌, refl, Bool, true, false, not, ◌&&◌, ◌||◌}
use libhat.Prelude.{
  if◌then◌else◌, List, [], ◌∷◌, ◌++◌, arith, holds_below, holds_below_sound, ◌⊎◌, inl, inr,
  Bool-cases, ==_iff,
}
use libhat.Signature.Element.{SignatureElement, IsElement, nullopt_element, is_none, has, at}
use libhat.Signature.ParseInt.{char_value, parse_digits, parse_int}
use libhat.Signature.Parse.{
  Token, skip, wildcard, element, refused, element_loop, parse_signature_element, read_word,
}
use libhat.Signature.Print.{hex_digit, bit_char, element_text}

-- One nibble whole and the other in part: the text loses the bits of the other.
abbrev pub is_lossy : ℕ → Bool
is_lossy mask =
    let high = bit_and mask 0xF0 in
    let low = bit_and mask 0x0F in
    (high == 0xF0 && not (low == 0x0F) && not (low == 0))
    || (low == 0x0F && not (high == 0xF0) && not (high == 0))

-- The text of an element, less the space.
unfoldable pub element_word : SignatureElement → List ℕ
unfolding is_none has at
element_word e =
    let high = bit_and e.mask 0xF0 == 0xF0 in
    let low = bit_and e.mask 0x0F == 0x0F in
    if high || low
    then (if high then hex_digit (bit_and (e.value / 16) 0xF) else b'?')
      ∷ (if low then hex_digit (bit_and e.value 0xF) else b'?')
      ∷ []
    else if is_none e
    then b'?' ∷ []
    else bit_char e 7
      ∷ bit_char e 6
      ∷ bit_char e 5
      ∷ bit_char e 4
      ∷ bit_char e 3
      ∷ bit_char e 2
      ∷ bit_char e 1
      ∷ bit_char e 0
      ∷ []

pub element_text_lem : (e : SignatureElement) → element_text e ≡ element_word e ++ b' ' ∷ []
unfolding element_text element_word
element_text_lem e =
    elim (Bool-cases ((bit_and e.mask 0xF0 == 0xF0) || (bit_and e.mask 0x0F == 0x0F))) [
      | inl nibble ↦ rw nibble refl
      | inr other ↦
          rw other (elim (Bool-cases (e.mask == 0)) [
            | inl empty ↦ rw empty refl
            | inr bits ↦ rw bits refl
          ])
    ]

unfoldable pub no_space : List ℕ → Bool
no_space [] = true
no_space (ch ∷ text) = not (ch == b' ') && no_space text

-- Whether a word was read as this element.
abbrev token_is : Token → SignatureElement → Bool
token_is wildcard e = e.mask == 0 && e.value == 0
token_is (element e') e = SignatureElement.mask e' == e.mask && SignatureElement.value e' == e.value
token_is _ e = false

-- The checks at one value and one mask.
prints_back : ℕ → ℕ → Bool
prints_back mask value =
    let e : SignatureElement = record { value = value; mask = mask } in
    let back = token_is (read_word (element_word e)) e && no_space (element_word e) in
    elim (is_lossy mask || not (bit_and value mask == value)) [ true ↦ true | false ↦ back ]

prints_back_table : holds_below 256 (λ mask. holds_below 256 (prints_back mask)) ≡ true
unfolding holds_below prints_back read_word parse_signature_element element_loop parse_int
    parse_digits char_value element_word no_space
prints_back_table = refl

abbrev pub Reads : Token → SignatureElement → Type 0
Reads t e = ((t ≡ wildcard) × (e ≡ nullopt_element)) ⊎ (t ≡ element e)

token_is-Reads : (t : Token) (e : SignatureElement) → token_is t e ≡ true → Reads t e
token_is-Reads skip e h = ground arith
token_is-Reads (refused error) e h = ground arith
token_is-Reads wildcard e h = inl (refl, λ i. record { value = both_eq i; mask = mask_eq i })
  where
    mask_eq : e.mask ≡ 0
    mask_eq = ground arith

    both_eq : e.value ≡ 0
    both_eq = ground arith
token_is-Reads (element e') e h =
    inr (λ i. element (record { value = value_eq i; mask = mask_eq i }))
  where
    mask_eq : e'.mask ≡ e.mask
    mask_eq = ground arith

    value_eq : e'.value ≡ e.value
    value_eq = ground arith

unless_sound : (b c : Bool) → elim b [ true ↦ true | false ↦ c ] ≡ true → b ≡ false → c ≡ true
unless_sound true c h e = ground arith
unless_sound false c h e = h

and_true : (a b : Bool) → (a && b) ≡ true → (a ≡ true) × (b ≡ true)
and_true true b h = (refl, h)
and_true false b h = ground arith

-- The table at one element.
prints_back_lem :
    (e : SignatureElement)
    → IsElement e
    → is_lossy e.mask ≡ false
    → (token_is (read_word (element_word e)) e && no_space (element_word e)) ≡ true
unfolding prints_back
prints_back_lem e good kept =
    let same : (bit_and e.value e.mask == e.value) ≡ true = (==_iff _ _).1 good.inside in
    let row =
      holds_below_sound 256 (λ mask. holds_below 256 (prints_back mask)) e.mask prints_back_table
        good.mask_lt in
    unless_sound (is_lossy e.mask || not (bit_and e.value e.mask == e.value)) _
      (holds_below_sound 256 (prints_back e.mask) e.value row good.value_lt) (rw (kept, same) refl)

-- The word of an element that loses nothing is read as the element, and has no space in it.
pub element_word_lem :
    (e : SignatureElement)
    → IsElement e
    → is_lossy e.mask ≡ false
    → Reads (read_word (element_word e)) e × (no_space (element_word e) ≡ true)
element_word_lem e good kept =
    let both = and_true _ _ (prints_back_lem e good kept) in (token_is-Reads _ e both.0, both.1)
