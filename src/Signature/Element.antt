-- ===== src/Signature/Element.antt =====
-- include/libhat/signature.hpp: `hat::signature_element`, and the conversions of raw bytes.
-- A `std::byte` is a number below 256.
use libhat.Prelude.{ℕ, ◌^◌, ◌<◌, bit_and, ◌≡◌, refl, ◌==◌, Bool, true}
use libhat.Prelude.{not, List, [], ◌∷◌, map, ==_iff, arith, holds_below, holds_below_sound}

-- include/libhat/result.hpp: `hat::result`, a value or an error.
pub data Result {ℓ κ} (E : Type ℓ) (T : Type κ) : Type (ℓ ⊔ κ) where
  ok : T → Result E T
  err : E → Result E T

pub record SignatureElement : Type 0 where
  pub value : ℕ
  pub mask : ℕ

-- The constructors. `std::nullopt` gives the wildcard.
abbrev pub nullopt_element : SignatureElement
nullopt_element = record { value = 0; mask = 0 }

abbrev pub byte_element : ℕ → SignatureElement
byte_element v = record { value = v; mask = 0xFF }

abbrev pub masked_element : ℕ → ℕ → SignatureElement
masked_element v m = record { value = bit_and v m; mask = m }

unfoldable pub all : SignatureElement → Bool
all e = e.mask == 0xFF

unfoldable pub any : SignatureElement → Bool
any e = not (e.mask == 0x00)

-- The member function `none`.
unfoldable pub is_none : SignatureElement → Bool
is_none e = e.mask == 0x00

-- `(x & (1u << digit)) != 0`, for a digit from 0 to 7.
abbrev pub test_bit : ℕ → ℕ → Bool
test_bit x digit = not (bit_and x (2 ^ digit) == 0)

unfoldable pub has : SignatureElement → ℕ → Bool
has e digit = test_bit e.mask digit

unfoldable pub at : SignatureElement → ℕ → Bool
at e digit = test_bit e.value digit

-- `operator==(std::byte)`.
unfoldable pub element_matches : SignatureElement → ℕ → Bool
element_matches e byte = bit_and byte e.mask == e.value

abbrev pub Signature : Type 0
Signature = List SignatureElement

pub data SignatureError : Type 0 where
  missing_masked_byte : SignatureError
  element_parse_error : SignatureError
  empty_signature : SignatureError
  expected_wildcard : SignatureError
  invalid_token_length : SignatureError

-- `bytes_to_signature(std::span<const std::byte>)`.
unfoldable pub bytes_to_signature : List ℕ → Result SignatureError Signature
bytes_to_signature [] = Result.err empty_signature
bytes_to_signature (b ∷ bytes) = Result.ok (map (λ x. byte_element x) (b ∷ bytes))

-- Every constructor keeps the value inside the mask, and both are bytes.
pub record IsElement (e : SignatureElement) : Type 0 where
  pub value_lt : e.value < 256
  pub mask_lt : e.mask < 256
  pub inside : bit_and e.value e.mask ≡ e.value

full_mask_table : holds_below 256 (λ b. bit_and b 0xFF == b) ≡ true
unfolding holds_below
full_mask_table = refl

pub bit_and_full : (b : ℕ) → b < 256 → bit_and b 0xFF ≡ b
bit_and_full b h = (==_iff _ b).0 (holds_below_sound 256 _ b full_mask_table h)

-- A full element matches its value and no other byte.
pub element_matches-full :
    (e : SignatureElement) (b : ℕ) → all e ≡ true → b < 256 → element_matches e b ≡ (b == e.value)
unfolding all element_matches
element_matches-full e b h lt = ground (arith, bit_and_full b lt)
