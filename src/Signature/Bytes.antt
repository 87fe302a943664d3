-- ===== src/Signature/Bytes.antt =====
-- include/libhat/signature.hpp: `string_to_signature`, and what the signature of raw bytes matches.
use libhat.Prelude.{
  ℕ, zero, suc, ◌/◌, ◌%◌, ◌<◌, ◌≡◌, refl, subst, List, [], ◌∷◌, ◌++◌, map, All, arith,
}
use libhat.Signature.Element.{
  Result, Signature, SignatureError, byte_element, all, bit_and_full, bytes_to_signature, IsElement,
}
use libhat.Signature.Shape.{IsSignature, has_full}

-- `std::bit_cast` of a character to its bytes, the lowest first.
abbrev pub char_bytes : ℕ → ℕ → List ℕ
char_bytes zero ch = []
char_bytes (suc size) ch = ch % 256 ∷ char_bytes size (ch / 256)

-- The loop of `string_to_signature` over characters of `size` bytes.
unfoldable pub string_bytes : ℕ → List ℕ → List ℕ
string_bytes size [] = []
string_bytes size (ch ∷ str) = char_bytes size ch ++ string_bytes size str

unfoldable pub string_to_signature : ℕ → List ℕ → Result SignatureError Signature
string_to_signature size [] = Result.err SignatureError.empty_signature
string_to_signature size (ch ∷ str) =
    Result.ok (map (λ b. byte_element b) (string_bytes size (ch ∷ str)))

abbrev pub IsByte : ℕ → Type 0
IsByte b = b < 256

pub byte_element-IsElement : (b : ℕ) → b < 256 → IsElement (byte_element b)
byte_element-IsElement b lt = record {
  value_lt = lt;
  mask_lt = omega arith;
  inside = bit_and_full b lt;
}

pub bytes-All :
    (bytes : List ℕ) → All IsByte bytes → All IsElement (map (λ b. byte_element b) bytes)
bytes-All [] h = tt
bytes-All (b ∷ bytes) h = (byte_element-IsElement b h.0, bytes-All bytes h.1)

pub bytes-IsSignature :
    (b : ℕ) (bytes : List ℕ)
    → All IsByte (b ∷ bytes)
    → IsSignature (map (λ x. byte_element x) (b ∷ bytes))
unfolding has_full all
bytes-IsSignature b bytes h = record { elements = bytes-All (b ∷ bytes) h; full = refl }

-- On bytes, `bytes_to_signature` gives a signature that can be scanned with, unless there are none.
pub bytes_to_signature-IsSignature :
    (bytes : List ℕ) {sig : Signature}
    → All IsByte bytes
    → bytes_to_signature bytes ≡ Result.ok sig
    → IsSignature sig
unfolding bytes_to_signature
bytes_to_signature-IsSignature [] h e = cc e
bytes_to_signature-IsSignature (b ∷ bytes) h e =
    subst IsSignature (cc) (bytes-IsSignature b bytes h)

pub char_bytes-All : (size ch : ℕ) → All IsByte (char_bytes size ch)
char_bytes-All zero ch = tt
char_bytes-All (suc size) ch = (omega arith, char_bytes-All size (ch / 256))

All-append : (xs ys : List ℕ) → All IsByte xs → All IsByte ys → All IsByte (xs ++ ys)
All-append [] ys h k = k
All-append (x ∷ xs) ys h k = (h.0, All-append xs ys h.1 k)

pub string_bytes-All : (size : ℕ) (str : List ℕ) → All IsByte (string_bytes size str)
unfolding string_bytes
string_bytes-All size [] = tt
string_bytes-All size (ch ∷ str) =
    All-append (char_bytes size ch) _ (char_bytes-All size ch) (string_bytes-All size str)

pub string_to_signature-IsSignature :
    (size : ℕ) (str : List ℕ) {sig : Signature}
    → 0 < size
    → string_to_signature size str ≡ Result.ok sig
    → IsSignature sig
unfolding string_to_signature string_bytes
string_to_signature-IsSignature zero str pos e = absurd (omega arith)
string_to_signature-IsSignature (suc size) [] pos e = absurd (cc e)
string_to_signature-IsSignature (suc size) (ch ∷ str) pos e = subst IsSignature (cc) (
    bytes-IsSignature (ch % 256) (char_bytes size (ch / 256) ++ string_bytes (suc size) str)
      (string_bytes-All (suc size) (ch ∷ str)))
