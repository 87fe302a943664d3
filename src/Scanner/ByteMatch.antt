-- ===== src/Scanner/ByteMatch.antt =====
-- Where the signatures of raw bytes and of strings stand.
use libhat.Prelude.{
  ℕ, zero, suc, ◌+◌, ◌==◌, ==_iff, ◌≡◌, ◌↔◌, refl, sym, ◌∙◌, subst, Bool, true, false, ◌&&◌, List,
  [], ◌∷◌, map, length,
}
use mathlib.Core.List.{head-eq_of_cons-eq, tail-eq_of_cons-eq}
use libhat.Signature.Element.{
  Result, Signature, all, byte_element, element_matches-full, bytes_to_signature,
}
use libhat.Signature.Bytes.{string_bytes, string_to_signature}
use libhat.Scanner.Context.{Memory, IsBytes, equal_at}

-- The `n` bytes from an address on.
abbrev pub bytes_at : Memory → ℕ → ℕ → List ℕ
bytes_at mem start zero = []
bytes_at mem start (suc n) = mem start ∷ bytes_at mem (start + 1) n

byte_elements-equal_at :
    (mem : Memory) (bytes : List ℕ) (start : ℕ)
    → IsBytes mem
    → (equal_at mem (map (λ b. byte_element b) bytes) start ≡ true)
      ↔ (bytes_at mem start (length bytes) ≡ bytes)
unfolding equal_at
byte_elements-equal_at mem [] start ok = (λ h. refl, λ h. refl)
byte_elements-equal_at mem (b ∷ bytes) start ok =
    let rest = byte_elements-equal_at mem bytes (start + 1) ok in
    let here = element_matches-full (byte_element b) (mem start) (unfold all in refl) (ok start) in
    (
      λ h.
          let both = and_true _ _ h in
          cons_eq ((==_iff (mem start) b).0 (sym here ∙ both.0)) (rest.0 both.1),
      λ h.
          let first : (mem start == b) ≡ true = (==_iff (mem start) b).1 (head-eq_of_cons-eq h) in
          rw (here ∙ first, rest.1 (tail-eq_of_cons-eq h)) refl,
    )
  where
    and_true : (x y : Bool) → (x && y) ≡ true → (x ≡ true) × (y ≡ true)
    and_true true y h = (refl, h)
    and_true false y h = absurd (cc h)

    cons_eq : {x y : ℕ} {xs ys : List ℕ} → x ≡ y → xs ≡ ys → x ∷ xs ≡ y ∷ ys
    cons_eq p q = λ i. p i ∷ q i

-- In a memory of bytes, the signature that `bytes_to_signature` gives matches exactly where those
-- bytes stand.
bytes_to_signature-equal_at :
    (mem : Memory) (bytes : List ℕ) (sig : Signature) (start : ℕ)
    → IsBytes mem
    → bytes_to_signature bytes ≡ Result.ok sig
    → (equal_at mem sig start ≡ true) ↔ (bytes_at mem start (length bytes) ≡ bytes)
unfolding bytes_to_signature
bytes_to_signature-equal_at mem [] sig start ok h = absurd (cc h)
bytes_to_signature-equal_at mem (b ∷ bytes) sig start ok h =
    subst
      (λ s. (equal_at mem s start ≡ true) ↔ (bytes_at mem start (length (b ∷ bytes)) ≡ b ∷ bytes))
      (cc) (byte_elements-equal_at mem (b ∷ bytes) start ok)

-- In a memory of bytes, the signature that `string_to_signature` gives matches exactly where the
-- bytes of the characters stand, for characters of any size.
string_to_signature-equal_at :
    (mem : Memory) (size : ℕ) (str : List ℕ) (sig : Signature) (start : ℕ)
    → IsBytes mem
    → string_to_signature size str ≡ Result.ok sig
    → (equal_at mem sig start ≡ true)
      ↔ (bytes_at mem start (length (string_bytes size str)) ≡ string_bytes size str)
unfolding string_to_signature
string_to_signature-equal_at mem size [] sig start ok h = absurd (cc h)
string_to_signature-equal_at mem size (ch ∷ str) sig start ok h =
    subst
      (λ s. (equal_at mem s start ≡ true) ↔ (
        bytes_at mem start (length (string_bytes size (ch ∷ str))) ≡ string_bytes size (ch ∷ str)))
      (cc) (byte_elements-equal_at mem (string_bytes size (ch ∷ str)) start ok)
