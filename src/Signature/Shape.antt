-- ===== src/Signature/Shape.antt =====
-- What the parser of include/libhat/signature.hpp guarantees of a signature that it returns.
use libhat.Prelude.{
  ℕ, ◌+◌, ◌*◌, ◌%◌, ◌<◌, ◌==◌, ◌≡◌, refl, Bool, true, false, ◌||◌, List, [], ◌∷◌, ◌++◌,
}
use libhat.Prelude.{
  Option, none, some, length, length-append, All, arith, bit_and_bounds, if_both, Bool-cases, inl,
  inr, sym, ◌∙◌, ◌-◌, subst,
}
use libhat.Signature.Element.{
  Result, SignatureElement, IsElement, nullopt_element, masked_element, all, Signature,
  SignatureError,
}
use libhat.Signature.ParseInt.{parse_int}
use libhat.Signature.Parse.{
  element_loop, parse_signature_element, split, Token, parsed_token, finish, initial_state,
  with_signature, skip, wildcard, element, refused, read_word, ParseState, write, parse_words,
  parse_signature_to, parse_signature,
}

-- Some element is a whole byte.
unfoldable pub has_full : Signature → Bool
has_full [] = false
has_full (e ∷ sig) = all e || has_full sig

-- What the scanner needs of a signature.
pub record IsSignature (sig : Signature) : Type 0 where
  pub elements : All IsElement sig
  pub full : has_full sig ≡ true

pub masked_element-IsElement : (v m : ℕ) → m < 256 → IsElement (masked_element v m)
masked_element-IsElement v m h = omega (arith, bit_and_bounds v m)

-- What a word may give: a well-formed element, or none at all.
abbrev IsElement? : Option SignatureElement → Type 0
IsElement? none = Unit
IsElement? (some e) = IsElement e

element_loop-IsElement :
    (base value mask : ℕ) (text : List ℕ)
    → mask < 256
    → IsElement? (element_loop base value mask text)
unfolding element_loop
element_loop-IsElement base value mask [] h = masked_element-IsElement value mask h
element_loop-IsElement base value mask (ch ∷ rest) h =
    if_both IsElement? (ch == b'?')
      (element_loop-IsElement base (value * base % 256) (mask * base % 256) rest (omega arith))
      (elim (parse_int 8 (ch ∷ []) base)
        as (λ r. IsElement? (elim r [
          | Result.ok digit ↦
              element_loop base ((value * base % 256 + digit) % 256)
                ((mask * base % 256 + (base - 1)) % 256) rest
          | Result.err _ ↦ none
        ])) [
          | Result.ok digit ↦
              element_loop-IsElement base ((value * base % 256 + digit) % 256)
                ((mask * base % 256 + (base - 1)) % 256) rest (omega arith)
          | Result.err _ ↦ tt
        ])

abbrev IsElementToken : Token → Type 0
IsElementToken (element e) = IsElement e
IsElementToken _ = Unit

parsed_token-IsElement :
    (o : Option SignatureElement) → IsElement? o → IsElementToken (parsed_token o)
parsed_token-IsElement none h = tt
parsed_token-IsElement (some e) h = h

read_word-IsElement : (word : List ℕ) → IsElementToken (read_word word)
unfolding read_word parse_signature_element
read_word-IsElement [] = tt
read_word-IsElement (ch ∷ []) = if_both IsElementToken (ch == b'?') tt tt
read_word-IsElement (ch ∷ ch' ∷ rest) =
    let word = ch ∷ ch' ∷ rest in
    if_both IsElementToken (length word == 2)
      (parsed_token-IsElement _ (element_loop-IsElement 16 0 0 word (omega arith)))
      (if_both IsElementToken (length word == 8)
        (parsed_token-IsElement _ (element_loop-IsElement 2 0 0 word (omega arith))) tt)

-- The loop's invariant.
record IsState (s : ParseState) : Type 0 where
  elements : All IsElement s.out
  counted : s.written ≡ length s.out
  flagged : s.contains_byte ≡ has_full s.out

All-append_one :
    (sig : Signature) (e : SignatureElement)
    → All IsElement sig
    → IsElement e
    → All IsElement (sig ++ e ∷ [])
All-append_one [] e h k = (k, tt)
All-append_one (x ∷ sig) e h k = (h.0, All-append_one sig e h.1 k)

has_full-append_one :
    (sig : Signature) (e : SignatureElement) → has_full (sig ++ e ∷ []) ≡ (has_full sig || all e)
unfolding has_full
has_full-append_one [] e = ground arith
has_full-append_one (x ∷ sig) e = ground (arith, has_full-append_one sig e)

write-IsState :
    (e : SignatureElement) (full : Bool) (s : ParseState)
    → full ≡ all e
    → IsElement e
    → IsState s
    → IsState (write e full s)
write-IsState e full s same good inv = record {
  elements = All-append_one s.out e inv.elements good;
  counted = omega (arith, length-append s.out (e ∷ []), inv.counted);
  flagged = rw (has_full-append_one s.out e, same, inv.flagged);
}

abbrev pub IsParsed : Result SignatureError ℕ × Signature → Type 0
IsParsed (Result.ok written, sig) = (written ≡ length sig) × IsSignature sig
IsParsed (Result.err error, sig) = All IsElement sig

finish-IsParsed : (s : ParseState) → IsState s → IsParsed (finish s, s.out)
finish-IsParsed s inv = elim (Bool-cases (s.written == 0)) [
  | inl e ↦ rw e inv.elements
  | inr e ↦ rw e (elim (Bool-cases s.contains_byte) [
    | inl f ↦ rw f (inv.counted, record { elements = inv.elements; full = sym inv.flagged ∙ f })
    | inr f ↦ rw f inv.elements
  ])
]

nullopt_element-IsElement : IsElement nullopt_element
nullopt_element-IsElement = omega (arith, bit_and_bounds 0 0)

parse_words-IsParsed :
    (words : List (List ℕ)) (s : ParseState) → IsState s → IsParsed (parse_words words s)
unfolding parse_words
parse_words-IsParsed [] s inv = finish-IsParsed s inv
parse_words-IsParsed (word ∷ words) s inv =
    (elim (read_word word)
        as (λ t.
          IsElementToken t
          → IsParsed (elim t [
            | skip ↦ parse_words words s
            | wildcard ↦ parse_words words (write nullopt_element false s)
            | element e ↦ parse_words words (write e (all e) s)
            | refused error ↦ (Result.err error, s.out)
          ])) [
            | skip ↦ λ _. parse_words-IsParsed words s inv
            | wildcard ↦ λ _. parse_words-IsParsed words (write nullopt_element false s) (
                write-IsState nullopt_element false s (unfold all in refl) nullopt_element-IsElement
                  inv)
            | element e ↦ λ good.
                parse_words-IsParsed words (write e (all e) s)
                  (write-IsState e (all e) s refl good inv)
            | refused error ↦ λ _. inv.elements
          ])
      (read_word-IsElement word)

initial-IsState : IsState initial_state
unfolding has_full
initial-IsState = record { elements = tt; counted = refl; flagged = refl }

-- On every text, what `parse_signature_to` wrote is well formed; on success it is as long as the
-- result says and has a whole byte.
pub parse_signature_to-IsParsed : (text : List ℕ) → IsParsed (parse_signature_to text)
unfolding parse_signature_to
parse_signature_to-IsParsed text = parse_words-IsParsed (split text) initial_state initial-IsState

-- Every signature that `parse_signature` returns has well-formed elements and a whole byte.
pub parse_signature-IsSignature :
    (text : List ℕ) {sig : Signature} → parse_signature text ≡ Result.ok sig → IsSignature sig
unfolding parse_signature
parse_signature-IsSignature text h =
    go (parse_signature_to text) (parse_signature_to-IsParsed text) h
  where
    go :
        {sig : Signature} (r : Result SignatureError ℕ × Signature)
        → IsParsed r
        → with_signature r ≡ Result.ok sig
        → IsSignature sig
    go (Result.ok written, out) good e = subst IsSignature (cc) good.1
    go (Result.err error, out) good e = cc
