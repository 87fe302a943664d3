-- ===== src/Signature/Capacity.antt =====
-- include/libhat/signature.hpp: `compile_signature` has room for the signature.
use libhat.Prelude.{ℕ, suc, ◌+◌, ◌*◌, ◌/◌, ◌≤◌, ◌≡◌, refl, ap, ◌==◌, ltb, Bool, false, if_both}
use libhat.Prelude.{List, [], ◌∷◌, Option, none, some, length, length-append, take, arith}
use libhat.Signature.Element.{
  Result, Signature, SignatureElement, SignatureError, nullopt_element, all,
}
use libhat.Signature.Parse.{
  skip, wildcard, element, refused, ParseState, write, cons_head, split_words, split, read_word,
  parse_words, initial_state, parse_signature_to, parse_signature, with_signature, max_size,
  with_array, compile_signature,
}
use libhat.Signature.Shape.{parse_signature_to-IsParsed, IsParsed}

-- The words that are not empty: each gives an element at most.
count_words : List (List ℕ) → ℕ
count_words [] = 0
count_words ([] ∷ words) = count_words words
count_words ((ch ∷ word) ∷ words) = 1 + count_words words

parse_words-length :
    (words : List (List ℕ)) (s : ParseState)
    → length (parse_words words s).1 ≤ length s.out + count_words words
unfolding parse_words count_words read_word
parse_words-length [] s = omega arith
parse_words-length ([] ∷ words) s = parse_words-length words s
parse_words-length ((ch ∷ word) ∷ words) s =
    (elim (read_word (ch ∷ word))
      as (λ t.
        length
          (elim t as (λ _. Result SignatureError ℕ × Signature) [
            | skip ↦ parse_words words s
            | wildcard ↦ parse_words words (write nullopt_element false s)
            | element e ↦ parse_words words (write e (all e) s)
            | refused error ↦ (Result.err error, s.out)
          ]).1
        ≤ length s.out + (1 + count_words words)) [
          | skip ↦ omega (arith, parse_words-length words s)
          | wildcard ↦ written nullopt_element false (λ s'. parse_words-length words s')
          | element e ↦ written e (all e) (λ s'. parse_words-length words s')
          | refused error ↦ omega arith
        ])
  where
    written :
        (e : SignatureElement) (full : Bool)
        → ((s' : ParseState) → length (parse_words words s').1 ≤ length s'.out + count_words words)
        → length (parse_words words (write e full s)).1 ≤ length s.out + (1 + count_words words)
    written e full ih = omega (arith, ih (write e full s), length-append s.out (e ∷ []))

-- A text of n characters has room for these words: two characters for a word and the space before it,
-- and one for the first word.
abbrev IsWithin : ℕ → List (List ℕ) → Type 0
IsWithin n [] = Unit
IsWithin n ([] ∷ words) = count_words words * 2 ≤ n
IsWithin n ((ch ∷ word) ∷ words) = (1 + count_words words) * 2 ≤ n + 1

space-IsWithin : (n : ℕ) (words : List (List ℕ)) → IsWithin n words → IsWithin (suc n) ([] ∷ words)
unfolding count_words
space-IsWithin n [] h = omega arith
space-IsWithin n ([] ∷ words) h = omega arith
space-IsWithin n ((ch ∷ word) ∷ words) h = omega arith

cons_head-IsWithin :
    (n ch : ℕ) (words : List (List ℕ)) → IsWithin n words → IsWithin (suc n) (cons_head ch words)
unfolding count_words
cons_head-IsWithin n ch [] h = omega arith
cons_head-IsWithin n ch ([] ∷ words) h = omega arith
cons_head-IsWithin n ch ((c ∷ word) ∷ words) h = omega arith

split_words-IsWithin : (text : List ℕ) → IsWithin (length text) (split_words text)
unfolding split_words count_words
split_words-IsWithin [] = omega arith
split_words-IsWithin (ch ∷ text) =
    let ih = split_words-IsWithin text in
    if_both (IsWithin (suc (length text))) (ch == b' ')
      (space-IsWithin (length text) (split_words text) ih)
      (cons_head-IsWithin (length text) ch (split_words text) ih)

IsWithin-max_size :
    (n : ℕ) (words : List (List ℕ)) → IsWithin n words → count_words words ≤ n / 2 + 1
unfolding count_words
IsWithin-max_size n [] h = omega arith
IsWithin-max_size n ([] ∷ words) h = omega arith
IsWithin-max_size n ((ch ∷ word) ∷ words) h = omega arith

split-max_size : (text : List ℕ) → count_words (split text) ≤ max_size text
unfolding split count_words
split-max_size [] = omega arith
split-max_size (ch ∷ text) =
    IsWithin-max_size _ (split_words (ch ∷ text)) (split_words-IsWithin (ch ∷ text))

-- On every text, `parse_signature_to` writes no more elements than the array of
-- `compile_signature_max_size` has, also when it refuses the text.
pub parse_signature_to-max_size :
    (text : List ℕ) → length (parse_signature_to text).1 ≤ max_size text
unfolding parse_signature_to
parse_signature_to-max_size text =
    omega (arith, parse_words-length (split text) initial_state, split-max_size text)

-- The value of a result, if it is one.
abbrev pub to_option : Result SignatureError Signature → Option Signature
to_option (Result.ok sig) = some sig
to_option (Result.err error) = none

take-length : (sig : Signature) → take (length sig) sig ≡ sig
take-length [] = refl
take-length (e ∷ sig) = ap (λ s. e ∷ s) (take-length sig)

with_array-to_option :
    (capacity : ℕ) (r : Result SignatureError ℕ × Signature)
    → IsParsed r
    → length r.1 ≤ capacity
    → with_array capacity r ≡ to_option (with_signature r)
with_array-to_option capacity (Result.ok written, sig) good fits =
    let room : ltb capacity (length sig) ≡ false = ground arith in
    rw (room, good.0) (ap some (take-length sig))
with_array-to_option capacity (Result.err error, sig) good fits = refl

-- On every text, `compile_signature` compiles exactly when `parse_signature` returns a signature,
-- and gives the same one.
pub compile_signature-parse_signature :
    (text : List ℕ) → compile_signature text ≡ to_option (parse_signature text)
unfolding compile_signature parse_signature
compile_signature-parse_signature text =
    with_array-to_option (max_size text) (parse_signature_to text)
      (parse_signature_to-IsParsed text) (parse_signature_to-max_size text)
