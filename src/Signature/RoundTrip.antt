-- ===== src/Signature/RoundTrip.antt =====
-- include/libhat/signature.hpp: `parse_signature` reads what `to_string` prints.
use libhat.Prelude.{ℕ, ◌+◌, ◌≡◌, refl, ap, sym, ◌∙◌, ◌==◌, true, false, ◌||◌}
use libhat.Prelude.{List, [], ◌∷◌, ◌++◌, map, length, All, arith, Bool-cases, inl, inr}
use mathlib.Core.Bool.{or-false, or_assoc}
use mathlib.Core.List.{append-nil, append_assoc}
use libhat.Signature.Element.{
  Result, Signature, SignatureElement, IsElement, nullopt_element, all, SignatureError,
}
use libhat.Signature.Parse.{
  Token, skip, wildcard, element, refused, ParseState, write, finish, split_words, split,
  parse_words, initial_state, read_word, parse_signature_to, parse_signature, with_signature,
}
use libhat.Signature.Print.{elements_text, pop_back, to_string}
use libhat.Signature.Shape.{has_full}
use libhat.Signature.Printable.{
  is_lossy, element_word, element_text_lem, no_space, Reads, element_word_lem,
}

-- An element of which the text keeps every bit.
pub record IsPrintable (e : SignatureElement) : Type 0 where
  pub good : IsElement e
  pub kept : is_lossy e.mask ≡ false

split_words-last : (word : List ℕ) → no_space word ≡ true → split_words word ≡ word ∷ []
unfolding split_words no_space
split_words-last [] h = refl
split_words-last (ch ∷ word) h = elim (Bool-cases (ch == b' ')) [
  | inl e ↦ ground arith
  | inr e ↦ rw (e, split_words-last word (rw e at h)) refl
]

split_words-word :
    (word rest : List ℕ)
    → no_space word ≡ true
    → split_words (word ++ b' ' ∷ rest) ≡ word ∷ split_words rest
unfolding split_words no_space
split_words-word [] rest h = refl
split_words-word (ch ∷ word) rest h = elim (Bool-cases (ch == b' ')) [
  | inl e ↦ ground arith
  | inr e ↦ rw (e, split_words-word word rest (rw e at h)) refl
]

pop_back-append :
    (xs : List ℕ) (y : ℕ) (ys : List ℕ) → pop_back (xs ++ y ∷ ys) ≡ xs ++ pop_back (y ∷ ys)
pop_back-append [] y ys = refl
pop_back-append (x ∷ []) y ys = refl
pop_back-append (x ∷ x' ∷ xs) y ys = ap (λ zs. x ∷ zs) (pop_back-append (x' ∷ xs) y ys)

-- The space between two words stays, and the one behind the last word goes.
elements_text-last : (e : SignatureElement) → pop_back (elements_text (e ∷ [])) ≡ element_word e
unfolding elements_text
elements_text-last e = rw (element_text_lem e) (last (element_word e))
  where
    last : (xs : List ℕ) → pop_back ((xs ++ b' ' ∷ []) ++ []) ≡ xs
    last [] = refl
    last (x ∷ []) = refl
    last (x ∷ x' ∷ xs) = ap (λ zs. x ∷ zs) (last (x' ∷ xs))

spaced : (xs zs : List ℕ) → pop_back ((xs ++ b' ' ∷ []) ++ zs) ≡ xs ++ pop_back (b' ' ∷ zs)
spaced [] zs = refl
spaced (x ∷ []) zs = refl
spaced (x ∷ x' ∷ xs) zs = ap (λ ys. x ∷ ys) (spaced (x' ∷ xs) zs)

pop_back-word :
    (xs zs : List ℕ)
    → pop_back (b' ' ∷ ((xs ++ b' ' ∷ []) ++ zs)) ≡ b' ' ∷ pop_back ((xs ++ b' ' ∷ []) ++ zs)
pop_back-word [] zs = refl
pop_back-word (x ∷ xs) zs = refl

elements_text-next :
    (e e' : SignatureElement) (sig : Signature)
    → pop_back (elements_text (e ∷ e' ∷ sig))
      ≡ element_word e ++ b' ' ∷ pop_back (elements_text (e' ∷ sig))
unfolding elements_text
elements_text-next e e' sig =
    let rest = elements_text sig in
    rw
      (
        element_text_lem e,
        element_text_lem e',
        spaced (element_word e) ((element_word e' ++ b' ' ∷ []) ++ rest),
      )
      (rw (pop_back-word (element_word e') rest) refl)

-- The words of a printed signature are those of its elements.
split_words-to_string :
    (e : SignatureElement) (sig : Signature)
    → All IsPrintable (e ∷ sig)
    → split_words (to_string (e ∷ sig)) ≡ map element_word (e ∷ sig)
unfolding to_string
split_words-to_string e [] h =
    rw (elements_text-last e)
      (split_words-last (element_word e) (element_word_lem e h.0.good h.0.kept).1)
split_words-to_string e (e' ∷ sig) h =
    rw
      (
        elements_text-next e e' sig,
        split_words-word (element_word e) (pop_back (elements_text (e' ∷ sig)))
            (element_word_lem e h.0.good h.0.kept).1,
        split_words-to_string e' sig h.1,
      )
      refl

parse_words-word :
    (word : List ℕ) (words : List (List ℕ)) (e : SignatureElement) (s : ParseState)
    → Reads (read_word word) e
    → parse_words (word ∷ words) s ≡ parse_words words (write e (all e) s)
unfolding parse_words
parse_words-word word words e s reads = elim reads [
  | inl (w, n) ↦ ap on_token w ∙ rw n (unfold all in refl)
  | inr w ↦ ap on_token w
]
  where
    on_token : Token → Result SignatureError ℕ × Signature
    on_token t = elim t [
      | skip ↦ parse_words words s
      | wildcard ↦ parse_words words (write nullopt_element false s)
      | element e' ↦ parse_words words (write e' (all e') s)
      | refused error ↦ (Result.err error, s.out)
    ]

-- The state after a list of elements was written.
abbrev after : Signature → ParseState → ParseState
after sig s = record {
  out = s.out ++ sig;
  written = s.written + length sig;
  contains_byte = s.contains_byte || has_full sig;
}

nothing_after : (s : ParseState) → s ≡ after [] s
unfolding has_full
nothing_after s = λ i. record {
  out = sym (append-nil s.out) i;
  written = zero_more i;
  contains_byte = sym (or-false s.contains_byte) i;
}
  where
    zero_more : s.written ≡ s.written + 0
    zero_more = omega arith

one_after :
    (e : SignatureElement) (sig : Signature) (s : ParseState)
    → after sig (write e (all e) s) ≡ after (e ∷ sig) s
unfolding has_full
one_after e sig s = λ i. record {
  out = append_assoc s.out (e ∷ []) sig i;
  written = counted i;
  contains_byte = or_assoc s.contains_byte (all e) (has_full sig) i;
}
  where
    counted : s.written + 1 + length sig ≡ s.written + length (e ∷ sig)
    counted = omega arith

parse_words-after :
    (sig : Signature) (s : ParseState)
    → All IsPrintable sig
    → parse_words (map element_word sig) s ≡ (finish (after sig s), (after sig s).out)
unfolding parse_words has_full
parse_words-after [] s h = ap (λ t. (finish t, ParseState.out t)) (nothing_after s)
parse_words-after (e ∷ sig) s h =
    let reads = (element_word_lem e h.0.good h.0.kept).0 in
    parse_words-word (element_word e) (map element_word sig) e s reads
    ∙ parse_words-after sig (write e (all e) s) h.1
    ∙ ap (λ t. (finish t, ParseState.out t)) (one_after e sig s)

-- `finish` accepts what has a whole byte.
finish-full :
    (sig : Signature)
    → has_full sig ≡ true
    → finish (after sig initial_state) ≡ Result.ok (length sig)
unfolding has_full
finish-full [] h = ground arith
finish-full (e ∷ sig) h =
    let some_written : (0 + length (e ∷ sig) == 0) ≡ false = ground arith in
    let all_written : 0 + length (e ∷ sig) ≡ length (e ∷ sig) = omega arith in
    rw (h, some_written) (ap Result.ok all_written)

-- An empty text has no words, and one empty word adds nothing.
parse_words-split :
    (text : List ℕ) (s : ParseState) → parse_words (split text) s ≡ parse_words (split_words text) s
unfolding parse_words split split_words read_word
parse_words-split [] s = refl
parse_words-split (ch ∷ text) s = refl

-- A signature with a whole byte, in which every element is well formed and keeps its bits in the
-- text, is what `parse_signature` returns for the text that `to_string` gives it.
pub parse_signature-to_string :
    (sig : Signature)
    → All IsPrintable sig
    → has_full sig ≡ true
    → parse_signature (to_string sig) ≡ Result.ok sig
unfolding parse_signature parse_signature_to
parse_signature-to_string [] printable full = (unfold has_full in ground arith)
parse_signature-to_string (e ∷ sig) printable full = ap with_signature (
    parse_words-split (to_string (e ∷ sig)) initial_state
    ∙ ap (λ words. parse_words words initial_state) (split_words-to_string e sig printable)
    ∙ parse_words-after (e ∷ sig) initial_state printable
    ∙ ap (λ r. (r, e ∷ sig)) (finish-full (e ∷ sig) full))
