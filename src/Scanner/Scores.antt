-- ===== src/Scanner/Scores.antt =====
-- What `getScore` of src/Scanner.cpp looks up, and what the tables of src/arch give it.
use libhat.Prelude.{
  ltb→lt, ◌≢◌, ℕ, zero, suc, ltb, ◌<◌, ◌≡◌, refl, sym, ap, Bool, true, false, ◌&&◌,
}
use libhat.Prelude.{
  List, [], ◌∷◌, length, get_or, arith, Bool-cases, inl, inr, holds_below, holds_below_sound,
}
use libhat.Scanner.Hints.{PairHint, pair_less, pair_eq, lower_bound, get_score, num_pairs}
use libhat.Scanner.Tables.X86
use libhat.Scanner.Tables.Arm

abbrev pub x86_64_table : PairHint
x86_64_table = record { pairs = X86.pairs_x1; scores = X86.scores_x1 }

abbrev pub aarch64_table : PairHint
aarch64_table = record { pairs = Arm.pairs_x1; scores = Arm.scores_x1 }

-- Each pair is less than the next one.
abbrev pub increasing : List (ℕ × ℕ) → Bool
increasing (p ∷ q ∷ pairs) = pair_less p q && increasing (q ∷ pairs)
increasing _ = true

pair_less_trans :
    (p q r : ℕ × ℕ) → pair_less p q ≡ true → pair_less q r ≡ true → pair_less p r ≡ true
pair_less_trans (a, b) (c, d) (e, f) h k = ground arith

pair_less_irrefl : (p : ℕ × ℕ) → pair_less p p ≡ false
pair_less_irrefl (a, b) = ground arith

pair_eq_refl : (p : ℕ × ℕ) → pair_eq p p ≡ true
pair_eq_refl (a, b) = ground arith

head-less :
    (p : ℕ × ℕ) (pairs : List (ℕ × ℕ)) (i : ℕ)
    → increasing (p ∷ pairs) ≡ true
    → i < length pairs
    → pair_less p (get_or pairs i (0, 0)) ≡ true
head-less p [] i h lt = absurd (omega arith)
head-less p (q ∷ pairs) zero h lt = ground arith
head-less p (q ∷ pairs) (suc i) h lt =
    pair_less_trans p q (get_or pairs i (0, 0)) (ground arith)
      (head-less q pairs i (ground arith) (omega arith))

-- In a sorted table `lower_bound` finds the place of a pair that is there.
lower_bound-get_or :
    (pairs : List (ℕ × ℕ)) (i : ℕ)
    → increasing pairs ≡ true
    → i < length pairs
    → lower_bound (get_or pairs i (0, 0)) pairs ≡ i
unfolding lower_bound
lower_bound-get_or [] i h lt = absurd (omega arith)
lower_bound-get_or (p ∷ pairs) zero h lt = rw (pair_less_irrefl p) refl
lower_bound-get_or (p ∷ pairs) (suc i) h lt =
    rw (head-less p pairs i h (omega arith))
      (ap suc (lower_bound-get_or pairs i (increasing_tail p pairs h) (omega arith)))
  where
    increasing_tail :
        (p : ℕ × ℕ) (pairs : List (ℕ × ℕ)) → increasing (p ∷ pairs) ≡ true → increasing pairs ≡ true
    increasing_tail p [] h = refl
    increasing_tail p (q ∷ pairs) h = ground arith

-- In a sorted table `getScore` of a pair that is there is the score in its place.
get_score-get_or :
    (hint : PairHint) (i a b : ℕ)
    → increasing hint.pairs ≡ true
    → i < length hint.pairs
    → get_or hint.pairs i (0, 0) ≡ (a, b)
    → get_score hint a b ≡ get_or hint.scores i 0
unfolding get_score
get_score-get_or hint i a b sorted lt here =
    let place : lower_bound (a, b) hint.pairs ≡ i =
      rw (sym here) (lower_bound-get_or hint.pairs i sorted lt) in
    let inside : ltb i (length hint.pairs) ≡ true = ground arith in
    rw (place, inside, here, pair_eq_refl (a, b)) refl

pair_eq_sound : (p q : ℕ × ℕ) → pair_eq p q ≡ true → p ≡ q
pair_eq_sound (a, b) (c, d) h = λ i. (first i, second i)
  where
    first : a ≡ c
    first = ground arith

    second : b ≡ d
    second = ground arith

-- For a pair that stands in no place of a table, `getScore` is 512.
get_score-missing :
    (hint : PairHint) (a b : ℕ)
    → ((i : ℕ) → i < length hint.pairs → get_or hint.pairs i (0, 0) ≢ (a, b))
    → get_score hint a b ≡ num_pairs
unfolding get_score
get_score-missing hint a b missing =
    let i = lower_bound (a, b) hint.pairs in
    elim (Bool-cases (ltb i (length hint.pairs) && pair_eq (get_or hint.pairs i (0, 0)) (a, b))) [
      | inr other ↦ rw other refl
      | inl found ↦ absurd (missing i (ground arith) (pair_eq_sound _ _ (ground arith)))
    ]

-- The tables that a build can have.
pub data Arch : Type 0 where
  x86_64 : Arch
  aarch64 : Arch

abbrev pub table : Arch → PairHint
table x86_64 = x86_64_table
table aarch64 = aarch64_table

table-increasing : (arch : Arch) → increasing (PairHint.pairs (table arch)) ≡ true
table-increasing x86_64 = refl
table-increasing aarch64 = refl

table-length : (arch : Arch) → length (PairHint.pairs (table arch)) ≡ num_pairs
table-length x86_64 = refl
table-length aarch64 = refl

scores_below :
    (arch : Arch)
    → holds_below 512 (λ i. ltb (get_or (PairHint.scores (table arch)) i 0) num_pairs) ≡ true
unfolding holds_below
scores_below x86_64 = refl
scores_below aarch64 = refl

-- In both frequency tables, `getScore` of the pair in each place is the score in that place, and
-- it is less than 512, the score of a pair that is not in the table.
get_score-table :
    (arch : Arch) (i : ℕ)
    → i < num_pairs
    → (get_score
          (table arch)
          (get_or (PairHint.pairs (table arch)) i (0, 0)).0
          (get_or (PairHint.pairs (table arch)) i (0, 0)).1
        ≡ get_or (PairHint.scores (table arch)) i 0)
      × (get_or (PairHint.scores (table arch)) i 0 < num_pairs)
get_score-table arch i lt = (
  get_score-get_or (table arch) i _ _ (table-increasing arch) (omega (arith, table-length arch))
      refl,
  ltb→lt _ _ (
      holds_below_sound 512 (λ j. ltb (get_or (PairHint.scores (table arch)) j 0) num_pairs) i
        (scores_below arch) lt),
)
