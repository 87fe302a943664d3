-- ===== src/Examples/Scanning.antt =====
-- The scanner of include/libhat/scanner.hpp at concrete inputs.
use libhat.Prelude.{
  ◌⊎◌, ℕ, ◌+◌, ◌-◌, ◌≤◌, ◌≡◌, refl, true, false, [], ◌∷◌, none, some, arith, length, take,
}
use libhat.Signature.Element.{all, element_matches}
use libhat.Scanner.Context.{
  x1, x4, ScanContext, create, first_full, occurs, equal_at, align_up, returned, none_hint,
  x86_64_hint,
}
use libhat.Scanner.First.{Finds}
use libhat.Scanner.Word.{
  is_zero, word_and, word_or, shr_one, one_hot, blsr, tzcnt, rotl, create_alignment_mask,
}
use libhat.Scanner.Segment.{IsSegmented, segment_scan, vector_count}
use libhat.Scanner.Single.{find_pattern_single, memchr, byte_loop, stride_loop}
use libhat.Scanner.Blocks.{block_loop, scan_span, find_segmented}
use libhat.Scanner.Vector.{
  VectorMode, sse, avx2, avx512, find_pattern_vector, candidates, candidate_loop, candidate_mask,
  candidate_matches, load, cmpeq_mask, vector_xor, test_zero, load_signature,
}
use libhat.Scanner.Hints.{
  apply_hints, best_pair, first_pair, some_pair, hinted_pair, get_pair_hint, get_score, lower_bound,
}
use libhat.Scanner.Pairs.{IsHighest, apply_hints-IsHighest}
use libhat.Scanner.Resolve.{auto_mode, resolve_scanner, run_scanner}
use libhat.Scanner.FindPattern.{
  find_pattern, create_scan, scan, find_all_pattern, find_all_loop, find_some_pattern,
}
use libhat.Scanner.Agree.{find_pattern-Finds}
use libhat.Scanner.VectorFirst.{IsVectorContext, find_pattern_vector-Finds}
use libhat.Scanner.Neon.{find_pattern_neon}
use libhat.Scanner.NeonFirst.{find_pattern_neon-Finds}
use libhat.Scanner.Segment.{segment_scan-IsSegmented}
use libhat.Scanner.Vector.{vector_width}
use libhat.Scanner.FindAll.{
  all_occurrences, find_all_pattern-all_occurrences, find_some_pattern-take,
}
use libhat.Examples.Machines.{
  counting, counting-IsBytes, five_seven, five_six, five_seven-IsSignature, small_table, tables,
  desktop, old,
}

unfoldable pub program : Unit {0}
unfolding find_pattern create_scan resolve_scanner scan run_scanner create first_full all
    find_pattern_single byte_loop stride_loop memchr equal_at element_matches find_pattern_vector
    find_segmented block_loop scan_span segment_scan vector_count align_up candidates candidate_loop
    candidate_mask candidate_matches load cmpeq_mask vector_xor test_zero load_signature is_zero
    word_and word_or shr_one one_hot blsr tzcnt rotl create_alignment_mask apply_hints best_pair
    first_pair some_pair hinted_pair get_pair_hint get_score lower_bound find_all_pattern
    find_all_loop
program = tt

found_by_single :
    find_pattern old auto_mode counting 64 600 five_seven x1 none_hint ≡ returned (some 261)
unfolding program
found_by_single = refl

found_by_avx2 :
    find_pattern desktop auto_mode counting 64 600 five_seven x1 none_hint ≡ returned (some 261)
unfolding program
found_by_avx2 = refl

none_aligned :
    find_pattern desktop auto_mode counting 64 600 five_seven x4 none_hint ≡ returned none
unfolding program
none_aligned = refl

found_all :
    find_all_pattern desktop auto_mode counting 0 600 five_seven x1 none_hint
    ≡ some (5 ∷ 261 ∷ 517 ∷ [])
unfolding program
found_all = refl

find_pattern-Finds_example :
    Finds
      (λ t. occurs counting five_seven x1 t)
      64
      (600 + 1 - length five_seven)
      (find_pattern desktop auto_mode counting 64 600 five_seven x1 none_hint)
find_pattern-Finds_example =
    find_pattern-Finds desktop auto_mode counting 64 600 five_seven x1 none_hint
      five_seven-IsSignature counting-IsBytes (omega arith)

find_all_pattern-all_occurrences_example :
    find_all_pattern desktop auto_mode counting 0 600 five_seven x1 none_hint
    ≡ some (all_occurrences counting five_seven x1 0 600)
find_all_pattern-all_occurrences_example =
    find_all_pattern-all_occurrences desktop auto_mode counting 0 600 five_seven x1 none_hint
      five_seven-IsSignature counting-IsBytes (omega arith)

find_some_pattern-take_example :
    (stopped : ℕ) × (find_some_pattern desktop auto_mode counting 0 600 2 five_seven x1 none_hint
      ≡ some (stopped, take 2 (all_occurrences counting five_seven x1 0 600)))
    × ((2 ≤ length (all_occurrences counting five_seven x1 0 600)) ⊎ (600 ≤ stopped))
find_some_pattern-take_example =
    find_some_pattern-take desktop auto_mode counting 0 600 2 five_seven x1 none_hint
      five_seven-IsSignature counting-IsBytes (omega arith)

abbrev context : ScanContext
context = record {
  signature = five_seven;
  alignment = x1;
  hints = none_hint;
  cmp_index = 0;
  pair_index = none;
}

context-IsVectorContext : (mode : VectorMode) → IsVectorContext mode false true context
unfolding all
context-IsVectorContext mode = record {
  context = record {
    elements = five_seven-IsSignature.elements;
    cmp_inside = omega arith;
    cmp_full = refl;
  };
  full = (omega arith, refl);
  next_full = λ e. ground arith;
  fits = λ e. by_mode mode;
}
  where
    by_mode : (m : VectorMode) → length five_seven ≤ vector_width m
    by_mode sse = omega arith
    by_mode avx2 = omega arith
    by_mode avx512 = omega arith

find_pattern_vector-Finds_example :
    Finds
      (λ t. occurs counting five_seven x1 t)
      64
      (600 - 3 + 1)
      (find_pattern_vector avx2 x1 false true counting 64 600 context)
find_pattern_vector-Finds_example =
    find_pattern_vector-Finds avx2 x1 false true counting counting-IsBytes context
      (context-IsVectorContext avx2) 64 600 (omega arith)

find_pattern_neon-Finds_example :
    Finds
      (λ t. occurs counting five_seven x1 t)
      64
      (600 - 3 + 1)
      (find_pattern_neon x1 false true counting 64 600 context)
find_pattern_neon-Finds_example =
    find_pattern_neon-Finds false true counting counting-IsBytes context
      (context-IsVectorContext sse) x1 64 600 (omega arith)

segment_scan-IsSegmented_example : IsSegmented 32 32 64 600 3 0 (segment_scan 32 true 64 600 3 0)
segment_scan-IsSegmented_example =
    segment_scan-IsSegmented 32 true 64 600 3 0 (omega arith) (omega arith) (λ e. omega arith)
      (omega arith)

abbrev hinted : ScanContext
hinted = record {
  signature = five_six;
  alignment = x1;
  hints = x86_64_hint;
  cmp_index = 0;
  pair_index = none;
}

hinted_pair0 : ScanContext.pair_index (apply_hints tables 16 hinted) ≡ some 0
unfolding program
hinted_pair0 = refl

apply_hints-IsHighest_example : IsHighest small_table five_six 0
unfolding get_pair_hint
apply_hints-IsHighest_example =
    apply_hints-IsHighest tables 16 hinted small_table 0 refl refl refl (omega arith) hinted_pair0
