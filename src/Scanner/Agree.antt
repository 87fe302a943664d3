-- ===== src/Scanner/Agree.antt =====
-- `find_pattern` finds the first aligned occurrence of the signature, whatever scanner is run: the
-- result does not depend on the mode, the instruction sets, the hints or the frequency tables.
use libhat.Prelude.{ℕ, ◌+◌, ◌-◌, ◌≤◌, ◌≡◌, refl, ltb, leb, length, arith, Option, none, some}
use libhat.Prelude.{Bool-cases, inl, inr, if_both, ap, sym, subst}
use native.Mathlib.Numerals.{add-one}
use libhat.Signature.Element.{Signature}
use libhat.Signature.Shape.{IsSignature}
use libhat.Scanner.Context.{Memory, IsBytes, ScanAlignment, ScanContext, create, occurs}
use libhat.Scanner.First.{Finds, Finds-unique}
use libhat.Scanner.Valid.{IsContext, create-IsContext}
use libhat.Scanner.SingleFirst.{find_pattern_single-Finds}
use libhat.Scanner.Vector.{VectorMode, sse, avx2, avx512, vector_width}
use libhat.Scanner.VectorFirst.{IsVectorContext, find_pattern_vector-Finds}
use libhat.Scanner.NeonFirst.{find_pattern_neon-Finds}
use libhat.Scanner.Hints.{HintTables, apply_hints}
use libhat.Scanner.Pairs.{apply_hints-IsPairAt}
use libhat.Scanner.BestPair.{IsPairAt}
use libhat.Scanner.Resolve.{
  Scanner, single, run_scanner, has_value, resolve_vector, resolve_neon, Build, Extensions,
  resolve_auto, ScanMode, auto_mode, single_mode, vector_mode, neon_mode, resolve_scanner,
}
use libhat.Scanner.FindPattern.{Machine, create_scan, scan, find_pattern}

-- A scanner with a context that it can be run on, for this signature and alignment.
pub record IsPrepared (sig : Signature) (alignment : ScanAlignment) (p : Scanner × ScanContext)
    : Type 0 where
  pub same_signature : ScanContext.signature (p.1) ≡ sig
  pub same_alignment : ScanContext.alignment (p.1) ≡ alignment
  pub runs :
      (mem : Memory)
      → IsBytes mem
      → (begin end : ℕ) → begin + length sig ≤ end
      → Finds
          (λ t. occurs mem sig alignment t)
          begin
          (end - length sig + 1)
          (run_scanner (p.0) alignment mem begin end (p.1))

-- A pair index that is set to two whole bytes, or to none, makes a context for the vector scanners.
paired-IsVectorContext :
    (mode : VectorMode) (ctx : ScanContext) (index : Option ℕ)
    → IsContext ctx
    → ((k : ℕ) → index ≡ some k → IsPairAt ctx.signature k)
    → IsVectorContext mode
        (has_value index)
        (leb (length ctx.signature) (vector_width mode))
        (record ctx { pair_index = index })
paired-IsVectorContext mode ctx none valid pair = record {
  context = record {
    elements = valid.elements;
    cmp_inside = valid.cmp_inside;
    cmp_full = valid.cmp_full;
  };
  full = (valid.cmp_inside, valid.cmp_full);
  next_full = λ e. absurd (cc e);
  fits = λ e. ground arith;
}
paired-IsVectorContext mode ctx (some k) valid pair = record {
  context = record {
    elements = valid.elements;
    cmp_inside = valid.cmp_inside;
    cmp_full = valid.cmp_full;
  };
  full = (pair k refl).0;
  next_full = λ e. rw add-one (pair k refl).1;
  fits = λ e. ground arith;
}

module _ (sig : Signature) (alignment : ScanAlignment) (hints : ℕ) (good : IsSignature sig) where
  abbrev ctx : ScanContext
  ctx = create sig alignment hints

  single-IsPrepared : IsPrepared sig alignment (single, ctx)
  unfolding create run_scanner
  single-IsPrepared = record {
    same_signature = refl;
    same_alignment = refl;
    runs = λ mem bytes begin end room.
        find_pattern_single-Finds mem bytes ctx (create-IsContext sig alignment hints good)
          alignment begin end room;
  }

  hinted-IsVectorContext :
      (tables : HintTables) (mode : VectorMode)
      → IsVectorContext mode
          (has_value (ScanContext.pair_index (apply_hints tables (vector_width mode) ctx)))
          (leb (length sig) (vector_width mode))
          (apply_hints tables (vector_width mode) ctx)
  unfolding create apply_hints
  hinted-IsVectorContext tables mode =
      paired-IsVectorContext mode ctx _ (create-IsContext sig alignment hints good)
        (λ k. apply_hints-IsPairAt tables (vector_width mode) ctx k refl)

  vector-IsPrepared :
      (tables : HintTables) (mode : VectorMode)
      → IsPrepared sig alignment (resolve_vector tables mode ctx)
  unfolding create run_scanner resolve_vector apply_hints
  vector-IsPrepared tables mode = record {
    same_signature = refl;
    same_alignment = refl;
    runs = λ mem bytes begin end room.
        find_pattern_vector-Finds mode alignment _ _ mem bytes _
          (hinted-IsVectorContext tables mode) begin end room;
  }

  neon-IsPrepared : (tables : HintTables) → IsPrepared sig alignment (resolve_neon tables ctx)
  unfolding create run_scanner resolve_neon apply_hints
  neon-IsPrepared tables = record {
    same_signature = refl;
    same_alignment = refl;
    runs = λ mem bytes begin end room.
        find_pattern_neon-Finds _ _ mem bytes _ (hinted-IsVectorContext tables sse) alignment begin
          end room;
  }

  resolve_auto-IsPrepared :
      (build : Build) (compiled ext : Extensions)
      → IsPrepared sig alignment (resolve_auto build compiled ext ctx)
  unfolding resolve_auto
  resolve_auto-IsPrepared build compiled ext =
      if_both (IsPrepared sig alignment) _ (vector-IsPrepared build.tables avx512) (
        if_both (IsPrepared sig alignment) _ (vector-IsPrepared build.tables avx2) (
          if_both (IsPrepared sig alignment) _ (vector-IsPrepared build.tables sse) (
            if_both (IsPrepared sig alignment) _ (neon-IsPrepared build.tables) single-IsPrepared)))

  -- Every scanner that `create` may pick is prepared.
  pub create_scan-IsPrepared :
      (machine : Machine) (mode : ScanMode)
      → IsPrepared sig alignment (create_scan machine mode sig alignment hints)
  unfolding create_scan resolve_scanner
  create_scan-IsPrepared machine auto_mode =
      resolve_auto-IsPrepared machine.build machine.compiled machine.ext
  create_scan-IsPrepared machine single_mode = single-IsPrepared
  create_scan-IsPrepared machine (vector_mode mode) = vector-IsPrepared _ mode
  create_scan-IsPrepared machine neon_mode = neon-IsPrepared _

-- A scan of a range, also of one that has no room for the signature.
pub scan-Finds :
    (sig : Signature) (alignment : ScanAlignment) (p : Scanner × ScanContext) (mem : Memory)
    (begin end : ℕ)
    → IsPrepared sig alignment p
    → IsBytes mem
    → begin ≤ end
    → Finds (λ t. occurs mem sig alignment t) begin (end + 1 - length sig) (scan mem p begin end)
unfolding scan
scan-Finds sig alignment p mem begin end prepared bytes ordered =
    let size : length (ScanContext.signature (p.1)) ≡ length sig =
      ap length prepared.same_signature in
    elim (Bool-cases (ltb (end - begin) (length (ScanContext.signature (p.1))))) [
      | inl short ↦ rw short (λ t lo hi. absurd (ground arith))
      | inr room ↦
          let fits : begin + length sig ≤ end = ground arith in
          let hi : end + 1 - length sig ≡ end - length sig + 1 = omega arith in
          rw (room, hi)
            (subst
              (λ a.
                Finds (λ t. occurs mem sig alignment t) begin (end - length sig + 1)
                  (run_scanner (p.0) a mem begin end (p.1)))
              (sym prepared.same_alignment) (prepared.runs mem bytes begin end fits))
    ]

-- For a well-formed signature with a whole byte, memory of bytes and begin ≤ end, `find_pattern`
-- returns the first address of the range, at the alignment, at which the signature stands, and
-- null when there is none, with every scanner, hint and frequency table.
pub find_pattern-Finds :
    (machine : Machine) (mode : ScanMode) (mem : Memory) (begin end : ℕ) (sig : Signature)
    (alignment : ScanAlignment) (hints : ℕ)
    → IsSignature sig
    → IsBytes mem
    → begin ≤ end
    → Finds
        (λ t. occurs mem sig alignment t)
        begin
        (end + 1 - length sig)
        (find_pattern machine mode mem begin end sig alignment hints)
unfolding find_pattern
find_pattern-Finds machine mode mem begin end sig alignment hints good bytes ordered =
    scan-Finds sig alignment _ mem begin end
      (create_scan-IsPrepared sig alignment hints good machine mode) bytes ordered

-- For a well-formed signature with a whole byte, memory of bytes and begin ≤ end, `find_pattern`
-- gives the same result on two machines, with two scan modes and with two sets of hints.
find_pattern_agree :
    (machine machine' : Machine) (mode mode' : ScanMode) (mem : Memory) (begin end : ℕ)
    (sig : Signature) (alignment : ScanAlignment) (hints hints' : ℕ)
    → IsSignature sig
    → IsBytes mem
    → begin ≤ end
    → find_pattern machine mode mem begin end sig alignment hints
      ≡ find_pattern machine' mode' mem begin end sig alignment hints'
find_pattern_agree machine machine' mode mode' mem begin end sig alignment hints hints' good bytes
      ordered =
    Finds-unique (λ t. occurs mem sig alignment t) begin (end + 1 - length sig) _ _
      (find_pattern-Finds machine mode mem begin end sig alignment hints good bytes ordered)
      (find_pattern-Finds machine' mode' mem begin end sig alignment hints' good bytes ordered)
