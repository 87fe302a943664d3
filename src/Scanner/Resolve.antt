-- ===== src/Scanner/Resolve.antt =====
-- src/Scanner.cpp, src/Utils.hpp and the `resolve_scanner` functions of src/arch: which scanner is run
-- for a context.
use libhat.Prelude.{
  ℕ, leb, Bool, true, false, ◌&&◌, ◌||◌, if◌then◌else◌, Option, none, some, length,
}
use libhat.Scanner.Context.{Memory, ScanAlignment, ScanContext, Outcome}
use libhat.Scanner.Single.{find_pattern_single}
use libhat.Scanner.Vector.{VectorMode, vector_width, find_pattern_vector}
use libhat.Scanner.Neon.{find_pattern_neon}
use libhat.Scanner.Hints.{HintTables, apply_hints}

-- A function that `resolve_scanner` returns: the template and its Boolean arguments. The alignment is
-- that of the context.
pub data Scanner : Type 0 where
  single : Scanner
  vector : VectorMode → Bool → Bool → Scanner
  neon : Bool → Bool → Scanner

-- A call of the function pointer.
unfoldable pub run_scanner : Scanner → ScanAlignment → Memory → ℕ → ℕ → ScanContext → Outcome
run_scanner single alignment mem begin end ctx = find_pattern_single alignment mem begin end ctx
run_scanner (vector mode cmpeq2 veccmp) alignment mem begin end ctx =
    find_pattern_vector mode alignment cmpeq2 veccmp mem begin end ctx
run_scanner (neon cmpeq2 veccmp) alignment mem begin end ctx =
    find_pattern_neon alignment cmpeq2 veccmp mem begin end ctx

abbrev pub has_value : Option ℕ → Bool
has_value (some i) = true
has_value none = false

-- `resolve_scanner<SSE>`, `<AVX2>` and `<AVX512>`: the hints change the context.
unfoldable pub resolve_vector : HintTables → VectorMode → ScanContext → Scanner × ScanContext
resolve_vector tables mode ctx =
    let ctx' = apply_hints tables (vector_width mode) ctx in
    let veccmp = leb (length ctx.signature) (vector_width mode) in
    (vector mode (has_value (ScanContext.pair_index ctx')) veccmp, ctx')

-- `resolve_scanner<Neon>`.
unfoldable pub resolve_neon : HintTables → ScanContext → Scanner × ScanContext
resolve_neon tables ctx =
    let ctx' = apply_hints tables 16 ctx in
    let veccmp = leb (length ctx.signature) 16 in
    (neon (has_value (ScanContext.pair_index ctx')) veccmp, ctx')

-- What the preprocessor knows: LIBHAT_X86, LIBHAT_X86_64, LIBHAT_ARM or LIBHAT_AARCH64, and the
-- features that are compiled in.
pub record Build : Type 0 where
  pub is_x86 : Bool
  pub is_x86_64 : Bool
  pub is_arm : Bool
  pub feature_avx512 : Bool
  pub feature_sse : Bool
  pub tables : HintTables

-- The members of `get_system().extensions` and of `compiled_extensions` that are tested.
pub record Extensions : Type 0 where
  pub sse41 : Bool
  pub avx2 : Bool
  pub avx512f : Bool
  pub avx512bw : Bool
  pub bmi : Bool
  pub neon : Bool

-- `resolve_scanner<Auto>`.
unfoldable pub resolve_auto : Build → Extensions → Extensions → ScanContext → Scanner × ScanContext
resolve_auto build compiled ext ctx =
    let x86 = build.is_x86 || build.is_x86_64 in
    let bmi = compiled.bmi || ext.bmi in
    let use_avx512 =
      build.is_x86_64
      && build.feature_avx512
      && (compiled.avx512f || ext.avx512f)
      && (compiled.avx512bw || ext.avx512bw) in
    if x86 && bmi && use_avx512
    then resolve_vector build.tables VectorMode.avx512 ctx
    else if x86 && bmi && (compiled.avx2 || ext.avx2)
    then resolve_vector build.tables VectorMode.avx2 ctx
    else if x86 && build.feature_sse && (compiled.sse41 || ext.sse41)
    then resolve_vector build.tables VectorMode.sse ctx
    else if build.is_arm && (compiled.neon || ext.neon)
    then resolve_neon build.tables ctx
    else (single, ctx)

pub data ScanMode : Type 0 where
  auto_mode : ScanMode
  single_mode : ScanMode
  vector_mode : VectorMode → ScanMode
  neon_mode : ScanMode

-- `resolve_scanner<mode>`.
unfoldable pub resolve_scanner :
    ScanMode → Build → Extensions → Extensions → ScanContext → Scanner × ScanContext
unfolding resolve_auto resolve_vector resolve_neon
resolve_scanner auto_mode build compiled ext ctx = resolve_auto build compiled ext ctx
resolve_scanner single_mode build compiled ext ctx = (single, ctx)
resolve_scanner (vector_mode mode) build compiled ext ctx = resolve_vector build.tables mode ctx
resolve_scanner neon_mode build compiled ext ctx = resolve_neon build.tables ctx
