-- ===== src/System/Usable.antt =====
-- `resolve_scanner<Auto>` takes only a scanner that the processor and the operating system can run.
use libhat.Prelude.{
  ℕ, ◌^◌, ◌<◌, leb, Bool, true, false, ◌&&◌, ◌||◌, ◌≡◌, refl, arith, List, [], ◌∷◌, Bool-cases, inl,
  inr, if◌then◌else◌,
}
use native.Mathlib.Nat.{zero-div}
use libhat.Scanner.Context.{ScanContext}
use libhat.Scanner.Vector.{VectorMode, sse, avx2, avx512}
use libhat.Scanner.Resolve.{
  Scanner, single, vector, neon, Build, Extensions, resolve_auto, resolve_vector, resolve_neon,
}
use libhat.System.X86.{
  Info, no_info, Cpu, bitset_at, int_leb, n_ids, data_at, avx_support, avx512_support,
  cpu_extensions, tested,
}

-- The processor reports a feature: it has the leaf, and the bit is set there.
abbrev pub reports : Cpu → ℕ → (Info → ℕ) → ℕ → Bool
reports cpu leaf register i =
    leb leaf (Info.eax (cpu.cpuid 0)) && bitset_at (register (cpu.cpuidex leaf 0)) i

-- The operating system saves these components of the state.
abbrev pub saves : Cpu → List ℕ → Bool
saves cpu [] = reports cpu 1 (λ r. Info.ecx r) 26 && reports cpu 1 (λ r. Info.ecx r) 27
saves cpu (i ∷ components) = bitset_at (cpu.xgetbv 0) i && saves cpu components

-- What the instructions of a scanner need.
abbrev pub usable : Cpu → VectorMode → Bool
usable cpu sse = reports cpu 1 (λ r. Info.ecx r) 19
usable cpu avx2 =
    reports cpu 7 (λ r. Info.ebx r) 3 && reports cpu 7 (λ r. Info.ebx r) 5 && saves cpu (1 ∷ 2 ∷ [])
usable cpu avx512 =
    reports cpu 7 (λ r. Info.ebx r) 3
    && reports cpu 7 (λ r. Info.ebx r) 16
    && reports cpu 7 (λ r. Info.ebx r) 30
    && saves cpu (1 ∷ 2 ∷ 5 ∷ 6 ∷ 7 ∷ [])

abbrev pub IsUsable : Cpu → Scanner → Type 0
IsUsable cpu single = Unit
IsUsable cpu (vector mode cmpeq2 veccmp) = usable cpu mode ≡ true
IsUsable cpu (neon cmpeq2 veccmp) = ⊥

-- A bit of the array is set only if the processor reports it.
data_at-reports :
    (cpu : Cpu) (leaf i : ℕ) (register : Info → ℕ)
    → register no_info ≡ 0
    → leaf < 8
    → Info.eax (cpu.cpuid 0) < 2 ^ 32
    → bitset_at (register (data_at cpu leaf)) i ≡ true
    → reports cpu leaf register i ≡ true
unfolding data_at
data_at-reports cpu leaf i register zero_bits lt small h =
    elim (Bool-cases (int_leb leaf (n_ids cpu))) [
      | inl there ↦
          let set : bitset_at (register (cpu.cpuidex leaf 0)) i ≡ true = rw there at h in
          let has_leaf : leb leaf (Info.eax (cpu.cpuid 0)) ≡ true = ground arith in
          rw (has_leaf, set) refl
      | inr missing ↦
          let set : bitset_at (register no_info) i ≡ true = rw missing at h in
          let clear : bitset_at 0 i ≡ true = rw zero_bits at set in absurd (no_bit i clear)
    ]
  where
    no_bit : (i : ℕ) → bitset_at 0 i ≡ true → ⊥
    no_bit i h = cc (rw (zero-div (2 ^ i)) at h)

avx_bits :
    (x o a b x' o' : Bool)
    → (x ≡ true → x' ≡ true)
    → (o ≡ true → o' ≡ true)
    → (if x && o then a && b else false) ≡ true
    → (a && (b && (x' && o'))) ≡ true
avx_bits true true true true x' o' f g h = rw (f refl, g refl) refl
avx_bits true true true false x' o' f g h = absurd (cc h)
avx_bits true true false b x' o' f g h = absurd (cc h)
avx_bits true false a b x' o' f g h = absurd (cc h)
avx_bits false o a b x' o' f g h = absurd (cc h)

avx512_bits :
    (x o avx b5 b6 b7 b1 b2 rest : Bool)
    → (avx ≡ true → (b1 && (b2 && rest)) ≡ true)
    → (if x && o then avx && b5 && b6 && b7 else false) ≡ true
    → (b1 && (b2 && (b5 && (b6 && (b7 && rest))))) ≡ true
avx512_bits x o avx b5 b6 b7 b1 b2 rest f h = ground (arith)

avx_support-saves :
    (cpu : Cpu)
    → Info.eax (cpu.cpuid 0) < 2 ^ 32
    → avx_support cpu ≡ true
    → saves cpu (1 ∷ 2 ∷ []) ≡ true
unfolding avx_support
avx_support-saves cpu small h =
    let xsave = data_at-reports cpu 1 26 (λ r. Info.ecx r) refl (omega arith) small in
    let osxsave = data_at-reports cpu 1 27 (λ r. Info.ecx r) refl (omega arith) small in
    let f_1_ecx = Info.ecx (data_at cpu 1) in
    let xcr = bitset_at (cpu.xgetbv 0) in
    avx_bits (bitset_at f_1_ecx 26) (bitset_at f_1_ecx 27) (xcr 1) (xcr 2) _ _ xsave osxsave h

avx512_support-saves :
    (cpu : Cpu)
    → Info.eax (cpu.cpuid 0) < 2 ^ 32
    → avx512_support cpu ≡ true
    → saves cpu (1 ∷ 2 ∷ 5 ∷ 6 ∷ 7 ∷ []) ≡ true
unfolding avx512_support
avx512_support-saves cpu small h =
    let ymm = avx_support-saves cpu small in
    let f_1_ecx = Info.ecx (data_at cpu 1) in
    let xcr = bitset_at (cpu.xgetbv 0) in
    avx512_bits (bitset_at f_1_ecx 26) (bitset_at f_1_ecx 27) (avx_support cpu) (xcr 5) (xcr 6)
      (xcr 7) (xcr 1) (xcr 2) (saves cpu []) ymm h

-- The features that were compiled in are there.
pub record IsCompiledFor (compiled : Extensions) (cpu : Cpu) : Type 0 where
  pub has_sse41 : compiled.sse41 ≡ true → reports cpu 1 (λ r. Info.ecx r) 19 ≡ true
  pub has_bmi : compiled.bmi ≡ true → reports cpu 7 (λ r. Info.ebx r) 3 ≡ true
  pub has_avx2 :
      compiled.avx2 ≡ true → (reports cpu 7 (λ r. Info.ebx r) 5 && saves cpu (1 ∷ 2 ∷ [])) ≡ true
  pub has_avx512f :
      compiled.avx512f ≡ true
      → (reports cpu 7 (λ r. Info.ebx r) 16 && saves cpu (1 ∷ 2 ∷ 5 ∷ 6 ∷ 7 ∷ [])) ≡ true
  pub has_avx512bw : compiled.avx512bw ≡ true → reports cpu 7 (λ r. Info.ebx r) 30 ≡ true

-- A feature that was compiled in or found.
either : (a b c : Bool) → (a ≡ true → c ≡ true) → (b ≡ true → c ≡ true) → (a || b) ≡ true → c ≡ true
either true b c f g h = f refl
either false b c f g h = g h

both :
    (a b a' b' : Bool)
    → (a ≡ true → a' ≡ true)
    → (b ≡ true → b' ≡ true)
    → (a && b) ≡ true
    → (a' && b') ≡ true
both true true a' b' f g h = rw (f refl, g refl) refl
both true false a' b' f g h = absurd (cc h)
both false b a' b' f g h = absurd (cc h)

first_true : (a b : Bool) → (a && b) ≡ true → a ≡ true
first_true true b h = refl
first_true false b h = absurd (cc h)

choose-IsUsable :
    (cpu : Cpu) (c : Bool) (a b : Scanner × ScanContext)
    → (c ≡ true → IsUsable cpu a.0)
    → IsUsable cpu b.0
    → IsUsable cpu (if c then a else b).0
choose-IsUsable cpu true a b f g = f refl
choose-IsUsable cpu false a b f g = g

needs_avx512 :
    (x64 feature x86 bmi f bw b f' s bw' : Bool)
    → (bmi ≡ true → b ≡ true)
    → (f ≡ true → (f' && s) ≡ true)
    → (bw ≡ true → bw' ≡ true)
    → (x86 && bmi && (x64 && feature && f && bw)) ≡ true
    → (b && f' && bw' && s) ≡ true
needs_avx512 x64 feature x86 bmi f bw b f' s bw' p q r h = ground arith

needs_avx2 :
    (x86 bmi a b a' s : Bool)
    → (bmi ≡ true → b ≡ true)
    → (a ≡ true → (a' && s) ≡ true)
    → (x86 && bmi && a) ≡ true
    → (b && a' && s) ≡ true
needs_avx2 x86 bmi a b a' s p q h = ground arith

needs_sse :
    (x86 feature a b : Bool) → (a ≡ true → b ≡ true) → (x86 && feature && a) ≡ true → b ≡ true
needs_sse x86 feature a b p h = ground arith

module _ (cpu : Cpu) (small : Info.eax (cpu.cpuid 0) < 2 ^ 32) (compiled : Extensions)
    (good : IsCompiledFor compiled cpu) where
  abbrev bit_7 : ℕ → Bool
  bit_7 i = bitset_at (Info.ebx (data_at cpu 7)) i

  reports_7 : (i : ℕ) → bit_7 i ≡ true → reports cpu 7 (λ r. Info.ebx r) i ≡ true
  reports_7 i = data_at-reports cpu 7 i (λ r. Info.ebx r) refl (omega arith) small

  bmi-reports : (compiled.bmi || bit_7 3) ≡ true → reports cpu 7 (λ r. Info.ebx r) 3 ≡ true
  bmi-reports = either compiled.bmi (bit_7 3) _ good.has_bmi (reports_7 3)

  avx2-reports :
      (compiled.avx2 || (bit_7 5 && avx_support cpu)) ≡ true
      → (reports cpu 7 (λ r. Info.ebx r) 5 && saves cpu (1 ∷ 2 ∷ [])) ≡ true
  avx2-reports =
      either compiled.avx2 (bit_7 5 && avx_support cpu) _ good.has_avx2
        (both (bit_7 5) (avx_support cpu) _ _ (reports_7 5) (avx_support-saves cpu small))

  avx512f-reports :
      (compiled.avx512f || (bit_7 16 && avx512_support cpu)) ≡ true
      → (reports cpu 7 (λ r. Info.ebx r) 16 && saves cpu (1 ∷ 2 ∷ 5 ∷ 6 ∷ 7 ∷ [])) ≡ true
  avx512f-reports =
      either compiled.avx512f (bit_7 16 && avx512_support cpu) _ good.has_avx512f
        (both (bit_7 16) (avx512_support cpu) _ _ (reports_7 16) (avx512_support-saves cpu small))

  avx512bw-reports :
      (compiled.avx512bw || (bit_7 30 && avx512_support cpu)) ≡ true
      → reports cpu 7 (λ r. Info.ebx r) 30 ≡ true
  avx512bw-reports =
      either compiled.avx512bw (bit_7 30 && avx512_support cpu) _ good.has_avx512bw
        (λ h. reports_7 30 (first_true (bit_7 30) (avx512_support cpu) h))

  sse41-reports :
      (compiled.sse41 || bitset_at (Info.ecx (data_at cpu 1)) 19) ≡ true
      → reports cpu 1 (λ r. Info.ecx r) 19 ≡ true
  sse41-reports =
      either compiled.sse41 (bitset_at (Info.ecx (data_at cpu 1)) 19) _ good.has_sse41
        (data_at-reports cpu 1 19 (λ r. Info.ecx r) refl (omega arith) small)

-- On a build without ARM, if `cpuid` gives numbers of 32 bits for the highest leaf and the
-- features that were compiled in are there, `resolve_scanner<Auto>` takes a vector scanner only if
-- the processor reports each feature it needs and, for AVX2 and AVX512, the operating system saves
-- the registers.
pub resolve_auto-IsUsable :
    (build : Build) (compiled : Extensions) (cpu : Cpu) (ctx : ScanContext)
    → build.is_arm ≡ false
    → Info.eax (cpu.cpuid 0) < 2 ^ 32
    → IsCompiledFor compiled cpu
    → IsUsable cpu (resolve_auto build compiled (tested (cpu_extensions cpu)) ctx).0
unfolding resolve_auto resolve_vector cpu_extensions
resolve_auto-IsUsable build compiled cpu ctx x86 small good =
    let on_x86 = build.is_x86 || build.is_x86_64 in
    let ext = tested (cpu_extensions cpu) in
    let bmi = bmi-reports cpu small compiled good in
    let on_arm : Scanner × ScanContext =
      if build.is_arm && (compiled.neon || ext.neon)
      then resolve_neon build.tables ctx
      else (single, ctx) in
    let below_avx2 : Scanner × ScanContext =
      if on_x86 && build.feature_sse && (compiled.sse41 || ext.sse41)
      then resolve_vector build.tables sse ctx
      else on_arm in
    let below_avx512 : Scanner × ScanContext =
      if on_x86 && (compiled.bmi || ext.bmi) && (compiled.avx2 || ext.avx2)
      then resolve_vector build.tables avx2 ctx
      else below_avx2 in
    choose-IsUsable cpu _ (resolve_vector build.tables avx512 ctx) below_avx512
      (needs_avx512 build.is_x86_64 build.feature_avx512 on_x86 _ _ _ _
        (reports cpu 7 (λ r. Info.ebx r) 16) (saves cpu (1 ∷ 2 ∷ 5 ∷ 6 ∷ 7 ∷ [])) _ bmi
        (avx512f-reports cpu small compiled good) (avx512bw-reports cpu small compiled good))
      (choose-IsUsable cpu _ (resolve_vector build.tables avx2 ctx) below_avx2
        (needs_avx2 on_x86 _ _ _ (reports cpu 7 (λ r. Info.ebx r) 5) (saves cpu (1 ∷ 2 ∷ [])) bmi
          (avx2-reports cpu small compiled good))
        (choose-IsUsable cpu _ (resolve_vector build.tables sse ctx) on_arm
          (needs_sse on_x86 build.feature_sse _ _ (sse41-reports cpu small compiled good))
          (unarmed build.is_arm _ x86)))
  where
    unarmed :
        (arm present : Bool)
        → arm ≡ false
        → IsUsable cpu (if arm && present then resolve_neon build.tables ctx else (single, ctx)).0
    unarmed true present h = absurd (cc h)
    unarmed false present h = tt
