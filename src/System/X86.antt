-- ===== src/System/X86.antt =====
-- `system_info_x86` of src/arch/x86/System.cpp: the extensions that it finds. An `int` is its bit pattern of
-- 32 bits.
use libhat.Prelude.{ℕ, ◌+◌, ◌/◌, ◌%◌, ◌^◌, ◌==◌, leb, Bool, false, ◌&&◌, if◌then◌else◌}
use libhat.Scanner.Resolve.{Extensions}

-- `info_t`.
pub record Info : Type 0 where
  pub eax : ℕ
  pub ebx : ℕ
  pub ecx : ℕ
  pub edx : ℕ

abbrev pub no_info : Info
no_info = record { eax = 0; ebx = 0; ecx = 0; edx = 0 }

-- The instructions `cpuid`, with and without a subleaf, and `xgetbv`.
pub record Cpu : Type 0 where
  pub cpuid : ℕ → Info
  pub cpuidex : ℕ → ℕ → Info
  pub xgetbv : ℕ → ℕ

-- `std::bitset::operator[]`.
abbrev pub bitset_at : ℕ → ℕ → Bool
bitset_at value i = (value / 2 ^ i) % 2 == 1

-- `a <= b` on `int`.
abbrev pub int_leb : ℕ → ℕ → Bool
int_leb a b = leb ((a + 2 ^ 31) % 2 ^ 32) ((b + 2 ^ 31) % 2 ^ 32)

abbrev pub n_ids : Cpu → ℕ
n_ids cpu = let max = Info.eax (cpu.cpuid 0) in if int_leb max 7 then max else 7

-- The array `data`, which the loop fills as far as `n_ids`.
unfoldable pub data_at : Cpu → ℕ → Info
data_at cpu i = if int_leb i (n_ids cpu) then cpu.cpuidex i 0 else no_info

-- `avxsupport` and `avx512support`.
unfoldable pub avx_support : Cpu → Bool
avx_support cpu =
    let f_1_ecx = Info.ecx (data_at cpu 1) in
    let xcr = cpu.xgetbv 0 in
    if bitset_at f_1_ecx 26 && bitset_at f_1_ecx 27
    then bitset_at xcr 1 && bitset_at xcr 2
    else false

unfoldable pub avx512_support : Cpu → Bool
avx512_support cpu =
    let f_1_ecx = Info.ecx (data_at cpu 1) in
    let xcr = cpu.xgetbv 0 in
    if bitset_at f_1_ecx 26 && bitset_at f_1_ecx 27
    then avx_support cpu && bitset_at xcr 5 && bitset_at xcr 6 && bitset_at xcr 7
    else false

pub record CpuExtensions : Type 0 where
  pub sse : Bool
  pub sse2 : Bool
  pub sse3 : Bool
  pub ssse3 : Bool
  pub sse41 : Bool
  pub sse42 : Bool
  pub avx : Bool
  pub avx2 : Bool
  pub avx512f : Bool
  pub avx512bw : Bool
  pub popcnt : Bool
  pub bmi : Bool

-- The member `extensions` that the constructor leaves.
unfoldable pub cpu_extensions : Cpu → CpuExtensions
cpu_extensions cpu =
    let f_1_ecx = Info.ecx (data_at cpu 1) in
    let f_1_edx = Info.edx (data_at cpu 1) in
    let f_7_ebx = Info.ebx (data_at cpu 7) in
    record {
      sse = bitset_at f_1_edx 25;
      sse2 = bitset_at f_1_edx 26;
      sse3 = bitset_at f_1_ecx 0;
      ssse3 = bitset_at f_1_ecx 9;
      sse41 = bitset_at f_1_ecx 19;
      sse42 = bitset_at f_1_ecx 20;
      avx = bitset_at f_1_ecx 28 && avx_support cpu;
      avx2 = bitset_at f_7_ebx 5 && avx_support cpu;
      avx512f = bitset_at f_7_ebx 16 && avx512_support cpu;
      avx512bw = bitset_at f_7_ebx 30 && avx512_support cpu;
      popcnt = bitset_at f_1_ecx 23;
      bmi = bitset_at f_7_ebx 3;
    }

-- The members that `resolve_scanner<Auto>` tests; on x86 there is no `neon`.
abbrev pub tested : CpuExtensions → Extensions
tested e = record {
  sse41 = e.sse41;
  avx2 = e.avx2;
  avx512f = e.avx512f;
  avx512bw = e.avx512bw;
  bmi = e.bmi;
  neon = false;
}
