-- ===== src/Examples/Systems.antt =====
-- src/arch/x86/System.cpp at a concrete processor: AVX2 and BMI, with and without the state that the
-- operating system saves for them.
use libhat.Prelude.{ℕ, ◌+◌, ◌^◌, ◌==◌, if◌then◌else◌, ◌≡◌, refl, true, false, arith, none}
use libhat.Scanner.Context.{ScanContext, x1}
use libhat.Scanner.Resolve.{Extensions, resolve_auto}
use libhat.System.X86.{
  Info, Cpu, no_info, data_at, avx_support, avx512_support, cpu_extensions, tested,
}
use libhat.Prelude.{[], ◌∷◌}
use libhat.Modules.Spans.{before_zero}
use libhat.System.Vendor.{cpu_vendor, cpu_brand}
use libhat.System.Usable.{IsUsable, IsCompiledFor, resolve_auto-IsUsable}
use libhat.Examples.Machines.{five_seven, no_extension, x86_64_build}

abbrev leaf : ℕ → ℕ → Info
leaf i sub =
    if i == 1
    then record { eax = 0; ebx = 0; ecx = 2 ^ 26 + 2 ^ 27 + 2 ^ 19; edx = 2 ^ 25 }
    else if i == 7
    then record { eax = 0; ebx = 2 ^ 3 + 2 ^ 5; ecx = 0; edx = 0 }
    else no_info

-- With the components of the state that `xcr` enables.
abbrev with_xcr : ℕ → Cpu
with_xcr xcr = record {
  cpuid = λ i. record { eax = 7; ebx = 0; ecx = 0; edx = 0 };
  cpuidex = leaf;
  xgetbv = λ i. xcr;
}

abbrev context : ScanContext
context = record {
  signature = five_seven;
  alignment = x1;
  hints = 0;
  cmp_index = 0;
  pair_index = none;
}

found : Unit {0}
unfolding data_at avx_support avx512_support cpu_extensions
found = tt

avx2_enabled : Extensions.avx2 (tested (cpu_extensions (with_xcr 7))) ≡ true
unfolding found
avx2_enabled = refl

avx2_disabled : Extensions.avx2 (tested (cpu_extensions (with_xcr 3))) ≡ false
unfolding found
avx2_disabled = refl

no_extension-IsCompiledFor : (cpu : Cpu) → IsCompiledFor no_extension cpu
no_extension-IsCompiledFor cpu = record {
  has_sse41 = λ h. absurd (cc h);
  has_bmi = λ h. absurd (cc h);
  has_avx2 = λ h. absurd (cc h);
  has_avx512f = λ h. absurd (cc h);
  has_avx512bw = λ h. absurd (cc h);
}

resolve_auto-IsUsable_example :
    IsUsable
      (with_xcr 7)
      (resolve_auto x86_64_build no_extension (tested (cpu_extensions (with_xcr 7))) context).0
resolve_auto-IsUsable_example =
    resolve_auto-IsUsable x86_64_build no_extension (with_xcr 7) context refl (omega arith)
      (no_extension-IsCompiledFor (with_xcr 7))

-- A processor that names itself "GenuineIntel" and reports no extended leaf for its brand.
abbrev genuine : Cpu
genuine = record {
  cpuid = λ i.
      if i == 0
      then record { eax = 7; ebx = 0x756e6547; ecx = 0x6c65746e; edx = 0x49656e69 }
      else record { eax = 0x80000001; ebx = 0; ecx = 0; edx = 0 };
  cpuidex = leaf;
  xgetbv = λ i. 0;
}

genuine_vendor :
    cpu_vendor genuine
    ≡ b'G' ∷ b'e' ∷ b'n' ∷ b'u' ∷ b'i' ∷ b'n' ∷ b'e' ∷ b'I' ∷ b'n' ∷ b't' ∷ b'e' ∷ b'l' ∷ []
unfolding cpu_vendor before_zero
genuine_vendor = refl

no_brand : cpu_brand genuine ≡ []
unfolding cpu_brand before_zero
no_brand = refl
