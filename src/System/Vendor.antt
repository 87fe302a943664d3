-- ===== src/System/Vendor.antt =====
-- src/arch/x86/System.cpp: the texts of the vendor and the brand that the constructor finds;
-- src/arch/arm/System.cpp: the constructor on ARM.
use libhat.Prelude.{
  ℕ, bit_and, ◌==◌, Bool, true, not, if◌then◌else◌, List, [], ◌++◌, Option, none, some,
}
use libhat.Signature.Bytes.{char_bytes}
use libhat.Modules.Spans.{before_zero}
use libhat.System.X86.{Info, Cpu, no_info, int_leb}

-- The bytes of an `int`, and of an `info_t`.
abbrev pub int_bytes : ℕ → List ℕ
int_bytes value = char_bytes 4 value

abbrev pub info_bytes : Info → List ℕ
info_bytes info =
    int_bytes info.eax ++ int_bytes info.ebx ++ int_bytes info.ecx ++ int_bytes info.edx

-- The member `cpu_vendor`.
unfoldable pub cpu_vendor : Cpu → List ℕ
cpu_vendor cpu =
    let info = cpu.cpuid 0 in
    before_zero
      (int_bytes (Info.ebx info) ++ int_bytes (Info.edx info) ++ int_bytes (Info.ecx info))

-- `nExtIds`, and the array `extData`.
abbrev pub n_ext_ids : Cpu → ℕ
n_ext_ids cpu =
    let max = Info.eax (cpu.cpuid 0x80000000) in if int_leb max 0x80000004 then max else 0x80000004

unfoldable pub ext_data_at : Cpu → ℕ → Info
ext_data_at cpu i = if int_leb i (n_ext_ids cpu) then cpu.cpuidex i 0 else no_info

-- The member `cpu_brand`.
unfoldable pub cpu_brand : Cpu → List ℕ
cpu_brand cpu =
    let brand =
      info_bytes (ext_data_at cpu 0x80000002)
      ++ info_bytes (ext_data_at cpu 0x80000003)
      ++ info_bytes (ext_data_at cpu 0x80000004) in
    before_zero (if int_leb 0x80000004 (n_ext_ids cpu) then brand else [])

-- `system_info_arm`: on Linux by the bit of `getauxval(AT_HWCAP)`, elsewhere always.
unfoldable pub arm_neon : Option ℕ → ℕ → Bool
arm_neon none hwcap_bit = true
arm_neon (some hwcap) hwcap_bit = not (bit_and hwcap hwcap_bit == 0)
