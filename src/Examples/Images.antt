-- ===== src/Examples/Images.antt =====
-- Images of Windows and macOS in memory, and the regions that these systems report.
use libhat.Prelude.{
  ℕ, ◌+◌, ◌-◌, ◌<◌, ◌≤◌, ltb, leb, ◌&&◌, if◌then◌else◌, ◌≡◌, refl, sym, true, false, List, [], ◌∷◌,
  Option, none, some, arith, get_or, Bool-cases, inl, inr,
}
use mathlib.Core.Option.{some_inj}
use libhat.Scanner.Context.{Memory}
use libhat.Scanner.ScanResult.{read_bytes}
use libhat.Modules.Spans.{before_zero, while_true}
use libhat.Modules.Names.{name_eq, starts_with, ends_with}
use libhat.Modules.Pe as Pe
use libhat.Modules.PeLaws.{code_among, items_of, get_executable_data-items_of}
use libhat.Modules.MachO as MachO
use libhat.Modules.MachOLaws.{sections_of}
use libhat.Modules.MachONames.{first_named, get_section_data-first_named}
use libhat.Modules.MachOFind.{Dyld, get_module, IsModuleFor, get_module-IsModuleFor}
use libhat.Process.Walk.{walk, IsAnswerFor}
use libhat.Process.Win32 as Win32
use libhat.Process.Mac as Mac

-- The headers of an image with the sections ".data" and "code".
abbrev pe_image : List ℕ
pe_image =
    77 ∷ 90 ∷ 0 ∷ 0 ∷ 0 ∷ 0 ∷ 0 ∷ 0 ∷ 0 ∷ 0 ∷ 0 ∷ 0 ∷ 0 ∷ 0 ∷ 0 ∷ 0 ∷ 0 ∷ 0 ∷ 0 ∷ 0 ∷ 0 ∷ 0 ∷ 0 ∷ 0
    ∷ 0 ∷ 0 ∷ 0 ∷ 0 ∷ 0 ∷ 0 ∷ 0 ∷ 0 ∷ 0 ∷ 0 ∷ 0 ∷ 0 ∷ 0 ∷ 0 ∷ 0 ∷ 0 ∷ 0 ∷ 0 ∷ 0 ∷ 0 ∷ 0 ∷ 0 ∷ 0 ∷ 0
    ∷ 0 ∷ 0 ∷ 0 ∷ 0 ∷ 0 ∷ 0 ∷ 0 ∷ 0 ∷ 0 ∷ 0 ∷ 0 ∷ 0 ∷ 64 ∷ 0 ∷ 0 ∷ 0 ∷ 80 ∷ 69 ∷ 0 ∷ 0 ∷ 100 ∷ 134
    ∷ 2 ∷ 0 ∷ 0 ∷ 0 ∷ 0 ∷ 0 ∷ 0 ∷ 0 ∷ 0 ∷ 0 ∷ 0 ∷ 0 ∷ 0 ∷ 0 ∷ 64 ∷ 0 ∷ 0 ∷ 0 ∷ 0 ∷ 0 ∷ 0 ∷ 0 ∷ 0 ∷ 0
    ∷ 0 ∷ 0 ∷ 0 ∷ 0 ∷ 0 ∷ 0 ∷ 0 ∷ 0 ∷ 0 ∷ 0 ∷ 0 ∷ 0 ∷ 0 ∷ 0 ∷ 0 ∷ 0 ∷ 0 ∷ 0 ∷ 0 ∷ 0 ∷ 0 ∷ 0 ∷ 0 ∷ 0
    ∷ 0 ∷ 0 ∷ 0 ∷ 0 ∷ 0 ∷ 0 ∷ 0 ∷ 0 ∷ 0 ∷ 0 ∷ 0 ∷ 0 ∷ 0 ∷ 0 ∷ 0 ∷ 0 ∷ 0 ∷ 0 ∷ 0 ∷ 0 ∷ 0 ∷ 0 ∷ 0 ∷ 0
    ∷ 0 ∷ 0 ∷ 0 ∷ 64 ∷ 0 ∷ 0 ∷ 0 ∷ 0 ∷ 0 ∷ 0 ∷ 46 ∷ 100 ∷ 97 ∷ 116 ∷ 97 ∷ 0 ∷ 0 ∷ 0 ∷ 48 ∷ 0 ∷ 0 ∷ 0
    ∷ 0 ∷ 48 ∷ 0 ∷ 0 ∷ 0 ∷ 0 ∷ 0 ∷ 0 ∷ 0 ∷ 0 ∷ 0 ∷ 0 ∷ 0 ∷ 0 ∷ 0 ∷ 0 ∷ 0 ∷ 0 ∷ 0 ∷ 0 ∷ 0 ∷ 0 ∷ 0 ∷ 0
    ∷ 64 ∷ 0 ∷ 0 ∷ 192 ∷ 99 ∷ 111 ∷ 100 ∷ 101 ∷ 0 ∷ 0 ∷ 0 ∷ 0 ∷ 32 ∷ 0 ∷ 0 ∷ 0 ∷ 0 ∷ 16 ∷ 0 ∷ 0 ∷ 0
    ∷ 0 ∷ 0 ∷ 0 ∷ 0 ∷ 0 ∷ 0 ∷ 0 ∷ 0 ∷ 0 ∷ 0 ∷ 0 ∷ 0 ∷ 0 ∷ 0 ∷ 0 ∷ 0 ∷ 0 ∷ 0 ∷ 0 ∷ 32 ∷ 0 ∷ 0 ∷ 96
    ∷ []

-- The header of an image with the section "__TEXT,__text".
abbrev mach_image : List ℕ
mach_image =
    207 ∷ 250 ∷ 237 ∷ 254 ∷ 0 ∷ 0 ∷ 0 ∷ 0 ∷ 0 ∷ 0 ∷ 0 ∷ 0 ∷ 2 ∷ 0 ∷ 0 ∷ 0 ∷ 1 ∷ 0 ∷ 0 ∷ 0 ∷ 0 ∷ 0
    ∷ 0 ∷ 0 ∷ 0 ∷ 0 ∷ 0 ∷ 0 ∷ 0 ∷ 0 ∷ 0 ∷ 0 ∷ 25 ∷ 0 ∷ 0 ∷ 0 ∷ 152 ∷ 0 ∷ 0 ∷ 0 ∷ 95 ∷ 95 ∷ 84 ∷ 69
    ∷ 88 ∷ 84 ∷ 0 ∷ 0 ∷ 0 ∷ 0 ∷ 0 ∷ 0 ∷ 0 ∷ 0 ∷ 0 ∷ 0 ∷ 0 ∷ 16 ∷ 0 ∷ 0 ∷ 0 ∷ 0 ∷ 0 ∷ 0 ∷ 0 ∷ 16 ∷ 0
    ∷ 0 ∷ 0 ∷ 0 ∷ 0 ∷ 0 ∷ 0 ∷ 0 ∷ 0 ∷ 0 ∷ 0 ∷ 0 ∷ 0 ∷ 0 ∷ 0 ∷ 0 ∷ 0 ∷ 0 ∷ 0 ∷ 0 ∷ 0 ∷ 0 ∷ 0 ∷ 0 ∷ 0
    ∷ 0 ∷ 5 ∷ 0 ∷ 0 ∷ 0 ∷ 1 ∷ 0 ∷ 0 ∷ 0 ∷ 0 ∷ 0 ∷ 0 ∷ 0 ∷ 95 ∷ 95 ∷ 116 ∷ 101 ∷ 120 ∷ 116 ∷ 0 ∷ 0
    ∷ 0 ∷ 0 ∷ 0 ∷ 0 ∷ 0 ∷ 0 ∷ 0 ∷ 0 ∷ 95 ∷ 95 ∷ 84 ∷ 69 ∷ 88 ∷ 84 ∷ 0 ∷ 0 ∷ 0 ∷ 0 ∷ 0 ∷ 0 ∷ 0 ∷ 0
    ∷ 0 ∷ 0 ∷ 0 ∷ 17 ∷ 0 ∷ 0 ∷ 0 ∷ 0 ∷ 0 ∷ 0 ∷ 64 ∷ 0 ∷ 0 ∷ 0 ∷ 0 ∷ 0 ∷ 0 ∷ 0 ∷ 0 ∷ 0 ∷ 0 ∷ 0 ∷ 0
    ∷ 0 ∷ 0 ∷ 0 ∷ 0 ∷ 0 ∷ 0 ∷ 0 ∷ 0 ∷ 0 ∷ 0 ∷ 0 ∷ 0 ∷ 4 ∷ 0 ∷ 128 ∷ 0 ∷ 0 ∷ 0 ∷ 0 ∷ 0 ∷ 0 ∷ 0 ∷ 0
    ∷ 0 ∷ 0 ∷ 0 ∷ 0 ∷ []

-- An image at 65536.
abbrev with_image : List ℕ → Memory
with_image image a = if ltb a 65536 then 0 else get_or image (a - 65536) 0

program : Unit {0}
unfolding read_bytes before_zero while_true name_eq Pe.headers_from Pe.named_header Pe.code_header
    Pe.get_section_data Pe.get_executable_data MachO.segment_loop MachO.each_segment
    MachO.section_loop MachO.each_section starts_with ends_with MachO.is_qualified
    MachO.match_section MachO.get_section_data MachO.get_executable_data MachO.match_code walk
    Win32.region_has_flags Win32.is_readable Mac.region_has_flags Mac.is_readable
program = tt

code_of_pe :
    Pe.get_executable_data (with_image pe_image) 65536 ≡ record { address = 69632; size = 32 }
unfolding program
code_of_pe = refl

abbrev text_name : List ℕ
text_name = b'_' ∷ b'_' ∷ b't' ∷ b'e' ∷ b'x' ∷ b't' ∷ []

code_of_mach :
    MachO.get_executable_data (with_image mach_image) 65536 61440
    ≡ record { address = 65792; size = 64 }
unfolding program
code_of_mach = refl

get_executable_data-items_of_example :
    Pe.get_executable_data (with_image pe_image) 65536
    ≡ code_among (with_image pe_image) 65536 (items_of (with_image pe_image) 65536)
get_executable_data-items_of_example = get_executable_data-items_of (with_image pe_image) 65536

get_section_data-first_named_example :
    MachO.get_section_data (with_image mach_image) 65536 61440 text_name
    ≡ first_named
        (with_image mach_image)
        65536
        61440
        text_name
        (sections_of (with_image mach_image) 65536)
get_section_data-first_named_example =
    get_section_data-first_named (with_image mach_image) 65536 61440 text_name

-- One committed region of 65536 bytes that can be read and executed, and nothing else.
abbrev code_pages : Win32.MemoryInfo
code_pages = record { base_address = 65536; region_size = 65536; state = 0x1000; protect = 0x20 }

abbrev query : ℕ → Option Win32.MemoryInfo
query a = if leb 65536 a && ltb a 131072 then some code_pages else none

query-inside :
    (a : ℕ) (mbi : Win32.MemoryInfo)
    → query a ≡ some mbi
    → ((leb 65536 a && ltb a 131072) ≡ true) × (code_pages ≡ mbi)
query-inside a mbi h = elim (Bool-cases (leb 65536 a && ltb a 131072)) [
  | inl e ↦ (e, some_inj.0 (rw e at h))
  | inr e ↦ absurd (cc (rw e at h))
]

query-IsVirtualQuery : Win32.IsVirtualQuery query
query-IsVirtualQuery = record {
  holds =
      λ a mbi h. let (e, same) = query-inside a mbi h in rw (sym same) (ground arith, ground arith);
  uniform = λ a x mbi h lo hi.
      let (e, same) = query-inside a mbi h in
      let hi' : x < 131072 = rw (sym same) at hi in
      let there : (leb 65536 x && ltb x 131072) ≡ true = ground arith in
      rw (there, sym same) (code_pages, refl, refl, refl);
}

region_has_flags-IsAnswerFor_example :
    IsAnswerFor
      (λ a. Win32.has_access query 0xEE (query a))
      65540
      (65540 + 16)
      (Win32.region_has_flags query 65540 16 0xEE)
region_has_flags-IsAnswerFor_example =
    Win32.region_has_flags-IsAnswerFor query 65540 16 0xEE query-IsVirtualQuery

-- One region at 65536, and nothing before it.
abbrev far : Mac.VmRegion
far = record { vm_addr = 65536; size = 65536; protection = 5 }

abbrev vm_region : ℕ → Option Mac.VmRegion
vm_region a = if ltb a 131072 then some far else none

vm_region-IsVmRegion : Mac.IsVmRegion vm_region
vm_region-IsVmRegion = record {
  ahead = λ a r h. let (e, same) = inside a r h in rw (sym same) (ground arith);
  uniform = λ a x r h lo hi.
      let (e, same) = inside a r h in
      let hi' : x < 131072 = rw (sym same) at hi in
      let there : ltb x 131072 ≡ true = ground arith in rw (there, sym same) refl;
}
  where
    inside : (a : ℕ) (r : Mac.VmRegion) → vm_region a ≡ some r → (ltb a 131072 ≡ true) × (far ≡ r)
    inside a r h = elim (Bool-cases (ltb a 131072)) [
      | inl e ↦ (e, some_inj.0 (rw e at h))
      | inr e ↦ absurd (cc (rw e at h))
    ]

is_readable-unmapped_example :
    (Mac.is_readable vm_region 4096 16 ≡ some true)
    × ((x : ℕ) → 4096 ≤ x → x < 4096 + 16 → Mac.has_access vm_region 1 x (vm_region x) ≡ false)
is_readable-unmapped_example =
    Mac.is_readable-unmapped vm_region 4096 16 far vm_region-IsVmRegion refl (omega arith) refl

-- A library that is not a program, and the program.
abbrev dyld : Dyld
dyld = record {
  images =
      (record { image_header = 0; image_name = []; image_slide = 0 })
      ∷ (record { image_header = 65536; image_name = b'a' ∷ []; image_slide = 61440 })
      ∷ [];
  dlopen = λ name. 9;
  dladdr = λ address. none;
}

get_module-IsModuleFor_example :
    IsModuleFor (with_image mach_image) dyld [] (get_module (with_image mach_image) dyld [])
get_module-IsModuleFor_example = get_module-IsModuleFor (with_image mach_image) dyld []
