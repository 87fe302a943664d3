-- ===== src/Lib.antt =====
-- A verification of libhat, a C++ library that searches the memory of a process for byte patterns
-- ("signatures") and changes its protection.
--
-- The parts and how they interact. A signature is made from a text by `parse_signature`, which
-- reads its digits with `parse_int`, or from bytes. `find_pattern` makes a scan context from a
-- signature: `scan_context::create` picks the byte that is compared first, and `resolve_scanner`
-- the scanner, which for the vector scanners calls `apply_hints` to pick a pair of bytes with the
-- frequency tables. Each vector scanner cuts the range with `segment_scan`, gives the ends to
-- `find_pattern_single` and goes through the vectors. `find_all_pattern` repeats the scan. The C
-- interface wraps signatures and modules in tagged objects and calls the same functions. On Linux,
-- `is_readable` and its like and `memory_protector` read /proc/self/maps line by line. A module gives
-- the bytes that are scanned: on Linux its sections are read once from its file, on Windows and macOS
-- from the headers of its image in memory.
--
-- What stands where:
--   Prelude      tests, lists over native numbers, and the laws of bitwise operations on bytes;
--   Signature    include/libhat/signature.hpp, strconv.hpp and result.hpp: Element (signature_element),
--                ParseInt (parse_int), Parse (parse_signature_to, compile_signature), Print
--                (to_string), Bytes (string_to_signature), Access (the members of result); Number, SignedNumber,
--                Shape, Printable, RoundTrip and Capacity hold the proofs about them;
--   Scanner      include/libhat/scanner.hpp, src/Scanner.cpp, src/Utils.hpp and src/arch: Context (the
--                context), Single (find_pattern_single), Segment (segment_scan), Word (masks), Blocks and
--                Vector (find_pattern_sse, _avx2, _avx512), Neon (find_pattern_neon), Hints (apply_hints),
--                Tables (Frequency.hpp), Resolve (resolve_scanner), FindPattern (find_pattern,
--                find_all_pattern), ScanResult (read, index, rel); Relative proves `rel`, ByteMatch what the
--                signatures of bytes match; First states what a search promises, and SingleFirst, VectorFirst,
--                NeonFirst, Pairs, Scores, Agree and FindAll prove it, with the modules they use;
--   Process      src/os/linux/Common.hpp and Process.cpp: Maps (iter_mapped_regions), Regions
--                (regionHasFlag, get_page_prot), Answer and Covered (the proofs); Walk, Win32 and Mac
--                (regionHasFlags of src/os/win32/Process.cpp and src/os/mac/Process.cpp, with proofs);
--   Modules      Names, SectionMap and Spans (std::map of names, spans, loops with a callback); Elf
--                (init_sections), Linux (the members of module) and Find (get_module, module_at) of
--                src/os/linux/Process.cpp, with the proofs ElfLoad, ElfFind, Visit, LinuxLaws, LinuxData,
--                LinuxCode and Found; Pe and PeFind of src/os/win32/Process.cpp, with PeLaws; MachO and
--                MachOFind of src/os/mac/Process.cpp, with MachOLaws and MachONames; Vtable (find_vtable of
--                src/os/win32/Scanner.cpp), with VtableFound;
--   Protector    include/libhat/memory.hpp, memory_protector.hpp, src/os/linux/MemoryProtector.cpp and the
--                alignment functions of src/Utils.hpp: Align, Flags, Linux; AlignLaws, Bits and Restored prove;
--                Win32 and Mac (MemoryProtector.cpp of src/os/win32 and src/os/mac), with Pages;
--   Bindings     bindings/c/src/libhat.cpp: Objects (tags and libhat_free), Calls (the calls on
--                signatures), ModuleCalls (the calls on modules), LinuxModules (these over the modules of Linux);
--                IsHeap, Freed, Scan, Answered, ModuleHandles and ModuleScan prove;
--   System       src/arch/x86/System.cpp: X86 (the extensions that the constructor finds), Vendor (its
--                vendor and brand, and src/arch/arm/System.cpp), Usable (which scanners
--                `resolve_scanner<Auto>` takes with them);
--   Cow          include/libhat/cow.hpp: Traits (cow_traits as an interface), Wrapper (cow with an
--                allocator), Moves (constructors, moves, the form without an allocator), Laws;
--   Text         Fixed (include/libhat/fixed_string.hpp) and CString (cstring_view.hpp there), with the proofs
--                FixedLaws and CStringLaws; Search (the members of cstring_view that search), SearchLaws;
--   Examples     runs at concrete inputs.
--
-- How the code is modelled. A pointer is its address, and memory a function from addresses to
-- bytes; a mask is the list of its bits from the lowest one on, a vector the list of its bytes,
-- and an intrinsic is what its documentation says. Arithmetic on fixed widths keeps its `% 2 ^ w`
-- where it can wrap; pointers inside one object do not wrap. A loop runs on fuel that is one more
-- than the number of its steps: the scan loops take the length of their range, a loop over a mask
-- one more than its bits, and `find_all_pattern` one more than the bytes of the range; the loop
-- over an ELF table one more than its entries, and the loop over regions one more than the bytes
-- of the range. An outcome `timeout` or `none` stands for fuel that runs out, and the theorems on
-- these functions say that it does not.
--
-- Parameters. `mprotect`, the page size and the text of /proc/self/maps are arguments of the
-- definitions that use them, and `IsMprotect` states the documented behaviour of a call that
-- succeeds: it changes whole pages, those with a byte of its range. Which bytes of a buffer that
-- is given to the C interface can be read is an argument of `libhat_find_pattern`. The dynamic
-- loader and the files of Linux are the record `Loader`, `VirtualQuery` and `mach_vm_region` are
-- functions with the records `IsVirtualQuery` and `IsVmRegion` for what is documented of them, and
-- what the C interface calls of a module is the record `Modules`. What the compiler and the
-- processor offer is the record `Machine`, and the instructions `cpuid` and `xgetbv` the record
-- `Cpu`. The address that `new` gives is an argument.
--
-- Not modelled: the reference counts of `dlopen` and of Windows, and allocations that fail other
-- than the two vectors of `init_sections`; the iterators of `cstring_view` and its `compare` of
-- parts; the constructors of `cow` that forward their arguments; the page size, which is a
-- question to the system; the memory order of atomic operations, since the exchange in
-- `libhat_free` is one step, and `std::call_once` between threads; and the bindings for other
-- languages. Where C++ leaves something undefined, such as a signature without a whole byte in
-- `find_pattern_single`, the definition reads 0 and the theorems have a condition that excludes
-- it; an overflow of `parse_int`, a read of an object that does not live, and in
-- `libhat_find_pattern` a buffer that is not valid or a null output are the outcome `undefined`.
-- `parse_int` of signed types narrower than `int`, which are promoted, is left out.
pub mod Prelude
pub mod Signature
pub mod Scanner
pub mod Process
pub mod Modules
pub mod Protector
pub mod Bindings
pub mod Cow
pub mod System
pub mod Examples
pub mod Text
