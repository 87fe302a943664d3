-- ===== src/Protector.antt =====
-- include/libhat/memory.hpp, include/libhat/memory_protector.hpp, src/os/linux/MemoryProtector.cpp and
-- the alignment functions of src/Utils.hpp.
pub mod Align
pub mod AlignLaws
pub mod Flags
pub mod Linux
pub mod Restored
pub mod Pages
pub mod Bits
pub mod Win32
pub mod Mac
