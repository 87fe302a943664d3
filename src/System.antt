-- ===== src/System.antt =====
-- src/arch/x86/System.cpp: what the processor and the operating system support.
pub mod X86
pub mod Usable
pub mod Vendor
