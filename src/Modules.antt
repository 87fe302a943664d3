-- ===== src/Modules.antt =====
-- src/os: the modules of a process, their sections and segments.
pub mod Names
pub mod SectionMap
pub mod Spans
pub mod Elf
pub mod ElfLoad
pub mod ElfFind
pub mod Linux
pub mod Find
pub mod Visit
pub mod LinuxLaws
pub mod LinuxData
pub mod LinuxCode
pub mod Found
pub mod Pe
pub mod PeLaws
pub mod MachO
pub mod MachOLaws
pub mod MachONames
pub mod Vtable
pub mod VtableFound
pub mod MachOFind
pub mod PeFind
