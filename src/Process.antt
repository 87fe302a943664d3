-- ===== src/Process.antt =====
-- src/os: the mapped regions of the process, and the questions that `hat::process` asks of them.
pub mod Maps
pub mod Regions
pub mod Answer
pub mod Covered
pub mod Walk
pub mod Win32
pub mod Mac
