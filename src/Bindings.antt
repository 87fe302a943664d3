-- ===== src/Bindings.antt =====
-- bindings/c/src/libhat.cpp: the C interface to the signatures, the scanner and the modules.
pub mod Objects
pub mod Calls
pub mod IsHeap
pub mod Freed
pub mod ModuleCalls
pub mod ModuleHandles
pub mod ModuleScan
pub mod Scan
pub mod Answered
pub mod LinuxModules
