-- ===== src/Examples.antt =====
-- Runs of the modelled code at concrete inputs, and each property at an input that meets its conditions.
mod Machines
mod Scanning
mod Signatures
mod Processes
mod Protection
mod Handles
mod Cows
mod Systems
mod Loaded
mod Images
mod ModuleHandles
mod Vtables
mod Texts
