-- ===== src/Scanner.antt =====
-- include/libhat/scanner.hpp, src/Scanner.cpp, src/Utils.hpp and src/arch: the signature scanner.
pub mod Context
pub mod First
pub mod Single
pub mod Valid
pub mod Strided
pub mod Bytewise
pub mod SingleFirst
pub mod Word
pub mod Segment
pub mod Blocks
pub mod BlocksFirst
pub mod Vector
pub mod Candidates
pub mod Compare
pub mod Rotation
pub mod Mask
pub mod VectorFirst
pub mod Hints
pub mod BestPair
pub mod Pairs
pub mod Tables
pub mod Scores
pub mod ScanResult
pub mod Relative
pub mod ByteMatch
pub mod Neon
pub mod Nibbles
pub mod NeonLoop
pub mod NeonFirst
pub mod Resolve
pub mod FindPattern
pub mod Agree
pub mod Occurrences
pub mod FindAll
