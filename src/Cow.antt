-- ===== src/Cow.antt =====
-- include/libhat/cow.hpp: the copy-on-write wrapper.
pub mod Traits
pub mod Wrapper
pub mod Laws
pub mod Moves
