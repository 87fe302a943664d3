-- ===== src/Text.antt =====
-- The strings of include/libhat: `fixed_string` and `cstring_view`.
pub mod Fixed
pub mod FixedLaws
pub mod CString
pub mod CStringLaws
pub mod Search
pub mod SearchLaws
