-- ===== src/Str.antt =====
-- lib/str.h: the string library, of which src/str.h is a copy.
pub mod Defs
pub mod Search
pub mod Text
pub mod Append
pub mod Reverse
pub mod EndsWith
pub mod Substr
pub mod SelfTest
pub mod Single
pub mod Files
pub mod Compare
pub mod Find
