-- ===== src/Assembler/Lines.antt =====
-- A program as source lines, against the two passes over its tokens.
pub mod Defs
pub mod First
pub mod Second
pub mod Dropped
pub mod References
