-- ===== src/Inst.antt =====
-- The instructions of the machine: their codes, the macros that build them, and the laws of both.
pub mod Defs
pub mod Macros
pub mod Codes
