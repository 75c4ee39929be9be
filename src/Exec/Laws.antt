-- ===== src/Exec/Laws.antt =====
-- What single instructions and short sequences of them do.
pub mod Registers
pub mod Stack
pub mod Calls
pub mod Jumps
