-- ===== src/Assembler.antt =====
-- src/assembler/basic_assembler.c: the two passes of the assembler, from the text to the instructions.
pub mod Report
pub mod Keywords
pub mod Operands
pub mod Emit
pub mod Line
pub mod Labels
pub mod Program
pub mod Source
pub mod Whole
pub mod Refused
pub mod Language
pub mod Lines
