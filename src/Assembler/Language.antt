-- ===== src/Assembler/Language.antt =====
-- A source language with operands and labels, what it should be assembled to, and that the assembler
-- of src/assembler/basic_assembler.c does so.
pub mod Defs
pub mod Operands
pub mod Labels
pub mod Text
pub mod Correct
