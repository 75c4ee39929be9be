-- ===== src/Disassembler.antt =====
-- src/assembler/disassembler.c: the text of an instruction and of a program.
pub mod Show
pub mod Print
pub mod Names
pub mod Operands
pub mod Injective
