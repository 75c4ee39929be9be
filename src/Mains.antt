-- ===== src/Mains.antt =====
-- The two programs: `main` of src/vm/vm.c, and `main`, `main_assemble` and `main_disassemble` of
-- src/assembler/basic_assembler.c, with the files that they share.
pub mod Vm
pub mod Caasm
pub mod Emitted
pub mod Pipeline
pub mod Refused
pub mod Language
pub mod Countdown
