-- ===== src/Files.antt =====
-- Program files: `write_to_file` and `load_from_file` of src/assembler/disassembler.c.
pub mod Defs
pub mod RoundTrip
