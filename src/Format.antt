-- ===== src/Format.antt =====
-- src/format.c: what it prints, and the files that it opens.
pub mod Messages
pub mod Logs
