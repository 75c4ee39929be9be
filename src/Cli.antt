-- ===== src/Cli.antt =====
-- lib/cliargs.h: the arguments of the command line.
pub mod Defs
pub mod Laws
