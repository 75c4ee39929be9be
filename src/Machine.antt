-- ===== src/Machine.antt =====
-- The machine of src/vm/set.h and src/vm/set.c: its record, its stack memory and its call frames.
pub mod Report
pub mod Defs
pub mod Memory
pub mod Frames
pub mod State
