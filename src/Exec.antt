-- ===== src/Exec.antt =====
-- `execute_op`, `execute_program` and the dispatch over the enumerator, from src/vm/set.c.
pub mod Integer
pub mod Float
pub mod Memory
pub mod Control
pub mod Step
pub mod Valid
pub mod ValidOps
pub mod Preserve
pub mod Loop
pub mod Straight
pub mod Forward
pub mod Nested
pub mod Opens
pub mod CallSites
pub mod StackCode
pub mod Laws
