-- ===== src/Testing.antt =====
-- The native tests of src/testing: the programs of test_list.c, and `run_set_program` and
-- `run_native_tests` of tester.c.
pub mod Programs
pub mod Runner
pub mod Results
pub mod Suite
pub mod Main
pub mod Recursion
pub mod Depth
