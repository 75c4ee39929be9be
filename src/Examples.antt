-- ===== src/Examples.antt =====
-- The theorems of the other modules at concrete machines, instructions and source texts.
pub mod Data
mod Machines
mod Runs
mod Texts
mod Lines
mod Programs
mod Strings
