-- ===== src/Lib.antt =====
-- C-AT: the SET virtual machine, its assembler, its disassembler, its native tests and its small
-- libraries.
--
-- The program: src/vm/set.h declares the instructions and the machine, src/vm/set.c executes them.
-- src/assembler/basic_assembler.c turns a source text into an array of instructions, with the
-- tokens of src/tokenizer.c. src/testing runs programs written with the macros of set.h, and
-- compares what they return. src/assembler/disassembler.c prints instructions, and reads and writes
-- the program files by which the assembler program and the machine program src/vm/vm.c meet. The
-- tests and the machine meet in `execute_program` and in the registers, which are globals.
-- lib/cliargs.h finds flags, lib/str.h has strings with a length, which src/format.c uses.
--
-- The files:
--   Base: results with faults, lists, byte texts and Boolean tests over the native numbers.
--   Inst: `Inst`, `Instruction` and the macros of src/vm/set.h.
--   Machine: `Machine`, `CallFrame`, the stack memory and the frames (src/vm/set.h, src/vm/set.c). A
--     `uint` is a number below 2 ^ 32, a `size_t` one below 2 ^ 64, an array a function of the index.
--     Report has the debug views of src/vm/set.c and its reading of the clock.
--   Exec: `execute_op`, in Integer, Float, Memory and Control by kind of instruction, and the loop of
--     `execute_program` in Step. Loop, Straight, Forward, Nested, CallSites and Laws are about them,
--     StackCode compares programs of the stack and of integer arithmetic with a machine on a list of words.
--   Testing: the programs of src/testing/test_list.c, and `run_set_program`, `run_native_tests` and
--     `main` of src/testing/tester.c. Suite and Main are about the whole list and the program,
--     Recursion and Depth about the recursive test at any depth.
--   Tokenizer: `token_next` of src/tokenizer.c, and in Stream and Pieces the tokens of a whole text.
--   Assembler: Keywords, Operands, Emit, Line, Labels and Program follow the functions of
--     src/assembler/basic_assembler.c. Lines describes a program by its source lines.
--     A line is tidy if its tokens fit the array of 32, no operand is `#` or the end of a line, the first
--     is no colon, and an instruction behind a label, none in between, has an operand. Source
--     and Whole go from the characters of a file to the program. Language has the statements of the
--     source language, what they stand for, and their text.
--   Cli: lib/cliargs.h. Files: `write_to_file` and `load_from_file` of src/assembler/disassembler.c,
--     over a file system `Disk`. Disassembler: the printing of that file.
--   Mains: `main` of src/assembler/basic_assembler.c (Caasm) and of src/vm/vm.c (Vm), from the
--     arguments and the file system to a status. Emitted, Pipeline and Language compose
--     them, for the program with a loop of Countdown down to the exit status; Refused, here and in
--     Assembler, is about files that are too long.
--   Str: lib/str.h in Defs and Search, `IsText` says which text a string holds. Files is about the
--     functions of src/format.c that read a directory or a file, SelfTest about src/cliargs.c.
--   Format: what src/format.c prints, and the log file.
--   Examples: each theorem at concrete arguments.
--
-- Conventions. An access outside an array, a null pointer, a failed assertion and a division by zero
-- are faults of `Result`; C does not define them, or stops. A float is its bit pattern. What the C
-- code takes from outside is an argument: `Host` has the float arithmetic, the casts and `write`,
-- `Build` has `atof`, a conversion and the content of uninitialised locals, and `residue` is the
-- content of the tokenizer's uninitialised array. A `Toolchain` adds the padding of the records in a
-- program file and what `%f` prints, `junk` in Str is what `reallocarray` finds in new memory. A
-- file is its bytes, little-endian for the members of an instruction. Allocation, and writing to
-- an open file, succeed. The reading loop of the assembler copies its buffer onto itself by `sprintf`,
-- which C leaves undefined; it is taken for an append, as the C library does it. An `int` is its bit
-- pattern. The counters of lib/str.h, of the type `uint`, are unbounded: the code differs only from
-- 2 ^ 32 characters on, where its loops do not end.
--
-- Fuel. Only `execute_program` has fuel, one unit for a round of its loop, since a program of the
-- machine need not stop. A run that is cut is told apart from one that ends. A program whose jumps
-- lead forward needs a unit for each instruction, 100 units are enough for the native tests, and the
-- programs with a loop or a recursion have a bound in their theorems.
--
-- Not modelled: the messages and usage texts of the programs, when the clock is read, the compiled
-- tests that `TEST_ASM` switches off, and `log_debug_statistic`, which prints sizes that the compiler
-- chooses. src/str.h is a copy of lib/str.h with `str_free` for `str_clear`.

pub mod Base
pub mod Inst
pub mod Machine
pub mod Exec
pub mod Testing
pub mod Tokenizer
pub mod Assembler
pub mod Cli
pub mod Files
pub mod Disassembler
pub mod Mains
pub mod Str
pub mod Format
pub mod Examples
