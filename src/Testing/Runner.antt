-- ===== src/Testing/Runner.antt =====
-- `TestProgram`, `TestResult`, `run_set_program` and the loop of `run_native_tests` (src/testing).
-- The registers and the stack are globals of the process: each test starts with what the one
-- before it left.
use c_at.Base.{[], ◌&&◌, none, some, ◌∷◌, Option, length, true, ℕ, Bool, List, ◌%◌, ◌==◌}
use c_at.Inst.Defs.{Instruction}
use c_at.Exec.Step.{Run, execute_program, stuck, done, running}
use c_at.Machine.Defs.{Machine, Globals, init_machine, Host}
use c_at.Testing.Programs.{
  inc_dec, print_program, and_or, casting_float_to_int, function_call, recursive_function_call,
  simple_loop,
}

pub record TestProgram : Type 0 where
  pub desired_return : ℕ
  pub program : List Instruction

pub record TestResult : Type 0 where
  pub sucess : Bool
  pub return_code : ℕ

-- The machine that `run_set_program` starts: its logger is the log file.
unfoldable pub start_test : Globals → TestProgram → Machine
unfolding init_machine
start_test g item = record (init_machine g item.program (length item.program)) {
  core_logger = some [];
}

-- `return_code` is a `byte`.
unfoldable pub test_result : TestProgram → Machine → TestResult
test_result item m = record {
  sucess = item.desired_return == m.accum_register;
  return_code = m.accum_register % 256;
}

-- The globals after a run.
unfoldable pub globals_of : Machine → Globals
globals_of m = record {
  d_registers = m.iregisters;
  f_registers = m.fregisters;
  stack = m.stack_memory;
}

-- A run to its end; `none` if a step faults or the fuel is used up.
unfoldable pub finished : Run → Option Machine
finished (done m) = some m
finished (stuck e) = none
finished (running m) = none

unfoldable pub run_set_program : Host → ℕ → Globals → TestProgram → Option (TestResult × Globals)
unfolding start_test test_result globals_of finished
run_set_program host fuel g item = elim (finished (execute_program host fuel (start_test g item))) [
  | none ↦ none
  | some m ↦ some (test_result item m, globals_of m)
]

-- `run_native_tests`: the results in order. The source goes on after a failed test, and so does this.
unfoldable pub run_native_tests : Host → ℕ → Globals → List TestProgram → Option (List TestResult)
unfolding run_set_program
run_native_tests host fuel g [] = some []
run_native_tests host fuel g (item ∷ rest) = elim (run_set_program host fuel g item) [
  | none ↦ none
  | some (r, g') ↦ elim (run_native_tests host fuel g' rest) [
    | none ↦ none
    | some rs ↦ some (r ∷ rs)
  ]
]

-- `all_tests_passed`.
unfoldable pub all_passed : List TestResult → Bool
all_passed [] = true
all_passed (r ∷ rs) = r.sucess && all_passed rs

-- `TESTS_LIST`.
abbrev pub simple_loop_test : TestProgram
simple_loop_test = record { desired_return = 10; program = simple_loop }

abbrev pub and_or_test : TestProgram
and_or_test = record { desired_return = 0; program = and_or }

abbrev pub inc_dec_test : TestProgram
inc_dec_test = record { desired_return = 2; program = inc_dec }

abbrev pub print_test : TestProgram
print_test = record { desired_return = 0; program = print_program }

abbrev pub function_call_test : TestProgram
function_call_test = record { desired_return = 66; program = function_call }

abbrev pub recursive_test : TestProgram
recursive_test = record { desired_return = 5; program = recursive_function_call }

abbrev pub casting_test : TestProgram
casting_test = record { desired_return = 21; program = casting_float_to_int }

abbrev pub tests_list : List TestProgram
tests_list =
    simple_loop_test ∷ and_or_test ∷ inc_dec_test ∷ print_test ∷ function_call_test ∷ recursive_test
    ∷ casting_test ∷ []
