-- ===== src/Examples/Runs.antt =====
-- Examples of whole rounds and runs, and of the native tests.
use c_at.Base.{
  inr, out_of_bounds, ap, ◌<◌, zero, fault, suc, update, length, List, ok, false, [], some, ◌∷◌,
  get_elem?, ◌≡◌, ℕ, refl, arith,
}
use c_at.Exec.Nested.{execute_op_resumes, open_frames, here, next}
use c_at.Exec.Loop.{Ends}
use c_at.Testing.Results.{passed, inc_dec_depends_on_order}
use c_at.Exec.Step.{stuck, goes_on, execute_inst, execute_program, done, execute_op}
use c_at.Examples.Data.{
  regs_inst, const_inst, test_host-FitsWords, test_machine-IsValid, test_host, test_globals,
  test_machine,
}
use c_at.Exec.Straight.{sets_pc}
use c_at.Machine.State.{IsValid}
use c_at.Exec.Integer.{exec_inc}
use c_at.Inst.Defs.{operation_of, Instruction}
use c_at.Testing.Runner.{inc_dec_test, and_or_test, simple_loop_test, run_native_tests}
use c_at.Exec.Control.{exec_ret, exec_call, ret_frame}
use c_at.Machine.Defs.{init_machine, Machine}
use c_at.Machine.Frames.{call_frame}
use c_at.Exec.Forward.{forward_jumps-Ends}
use c_at.Exec.StackCode.{plus, binary_op, IsStack, push_op, pop_op, stack_code, set_op, StackOp}
use c_at.Exec.StackCode.Refinement.{execute_program-run_ops}
use c_at.Mains.Vm.{exited, exit_of}
use c_at.Testing.Depth.{exit_of-recursion, recursion_overflows}
use c_at.Testing.Recursion.{recursion}

inc_dec_depends_on_order_example :
    (run_native_tests test_host 100 test_globals (and_or_test ∷ inc_dec_test ∷ [])
      ≡ some (passed 0 ∷ passed 2 ∷ []))
    × (run_native_tests test_host 100 test_globals (simple_loop_test ∷ inc_dec_test ∷ [])
        ≡ some (passed 10 ∷ record { sucess = false; return_code = 12 } ∷ []))
inc_dec_depends_on_order_example = inc_dec_depends_on_order test_host test_globals

-- A procedure at 2 that calls another one at 4, which counts up `r1`.
abbrev nested_program : List Instruction
nested_program =
    const_inst 11 2
    ∷ const_inst 0 0
    ∷ const_inst 11 4
    ∷ regs_inst 49 1 0 0
    ∷ regs_inst 13 1 0 0
    ∷ regs_inst 49 1 0 0
    ∷ []

-- The test machine at the first instruction of a program.
abbrev at_start : List Instruction → Machine
at_start program = record test_machine { pc = 0; program_size = length program; program = program }

at_start-IsValid : (program : List Instruction) → length program < 10 → IsValid (at_start program)
at_start-IsValid program short = record {
  pc_fits = omega arith;
  size_fits = omega arith;
  program_there = omega arith;
  d_fits = test_machine-IsValid.d_fits;
  f_fits = test_machine-IsValid.f_fits;
  accum_fits = omega arith;
  frames_fit = omega arith;
  top_fits = omega arith;
  rip_fits = test_machine-IsValid.rip_fits;
  bytes_fit = test_machine-IsValid.bytes_fit;
}

-- The machine after a number of rounds.
abbrev after_rounds : ℕ → Machine → Machine
after_rounds zero m = m
after_rounds (suc n) m = elim (execute_op test_host m) [ ok m' ↦ after_rounds n m' | fault e ↦ m ]

abbrev nested_start : Machine
nested_start = at_start nested_program

execute_op_resumes_example :
    ((after_rounds 5 nested_start).pc ≡ 1)
    × (open_frames (after_rounds 5 nested_start) ≡ open_frames nested_start)
unfolding execute_op execute_inst exec_call call_frame exec_inc exec_ret ret_frame goes_on
execute_op_resumes_example =
    execute_op_resumes test_host test_host-FitsWords nested_start (after_rounds 1 nested_start)
      (after_rounds 4 nested_start) (after_rounds 5 nested_start)
      (at_start-IsValid nested_program (omega arith)) refl refl refl
      (next (omega arith) refl refl
        (next (omega arith) refl refl (next (omega arith) refl refl (here (omega arith)))))
      refl refl refl refl

-- `ejmp` behind the counting, over a jump to the end.
abbrev forward_program : List Instruction
forward_program =
    regs_inst 13 1 0 0
    ∷ const_inst 42 4
    ∷ regs_inst 13 1 0 0
    ∷ const_inst 41 6
    ∷ regs_inst 14 1 0 0
    ∷ const_inst 0 0
    ∷ []

forward_jumps-Ends_example : Ends (execute_program test_host 6 (at_start forward_program))
unfolding operation_of sets_pc
forward_jumps-Ends_example =
    forward_jumps-Ends test_host test_host-FitsWords 6 (at_start forward_program)
      (at_start-IsValid forward_program (omega arith))
      (refl, (omega arith, (refl, (omega arith, (refl, (refl, tt)))))) (omega arith)

-- Two constants change places through the stack, and are added.
abbrev swap_ops : List StackOp
swap_ops =
    set_op 1 20
    ∷ push_op 1
    ∷ set_op 2 30
    ∷ push_op 2
    ∷ pop_op 1
    ∷ pop_op 2
    ∷ binary_op plus 3 1 2
    ∷ []

abbrev swap_start : Machine
swap_start = at_start (stack_code swap_ops)

execute_program-run_ops_example :
    (m' : Machine) × (execute_program test_host 7 swap_start ≡ done m')
    × (m'.iregisters
        ≡ update
            (update (update (update (update test_machine.iregisters 1 20) 2 30) 1 30) 2 20)
            3
            50)
    × IsStack 8 m'.stack_memory m'.stack_top []
execute_program-run_ops_example =
    execute_program-run_ops test_host test_host-FitsWords 8 swap_ops swap_start [] _
      (at_start-IsValid (stack_code swap_ops) (omega arith)) refl
      (λ j below. ap (get_elem? (stack_code swap_ops)) (omega arith), refl)
      (
        (omega arith, omega arith),
        (
          omega arith,
          (
            (omega arith, omega arith),
            (
              omega arith,
              (omega arith, (omega arith, ((omega arith, omega arith, omega arith), tt))),
            ),
          ),
        ),
      )
      (omega arith) refl refl

exit_of-recursion_example :
    exit_of (execute_program test_host 1002 (init_machine test_globals (recursion 100) 16))
    ≡ exited 100
exit_of-recursion_example = exit_of-recursion test_host test_globals 100 (omega arith) (omega arith)

recursion_overflows_example :
    execute_program test_host 1154 (init_machine test_globals (recursion 129) 16)
    ≡ stuck out_of_bounds
recursion_overflows_example =
    recursion_overflows test_host test_globals 129 (inr (omega arith)) (omega arith)

-- The machine at the start of the nested calls, with no frame open.
abbrev root_start : Machine
root_start = record (at_start nested_program) { frames = 0 }
