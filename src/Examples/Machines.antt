-- ===== src/Examples/Machines.antt =====
-- Examples of single instructions.
use c_at.Base.{update, ok, ◌>>=◌, ◌≡◌, ℕ, Yields, refl, arith}
use c_at.Exec.Control.{exec_nejmp, exec_ejmp, exec_rec, exec_call}
use c_at.Examples.Data.{const_inst, regs_inst, test_machine, test_machine-IsValid}
use c_at.Exec.Laws.Stack.{exec_pop-exec_push, exec_fload_ignores_registers, exec_dload-exec_dsave}
use c_at.Exec.Laws.Calls.{exec_call-exec_rec}
use c_at.Exec.Memory.{exec_pop, exec_push, exec_fload, exec_dsave, exec_dload}
use c_at.Machine.Memory.{get_word}
use c_at.Inst.Macros.{make_nejmp, make_ejmp}
use c_at.Exec.Laws.Jumps.{exec_ejmp-make_ejmp}

exec_call-exec_rec_example :
    (exec_rec (const_inst 10 0) test_machine >>= exec_call (const_inst 11 2))
    ≡ exec_call (const_inst 11 2) test_machine
exec_call-exec_rec_example =
    exec_call-exec_rec (const_inst 10 0) (const_inst 11 2) test_machine (omega arith)

exec_dload-exec_dsave_example :
    Yields
      (λ m'. m'.iregisters 6 ≡ 3)
      (exec_dsave (regs_inst 4 3 12 0) test_machine >>= exec_dload (regs_inst 2 6 12 0))
exec_dload-exec_dsave_example =
    exec_dload-exec_dsave (regs_inst 4 3 12 0) (regs_inst 2 6 12 0) test_machine
      test_machine-IsValid (omega arith) (omega arith) (omega arith) refl (omega arith)

exec_fload_ignores_registers_example :
    (w : ℕ) × (exec_fload (regs_inst 3 1 2 0) test_machine
      ≡ ok (record test_machine { fregisters = update test_machine.fregisters 1 w }))
    × (exec_fload (regs_inst 3 1 2 0) (record test_machine { iregisters = λ _. 9 })
        ≡ ok (record test_machine {
          iregisters = λ _. 9;
          fregisters = update test_machine.fregisters 1 w;
        }))
    × (w ≡ get_word test_machine.stack_memory 2)
exec_fload_ignores_registers_example =
    exec_fload_ignores_registers (regs_inst 3 1 2 0) test_machine
      (record test_machine { iregisters = λ _. 9 }) (omega arith) (omega arith) (λ _. refl)

exec_ejmp-make_ejmp_example :
    (exec_ejmp (make_ejmp 2 3 4) test_machine ≡ ok test_machine)
    × (exec_nejmp (make_nejmp 2 3 4) test_machine ≡ ok (record test_machine { pc = 2 }))
exec_ejmp-make_ejmp_example = exec_ejmp-make_ejmp 2 3 4 test_machine (omega arith) (omega arith)

exec_pop-exec_push_example :
    Yields
      (λ m'. (m'.iregisters 4 ≡ 3) × (m'.stack_top ≡ 8) × (m'.iregisters 5 ≡ 5))
      (exec_push (regs_inst 8 3 0 0) test_machine >>= exec_pop (regs_inst 9 4 0 0))
exec_pop-exec_push_example =
    exec_pop-exec_push (regs_inst 8 3 0 0) (regs_inst 9 4 0 0) test_machine 5 test_machine-IsValid
      (omega arith) (omega arith) (omega arith) (omega arith)
