-- ===== src/Testing/Results.antt =====
-- What the native tests return, whatever the registers and the stack hold when they start.
use c_at.Base.{arith, false, [], ◌∷◌, ◌<◌, refl, none, ◌≡◌, true, some, Option, ℕ}
use c_at.Testing.Runner.{
  recursive_test, and_or_test, inc_dec_test, function_call_test, run_native_tests, print_test,
  casting_test, simple_loop_test, TestProgram, TestResult, run_set_program,
}
use c_at.Machine.Frames.{record_frame, call_frame}
use c_at.Inst.Macros.{
  make_fadd, make_dec, make_fset, make_ret, make_nejmp, make_print, make_and, make_or, make_rec,
  make_reg_dump, make_pop, make_inc, make_cf2i, make_add, make_set, make_dsave, make_push,
  make_call,
}
use c_at.Exec.Step.{execute_inst, execute_program, execute_op}
use c_at.Exec.Memory.{
  exec_fset, exec_dsave, exec_fload, exec_set, exec_pop, exec_fsave, exec_push, exec_dload,
}
use c_at.Exec.Integer.{
  exec_div, exec_cmpe, exec_dec, exec_cmpeg, exec_cmpg, exec_and, exec_cmpel, exec_sub, exec_or,
  exec_inc, exec_add, exec_mul, exec_cmpl,
}
use c_at.Machine.Memory.{
  save_decimal, push_decimal, put_word, load_decimal, load_float, pop_decimal, get_word, save_float,
}
use c_at.Exec.Float.{
  exec_cu2i, exec_cf2i, exec_fcmpe, exec_fdiv, exec_fsub, exec_cf2u, exec_cu2f, exec_fadd,
  exec_fmul, exec_fcmpl, exec_fcmpel, exec_fcmpg, exec_ci2u, exec_fcmpeg, exec_ci2f,
}
use c_at.Exec.Control.{
  exec_ejmp, exec_nejmp, exec_erjmp, exec_call, exec_halt, exec_getac, exec_print, exec_jmp,
  exec_nerjmp, exec_ret, exec_rjmp, exec_rec, exec_reg_dump, exec_entry, exec_nop,
}
use c_at.Machine.Defs.{Host, Globals}

-- All that a run of a test program computes with.
unfoldable run_test : Host → Globals → TestProgram → Option (TestResult × Globals)
unfolding run_set_program execute_program execute_op execute_inst exec_halt exec_entry exec_dload
    exec_fload exec_dsave exec_fsave exec_set exec_fset exec_push exec_pop exec_rec exec_call
    exec_getac exec_inc exec_dec exec_add exec_sub exec_div exec_mul exec_fadd exec_fsub exec_fdiv
    exec_fmul exec_and exec_or exec_cu2i exec_ci2u exec_cf2i exec_ci2f exec_cu2f exec_cf2u exec_cmpe
    exec_cmpeg exec_cmpel exec_cmpg exec_cmpl exec_fcmpe exec_fcmpeg exec_fcmpel exec_fcmpg
    exec_fcmpl exec_jmp exec_ejmp exec_nejmp exec_rjmp exec_erjmp exec_nerjmp exec_print
    exec_reg_dump exec_ret exec_nop push_decimal pop_decimal put_word get_word load_decimal
    save_decimal load_float save_float record_frame call_frame make_set make_reg_dump make_add
    make_nejmp make_ret make_or make_and make_inc make_dec make_dsave make_print make_rec make_push
    make_call make_pop make_fset make_fadd make_cf2i
run_test host g item = run_set_program host 100 g item

-- The result of a test, without the globals.
abbrev pub result_of : Option (TestResult × Globals) → Option TestResult
result_of none = none
result_of (some (r, g)) = some r

abbrev pub passed : ℕ → TestResult
passed n = record { sucess = true; return_code = n }

module _ (host : Host) (g : Globals) where
  -- From any registers, any stack and under any host, four of the native tests end within 100
  -- rounds with the return code that the list of tests wants.
  pub control_tests_pass :
      (result_of (run_set_program host 100 g simple_loop_test) ≡ some (passed 10))
      × (result_of (run_set_program host 100 g and_or_test) ≡ some (passed 0))
      × (result_of (run_set_program host 100 g function_call_test) ≡ some (passed 66))
      × (result_of (run_set_program host 100 g recursive_test) ≡ some (passed 5))
  unfolding run_test
  control_tests_pass = (refl, refl, refl, refl)

  -- From any registers, any stack and under any host, the test `inc_dec` passes directly after
  -- `and_or`, and directly after `simple_loop` it returns 12 and fails.
  pub inc_dec_depends_on_order :
      (run_native_tests host 100 g (and_or_test ∷ inc_dec_test ∷ [])
        ≡ some (passed 0 ∷ passed 2 ∷ []))
      × (run_native_tests host 100 g (simple_loop_test ∷ inc_dec_test ∷ [])
          ≡ some (passed 10 ∷ record { sucess = false; return_code = 12 } ∷ []))
  unfolding run_test run_native_tests
  inc_dec_depends_on_order = (refl, refl)

  -- From any registers and any stack the print test and the float test pass, under a host whose
  -- `write` takes the four bytes and which gives 10.5 + 10.5 some float that it casts to 21.
  pub host_tests_pass :
      (sum : ℕ)
      → 0 < host.write 1 (0x6C ∷ 0x6F ∷ 0x6C ∷ 0x0A ∷ [])
      → host.float_add 0x41280000 0x41280000 ≡ sum
      → host.int_of_float sum ≡ 21
      → (result_of (run_set_program host 100 g print_test) ≡ some (passed 0))
        × (result_of (run_set_program host 100 g casting_test) ≡ some (passed 21))
  unfolding run_test
  host_tests_pass sum written added cast = (ground arith, rw (added, cast))
