-- ===== src/Exec/Step.antt =====
-- One step of the machine and the loop over it: `execute_op` and `execute_program` of src/vm/set.c.
use c_at.Base.{
  ℕ, ltb, ◌&&◌, Bool, true, false, if◌then◌else◌, Result, ok, fault, ◌>>=◌, Fault, zero, suc,
  Option, none, some,
}
use c_at.Inst.Defs.{
  Instruction, Inst, operation_of, halt, entry, dload, fload, dsave, fsave, set, fset, push, pop,
  rec, call, getac, inc, dec, add, sub, div, mul, fadd, fsub, fdiv, fmul, and, or, cu2i, ci2u, cf2i,
  ci2f, cu2f, cf2u, cmpe, cmpeg, cmpel, cmpg, cmpl, fcmpe, fcmpeg, fcmpel, fcmpg, fcmpl, jmp, ejmp,
  nejmp, rjmp, erjmp, nerjmp, print, reg_dump, ret, nop,
}
use c_at.Machine.Defs.{Machine, Host, unsupported}
use c_at.Machine.State.{inst_next, emit}
use c_at.Exec.Integer.{
  exec_inc, exec_dec, exec_add, exec_sub, exec_div, exec_mul, exec_and, exec_or, exec_cmpe,
  exec_cmpeg, exec_cmpel, exec_cmpg, exec_cmpl,
}
use c_at.Exec.Float.{
  exec_fadd, exec_fsub, exec_fdiv, exec_fmul, exec_cu2i, exec_ci2u, exec_cf2i, exec_ci2f, exec_cu2f,
  exec_cf2u, exec_fcmpe, exec_fcmpeg, exec_fcmpel, exec_fcmpg, exec_fcmpl,
}
use c_at.Exec.Memory.{
  exec_dload, exec_fload, exec_dsave, exec_fsave, exec_set, exec_fset, exec_push, exec_pop,
}
use c_at.Exec.Control.{
  exec_halt, exec_entry, exec_rec, exec_call, exec_getac, exec_jmp, exec_ejmp, exec_nejmp,
  exec_rjmp, exec_erjmp, exec_nerjmp, exec_print, exec_reg_dump, exec_ret, exec_nop,
}

-- The `switch` on an enumerator.
unfoldable pub execute_inst : Host → Inst → Instruction → Machine → Result Machine
execute_inst host halt i m = exec_halt i m
execute_inst host entry i m = exec_entry i m
execute_inst host dload i m = exec_dload i m
execute_inst host fload i m = exec_fload i m
execute_inst host dsave i m = exec_dsave i m
execute_inst host fsave i m = exec_fsave i m
execute_inst host set i m = exec_set i m
execute_inst host fset i m = exec_fset i m
execute_inst host push i m = exec_push i m
execute_inst host pop i m = exec_pop i m
execute_inst host rec i m = exec_rec i m
execute_inst host call i m = exec_call i m
execute_inst host getac i m = exec_getac i m
execute_inst host inc i m = exec_inc i m
execute_inst host dec i m = exec_dec i m
execute_inst host add i m = exec_add i m
execute_inst host sub i m = exec_sub i m
execute_inst host div i m = exec_div i m
execute_inst host mul i m = exec_mul i m
execute_inst host fadd i m = exec_fadd host i m
execute_inst host fsub i m = exec_fsub host i m
execute_inst host fdiv i m = exec_fdiv host i m
execute_inst host fmul i m = exec_fmul host i m
execute_inst host and i m = exec_and i m
execute_inst host or i m = exec_or i m
execute_inst host cu2i i m = exec_cu2i i m
execute_inst host ci2u i m = exec_ci2u i m
execute_inst host cf2i i m = exec_cf2i host i m
execute_inst host ci2f i m = exec_ci2f host i m
execute_inst host cu2f i m = exec_cu2f host i m
execute_inst host cf2u i m = exec_cf2u host i m
execute_inst host cmpe i m = exec_cmpe i m
execute_inst host cmpeg i m = exec_cmpeg i m
execute_inst host cmpel i m = exec_cmpel i m
execute_inst host cmpg i m = exec_cmpg i m
execute_inst host cmpl i m = exec_cmpl i m
execute_inst host fcmpe i m = exec_fcmpe host i m
execute_inst host fcmpeg i m = exec_fcmpeg host i m
execute_inst host fcmpel i m = exec_fcmpel host i m
execute_inst host fcmpg i m = exec_fcmpg host i m
execute_inst host fcmpl i m = exec_fcmpl host i m
execute_inst host jmp i m = exec_jmp i m
execute_inst host ejmp i m = exec_ejmp i m
execute_inst host nejmp i m = exec_nejmp i m
execute_inst host rjmp i m = exec_rjmp i m
execute_inst host erjmp i m = exec_erjmp i m
execute_inst host nerjmp i m = exec_nerjmp i m
execute_inst host print i m = exec_print host i m
execute_inst host reg_dump i m = exec_reg_dump i m
execute_inst host ret i m = exec_ret i m
execute_inst host nop i m = exec_nop i m

-- The `switch` with its `default`, where a message goes to stderr and the machine goes on.
unfoldable pub dispatch : Host → Option Inst → Instruction → Machine → Result Machine
dispatch host none i m = ok (emit unsupported m)
dispatch host (some op) i m = execute_inst host op i m

unfoldable pub execute_op : Host → Machine → Result Machine
unfolding inst_next operation_of dispatch
execute_op host m = do (i, m') ← inst_next m; dispatch host (operation_of i) i m'

-- The test of the `while` loop.
unfoldable pub goes_on : Machine → Bool
goes_on m = ltb m.pc m.program_size && m.is_running

-- How a run ends: `done` with the last machine, or `stuck` where a step faults. `running` says that
-- the fuel was used up, with the machine so far: a program need not stop.
pub data Run : Type 0 where
  done : Machine → Run
  stuck : Fault → Run
  running : Machine → Run

-- `while (m->pc < m->program_size && m->is_running) execute_op(m);` for at most `fuel` rounds.
unfoldable pub execute_program : Host → ℕ → Machine → Run
unfolding goes_on
execute_program host zero m = if goes_on m then running m else done m
execute_program host (suc fuel) m = elim (goes_on m) [
  | false ↦ done m
  | true ↦ elim (execute_op host m) [ ok m' ↦ execute_program host fuel m' | fault e ↦ stuck e ]
]
