-- ===== src/Exec/Preserve.antt =====
-- The step and the run keep the machine valid.
use c_at.Machine.Defs.{
  wrote, write_line, regdump_line, empty_frame, unsupported, stack_size, LogLine, frame_count, Host,
  Machine,
}
use c_at.Exec.Control.{
  exec_nop, exec_entry, exec_halt, read_bytes, exec_print, ret_root, ret_frame, exec_reg_dump,
  exec_ret,
}
use c_at.Machine.State.{fetched, emit, log_line, get_d, inst_next, IsValid}
use c_at.Exec.ValidOps.{
  exec_erjmp-IsValid, exec_nerjmp-IsValid, exec_rjmp-IsValid, exec_nejmp-IsValid, exec_ejmp-IsValid,
  exec_jmp-IsValid, compare_f-IsValid, exec_cmpl-IsValid, exec_cmpg-IsValid, exec_cmpel-IsValid,
  exec_cmpeg-IsValid, exec_cmpe-IsValid, from_f, exec_ci2u-IsValid, exec_cu2i-IsValid,
  exec_or-IsValid, exec_and-IsValid, binary_f-IsValid, exec_mul-IsValid, exec_div-IsValid,
  exec_sub-IsValid, exec_add-IsValid, exec_dec-IsValid, exec_inc-IsValid, exec_getac-IsValid,
  exec_call-IsValid, exec_rec-IsValid, exec_pop-IsValid, exec_push-IsValid, exec_fset-IsValid,
  exec_set-IsValid, exec_fsave-IsValid, exec_dsave-IsValid, exec_fload-IsValid, exec_dload-IsValid,
  from_d, FitsWords,
}
use c_at.Inst.Defs.{
  nop, ret, jmp, or, and, mul, div, sub, add, dec, inc, rec, pop, set, fload, nerjmp, ci2f, fset,
  dsave, erjmp, cmpg, fcmpl, ejmp, cmpel, cmpl, cu2f, push, dload, fmul, nejmp, print, ci2u, fsave,
  cf2u, fcmpeg, fadd, fcmpe, cmpeg, fdiv, cf2i, halt, getac, cu2i, call, cmpe, fcmpel, rjmp, entry,
  reg_dump, fcmpg, fsub, operation_of, Inst, Instruction,
}
use c_at.Base.{
  not, get_elem?, ◌>>=◌, assertion, true, out_of_bounds, some, arith, ltb, ◌+◌, ◌==◌, ◌-◌, false,
  none, leb, List, ok, ◌≤◌, Holds-bind, Holds-guard, Option, if◌then◌else◌, ℕ, Holds, Bool,
}
use c_at.Exec.Step.{dispatch, execute_inst, execute_op}
use c_at.Exec.Valid.{
  set_f-IsValid, set_d-IsValid, update_rip-fits, with_pc-IsValid, with_frames-IsValid, emit-IsValid,
  with_accum-IsValid, with_running-IsValid, log_line-IsValid,
}
use c_at.Exec.Float.{
  exec_cu2f, exec_ci2f, exec_cf2u, exec_cf2i, exec_fcmpl, exec_fcmpg, exec_fcmpel, exec_fcmpeg,
  exec_fcmpe, exec_fdiv, exec_fmul, exec_fsub, exec_fadd,
}

module _ {m : Machine} (v : IsValid m) where
  ret_frame-IsValid : {k : ℕ} → k ≤ frame_count → Holds IsValid (ret_frame k m)
  unfolding ret_frame
  ret_frame-IsValid {k} h = Holds-guard IsValid (ltb k frame_count) out_of_bounds _ (λ _.
      with_frames-IsValid (with_pc-IsValid (log_line-IsValid v _) (omega arith)) _
        (update_rip-fits v k empty_frame (omega arith)) h)

  ret_root-IsValid : IsValid (ret_root m)
  unfolding ret_root
  ret_root-IsValid = log_line-IsValid (with_running-IsValid v false) _

ret_branch-IsValid :
    {m : Machine} (v : IsValid m) (b : Bool)
    → Holds IsValid (if b then ok (ret_root m) else ret_frame (m.frames - 1) m)
ret_branch-IsValid v true = ret_root-IsValid v
ret_branch-IsValid {m} v false = ret_frame-IsValid v (omega (arith, v.frames_fit))

exec_ret-IsValid : {m : Machine} (v : IsValid m) (i : Instruction) → Holds IsValid (exec_ret i m)
unfolding exec_ret
exec_ret-IsValid {m} v i =
    from_d v i i.reg0 _ λ a h. ret_branch-IsValid (with_accum-IsValid v h) (m.frames == 0)

exec_reg_dump-IsValid :
    {m : Machine} (v : IsValid m) (i : Instruction) → Holds IsValid (exec_reg_dump i m)
unfolding exec_reg_dump
exec_reg_dump-IsValid {m} v i = by_logger m.core_logger
  where
    by_logger :
        (o : Option (List LogLine))
        → Holds IsValid (elim o [
          | none ↦ ok m
          | some _ ↦ get_d m i.reg0 >>= λ a. ok (log_line (regdump_line i.reg0 a) m)
        ])
    by_logger none = v
    by_logger (some _) = from_d v i i.reg0 _ λ a _. log_line-IsValid v _

module _ (host : Host) {m : Machine} (v : IsValid m) (i : Instruction) where
  exec_print-IsValid : Holds IsValid (exec_print host i m)
  unfolding exec_print
  exec_print-IsValid =
      let bytes = read_bytes m.stack_memory (m.iregisters 1) (m.iregisters 2) in
      let logged = log_line (write_line (m.iregisters 0) (m.iregisters 1) (m.iregisters 2)) m in
      let printed = emit (wrote (m.iregisters 0) bytes) logged in
      Holds-guard IsValid (leb (m.iregisters 1 + m.iregisters 2) stack_size) out_of_bounds _ λ _.
        Holds-guard IsValid (not (host.write (m.iregisters 0) bytes == 0)) assertion (ok printed)
          λ _. emit-IsValid (log_line-IsValid v _) _

  module _ (fits : FitsWords host) where
    -- Whatever the instruction, a machine that is valid before it is valid after it.
    pub execute_inst-IsValid : (op : Inst) → Holds IsValid (execute_inst host op i m)
    unfolding execute_inst exec_fadd exec_fsub exec_fmul exec_fdiv exec_fcmpe exec_fcmpeg
        exec_fcmpel exec_fcmpg exec_fcmpl exec_cf2i exec_cf2u exec_ci2f exec_cu2f exec_halt
        exec_entry exec_nop
    execute_inst-IsValid halt = with_running-IsValid v false
    execute_inst-IsValid entry = tt
    execute_inst-IsValid dload = exec_dload-IsValid v i
    execute_inst-IsValid fload = exec_fload-IsValid v i
    execute_inst-IsValid dsave = exec_dsave-IsValid v i
    execute_inst-IsValid fsave = exec_fsave-IsValid v i
    execute_inst-IsValid set = exec_set-IsValid v i
    execute_inst-IsValid fset = exec_fset-IsValid v i
    execute_inst-IsValid push = exec_push-IsValid v i
    execute_inst-IsValid pop = exec_pop-IsValid v i
    execute_inst-IsValid rec = exec_rec-IsValid v i
    execute_inst-IsValid call = exec_call-IsValid v i
    execute_inst-IsValid getac = exec_getac-IsValid v i
    execute_inst-IsValid inc = exec_inc-IsValid v i
    execute_inst-IsValid dec = exec_dec-IsValid v i
    execute_inst-IsValid add = exec_add-IsValid v i
    execute_inst-IsValid sub = exec_sub-IsValid v i
    execute_inst-IsValid div = exec_div-IsValid v i
    execute_inst-IsValid mul = exec_mul-IsValid v i
    execute_inst-IsValid fadd = binary_f-IsValid v i _ fits.add_fits
    execute_inst-IsValid fsub = binary_f-IsValid v i _ fits.sub_fits
    execute_inst-IsValid fdiv = binary_f-IsValid v i _ fits.div_fits
    execute_inst-IsValid fmul = binary_f-IsValid v i _ fits.mul_fits
    execute_inst-IsValid and = exec_and-IsValid v i
    execute_inst-IsValid or = exec_or-IsValid v i
    execute_inst-IsValid cu2i = exec_cu2i-IsValid v i
    execute_inst-IsValid ci2u = exec_ci2u-IsValid v i
    execute_inst-IsValid cf2i =
        from_f v i i.reg1 _ λ a _. set_d-IsValid v i.reg0 _ (fits.to_int_fits a)
    execute_inst-IsValid ci2f =
        from_d v i i.reg1 _ λ a _. set_f-IsValid v i.reg0 _ (fits.of_uint_fits a)
    execute_inst-IsValid cu2f =
        from_d v i i.reg1 _ λ a _. set_f-IsValid v i.reg0 _ (fits.of_uint_fits a)
    execute_inst-IsValid cf2u =
        from_f v i i.reg1 _ λ a _. set_d-IsValid v i.reg0 _ (fits.to_uint_fits a)
    execute_inst-IsValid cmpe = exec_cmpe-IsValid v i
    execute_inst-IsValid cmpeg = exec_cmpeg-IsValid v i
    execute_inst-IsValid cmpel = exec_cmpel-IsValid v i
    execute_inst-IsValid cmpg = exec_cmpg-IsValid v i
    execute_inst-IsValid cmpl = exec_cmpl-IsValid v i
    execute_inst-IsValid fcmpe = compare_f-IsValid v i _
    execute_inst-IsValid fcmpeg = compare_f-IsValid v i _
    execute_inst-IsValid fcmpel = compare_f-IsValid v i _
    execute_inst-IsValid fcmpg = compare_f-IsValid v i _
    execute_inst-IsValid fcmpl = compare_f-IsValid v i _
    execute_inst-IsValid jmp = exec_jmp-IsValid v i
    execute_inst-IsValid ejmp = exec_ejmp-IsValid v i
    execute_inst-IsValid nejmp = exec_nejmp-IsValid v i
    execute_inst-IsValid rjmp = exec_rjmp-IsValid v i
    execute_inst-IsValid erjmp = exec_erjmp-IsValid v i
    execute_inst-IsValid nerjmp = exec_nerjmp-IsValid v i
    execute_inst-IsValid print = exec_print-IsValid
    execute_inst-IsValid reg_dump = exec_reg_dump-IsValid v i
    execute_inst-IsValid ret = exec_ret-IsValid v i
    execute_inst-IsValid nop = v

    dispatch-IsValid : (o : Option Inst) → Holds IsValid (dispatch host o i m)
    unfolding dispatch
    dispatch-IsValid none = emit-IsValid v unsupported
    dispatch-IsValid (some op) = execute_inst-IsValid op

abbrev NextIsValid : Instruction × Machine → Type 0
NextIsValid (i, m) = IsValid m

fetched-IsValid :
    (m : Machine) (o : Option Instruction) → IsValid m → Holds NextIsValid (fetched m o)
unfolding fetched
fetched-IsValid m none v = tt
fetched-IsValid m (some i) v = with_pc-IsValid v (omega arith)

module _ (host : Host) (fits : FitsWords host) where
  inst_next-IsValid : (m : Machine) → IsValid m → Holds NextIsValid (inst_next m)
  unfolding inst_next
  inst_next-IsValid m v = fetched-IsValid m (get_elem? m.program m.pc) v

  -- One round, for every instruction and for an unknown operation, keeps a valid machine valid or
  -- is a fault, under a host whose float results fit 32 bits.
  pub execute_op-IsValid : (m : Machine) → IsValid m → Holds IsValid (execute_op host m)
  unfolding execute_op
  execute_op-IsValid m v =
      Holds-bind NextIsValid IsValid (inst_next m) _ (inst_next-IsValid m v)
        λ (i, m') v'. dispatch-IsValid host v' i fits (operation_of i)
