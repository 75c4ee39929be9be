-- ===== src/Exec/Opens.antt =====
-- Which instruction opens a frame.
use c_at.Base.{inr, inl, ◌⊎◌, ◌≤◌, refl, ◌+◌, arith, Holds, ◌≡◌, ℕ}
use c_at.Machine.Defs.{Host, Machine}
use c_at.Exec.Integer.{
  exec_mul, exec_add, exec_cmpg, exec_cmpeg, exec_and, exec_cmpe, exec_div, exec_cmpel, exec_cmpl,
  exec_or, exec_inc, exec_dec, exec_sub,
}
use c_at.Exec.Control.{
  exec_erjmp, exec_getac, exec_ret, exec_print, exec_nerjmp, exec_rjmp, exec_nejmp, exec_halt,
  exec_jmp, exec_entry, exec_nop, exec_call, exec_reg_dump, exec_rec, exec_ejmp,
}
use c_at.Inst.Defs.{
  nop, or, and, mul, div, sub, add, dec, inc, rec, pop, ret, set, jmp, cmpeg, fload, cu2f, fcmpel,
  ci2u, fcmpeg, fmul, Instruction, erjmp, halt, fcmpe, nerjmp, cmpl, fadd, cmpel, fcmpg, fset, ejmp,
  ci2f, push, dload, dsave, cmpe, nejmp, fdiv, cf2i, rjmp, fsub, entry, fcmpl, Inst, fsave, cf2u,
  print, reg_dump, getac, cu2i, cmpg, call,
}
use c_at.Machine.Frames.{record_frame, call_frame}
use c_at.Exec.Memory.{
  exec_fsave, exec_push, exec_pop, exec_dsave, exec_fset, exec_dload, exec_set, exec_fload,
}
use c_at.Machine.Memory.{
  save_float, load_float, pop_decimal, push_decimal, save_decimal, load_decimal,
}
use c_at.Exec.Float.{
  exec_fadd, exec_cf2u, exec_cu2f, exec_ci2u, exec_fsub, exec_fcmpe, exec_cu2i, exec_fdiv,
  exec_ci2f, exec_fcmpel, exec_fmul, exec_fcmpl, exec_fcmpg, exec_cf2i, exec_fcmpeg,
}
use c_at.Exec.Step.{execute_inst}

-- `call` opens a frame, and no other instruction does.
abbrev pub Opens : Inst → ℕ → ℕ → Type 0
Opens call n n' = n' ≡ n + 1
Opens _ n n' = n' ≤ n

pub execute_inst-Opens :
    (host : Host) (i : Instruction) (m : Machine) (op : Inst)
    → Holds (λ m'. Opens op m.frames m'.frames) (execute_inst host op i m)
unfolding execute_inst exec_halt exec_entry exec_dload exec_fload exec_dsave exec_fsave exec_set
    exec_fset exec_push exec_pop exec_rec exec_call exec_getac exec_inc exec_dec exec_add exec_sub
    exec_div exec_mul exec_fadd exec_fsub exec_fdiv exec_fmul exec_and exec_or exec_cu2i exec_ci2u
    exec_cf2i exec_ci2f exec_cu2f exec_cf2u exec_cmpe exec_cmpeg exec_cmpel exec_cmpg exec_cmpl
    exec_fcmpe exec_fcmpeg exec_fcmpel exec_fcmpg exec_fcmpl exec_jmp exec_ejmp exec_nejmp exec_rjmp
    exec_erjmp exec_nerjmp exec_print exec_reg_dump exec_ret exec_nop push_decimal pop_decimal
    load_decimal save_decimal load_float save_float record_frame call_frame
execute_inst-Opens host i m halt = ground arith
execute_inst-Opens host i m entry = ground arith
execute_inst-Opens host i m dload = ground arith
execute_inst-Opens host i m fload = ground arith
execute_inst-Opens host i m dsave = ground arith
execute_inst-Opens host i m fsave = ground arith
execute_inst-Opens host i m set = ground arith
execute_inst-Opens host i m fset = ground arith
execute_inst-Opens host i m push = ground arith
execute_inst-Opens host i m pop = ground arith
execute_inst-Opens host i m rec = ground arith
execute_inst-Opens host i m call = ground arith
execute_inst-Opens host i m getac = ground arith
execute_inst-Opens host i m inc = ground arith
execute_inst-Opens host i m dec = ground arith
execute_inst-Opens host i m add = ground arith
execute_inst-Opens host i m sub = ground arith
execute_inst-Opens host i m div = ground arith
execute_inst-Opens host i m mul = ground arith
execute_inst-Opens host i m fadd = ground arith
execute_inst-Opens host i m fsub = ground arith
execute_inst-Opens host i m fdiv = ground arith
execute_inst-Opens host i m fmul = ground arith
execute_inst-Opens host i m and = ground arith
execute_inst-Opens host i m or = ground arith
execute_inst-Opens host i m cu2i = ground arith
execute_inst-Opens host i m ci2u = ground arith
execute_inst-Opens host i m cf2i = ground arith
execute_inst-Opens host i m ci2f = ground arith
execute_inst-Opens host i m cu2f = ground arith
execute_inst-Opens host i m cf2u = ground arith
execute_inst-Opens host i m cmpe = ground arith
execute_inst-Opens host i m cmpeg = ground arith
execute_inst-Opens host i m cmpel = ground arith
execute_inst-Opens host i m cmpg = ground arith
execute_inst-Opens host i m cmpl = ground arith
execute_inst-Opens host i m fcmpe = ground arith
execute_inst-Opens host i m fcmpeg = ground arith
execute_inst-Opens host i m fcmpel = ground arith
execute_inst-Opens host i m fcmpg = ground arith
execute_inst-Opens host i m fcmpl = ground arith
execute_inst-Opens host i m jmp = ground arith
execute_inst-Opens host i m ejmp = ground arith
execute_inst-Opens host i m nejmp = ground arith
execute_inst-Opens host i m rjmp = ground arith
execute_inst-Opens host i m erjmp = ground arith
execute_inst-Opens host i m nerjmp = ground arith
execute_inst-Opens host i m print = ground arith
execute_inst-Opens host i m reg_dump = ground arith
execute_inst-Opens host i m ret = ground arith
execute_inst-Opens host i m nop = ground arith

pub Opens-cases : (op : Inst) (n n' : ℕ) → Opens op n n' → (n' ≤ n) ⊎ ((op ≡ call) × (n' ≡ n + 1))
Opens-cases halt n n' h = inl h
Opens-cases call n n' h = inr (refl, h)
Opens-cases _ n n' h = inl h
