-- ===== src/Assembler/Emit.antt =====
-- `get_instuction_count`, `is_float_instr` and `assemble`.
pub mod Operations
use c_at.Base.{ℕ, Bool, true, false, [], ◌∷◌}
use c_at.Inst.Defs.{
  Inst, Instruction, halt, entry, dload, fload, dsave, fsave, set, fset, push, pop, rec, call,
  getac, inc, dec, add, sub, div, mul, fadd, fsub, fdiv, fmul, and, or, cu2i, ci2u, cf2i, ci2f,
  cu2f, cf2u, cmpe, cmpeg, cmpel, cmpg, cmpl, fcmpe, fcmpeg, fcmpel, fcmpg, fcmpl, jmp, ejmp, nejmp,
  rjmp, erjmp, nerjmp, print, reg_dump, ret, nop,
}
use c_at.Inst.Macros.{
  make_fcmpe, make_rec, make_reg_dump, make_getac, make_cmpeg, make_push, make_jmp, make_cmpe,
  make_rjmp, make_fcmpel, make_div, make_pop, make_fdiv, make_set, make_dsave, make_ci2f,
  make_dload, make_fset, make_fmul, make_ret, make_ci2u, make_fcmpeg, make_cmpg, make_cu2i,
  make_ejmp, make_and, make_fload, make_mul, make_cf2i, make_call, make_fcmpg, make_cmpel,
  make_fsub, make_sub, make_dec, make_fcmpl, make_cu2f, make_cmpl, make_or, make_erjmp, make_print,
  make_add, make_cf2u, make_inc, make_fsave, make_nejmp, make_fadd, make_nerjmp, make_halt,
}

-- How many operands the line of an instruction has.
unfoldable pub get_instuction_count : Inst → ℕ
get_instuction_count set = 2
get_instuction_count fset = 2
get_instuction_count push = 1
get_instuction_count pop = 1
get_instuction_count call = 1
get_instuction_count getac = 1
get_instuction_count inc = 1
get_instuction_count dec = 1
get_instuction_count add = 3
get_instuction_count sub = 3
get_instuction_count div = 3
get_instuction_count mul = 3
get_instuction_count fadd = 3
get_instuction_count fsub = 3
get_instuction_count fdiv = 3
get_instuction_count fmul = 3
get_instuction_count and = 3
get_instuction_count or = 3
get_instuction_count cu2i = 2
get_instuction_count ci2u = 2
get_instuction_count cf2i = 2
get_instuction_count ci2f = 2
get_instuction_count cu2f = 2
get_instuction_count cf2u = 2
get_instuction_count cmpe = 3
get_instuction_count cmpeg = 3
get_instuction_count cmpel = 3
get_instuction_count cmpg = 3
get_instuction_count cmpl = 3
get_instuction_count fcmpe = 3
get_instuction_count fcmpeg = 3
get_instuction_count fcmpel = 3
get_instuction_count fcmpg = 3
get_instuction_count fcmpl = 3
get_instuction_count jmp = 1
get_instuction_count ejmp = 3
get_instuction_count nejmp = 3
get_instuction_count erjmp = 3
get_instuction_count nerjmp = 3
get_instuction_count reg_dump = 1
get_instuction_count ret = 1
get_instuction_count _ = 0

unfoldable pub is_float_instr : Inst → Bool
is_float_instr fadd = true
is_float_instr fsub = true
is_float_instr fmul = true
is_float_instr fdiv = true
is_float_instr fset = true
is_float_instr fload = true
is_float_instr fsave = true
is_float_instr _ = false

-- `assemble`, without the argument `arg3`, which no case reads. `I_NOP` leaves the `switch` and
-- falls through to the `HALT` at the end.
unfoldable pub assemble : Inst → ℕ → ℕ → ℕ → ℕ → ℕ → Instruction
assemble halt arg0 arg1 arg2 fval dval = make_halt
assemble entry arg0 arg1 arg2 fval dval = make_halt
assemble dload arg0 arg1 arg2 fval dval = make_dload (arg0 ∷ dval ∷ [])
assemble fload arg0 arg1 arg2 fval dval = make_fload (arg0 ∷ dval ∷ [])
assemble dsave arg0 arg1 arg2 fval dval = make_dsave (arg0 ∷ dval ∷ [])
assemble fsave arg0 arg1 arg2 fval dval = make_fsave (arg0 ∷ dval ∷ [])
assemble set arg0 arg1 arg2 fval dval = make_set arg0 dval
assemble fset arg0 arg1 arg2 fval dval = make_fset arg0 fval
assemble push arg0 arg1 arg2 fval dval = make_push (arg0 ∷ [])
assemble pop arg0 arg1 arg2 fval dval = make_pop (arg0 ∷ [])
assemble rec arg0 arg1 arg2 fval dval = make_rec
assemble call arg0 arg1 arg2 fval dval = make_call dval
assemble getac arg0 arg1 arg2 fval dval = make_getac arg0
assemble inc arg0 arg1 arg2 fval dval = make_inc (arg0 ∷ [])
assemble dec arg0 arg1 arg2 fval dval = make_dec (arg0 ∷ [])
assemble add arg0 arg1 arg2 fval dval = make_add (arg0 ∷ arg1 ∷ arg2 ∷ [])
assemble sub arg0 arg1 arg2 fval dval = make_sub (arg0 ∷ arg1 ∷ arg2 ∷ [])
assemble div arg0 arg1 arg2 fval dval = make_div (arg0 ∷ arg1 ∷ arg2 ∷ [])
assemble mul arg0 arg1 arg2 fval dval = make_mul (arg0 ∷ arg1 ∷ arg2 ∷ [])
assemble fadd arg0 arg1 arg2 fval dval = make_fadd (arg0 ∷ arg1 ∷ arg2 ∷ [])
assemble fsub arg0 arg1 arg2 fval dval = make_fsub (arg0 ∷ arg1 ∷ arg2 ∷ [])
assemble fdiv arg0 arg1 arg2 fval dval = make_fdiv (arg0 ∷ arg1 ∷ arg2 ∷ [])
assemble fmul arg0 arg1 arg2 fval dval = make_fmul (arg0 ∷ arg1 ∷ arg2 ∷ [])
assemble and arg0 arg1 arg2 fval dval = make_and (arg0 ∷ arg1 ∷ arg2 ∷ [])
assemble or arg0 arg1 arg2 fval dval = make_or (arg0 ∷ arg1 ∷ arg2 ∷ [])
assemble cu2i arg0 arg1 arg2 fval dval = make_cu2i (arg0 ∷ arg1 ∷ [])
assemble ci2u arg0 arg1 arg2 fval dval = make_ci2u (arg0 ∷ arg1 ∷ [])
assemble cf2i arg0 arg1 arg2 fval dval = make_cf2i (arg0 ∷ arg1 ∷ [])
assemble ci2f arg0 arg1 arg2 fval dval = make_ci2f (arg0 ∷ arg1 ∷ [])
assemble cu2f arg0 arg1 arg2 fval dval = make_cu2f (arg0 ∷ arg1 ∷ [])
assemble cf2u arg0 arg1 arg2 fval dval = make_cf2u (arg0 ∷ arg1 ∷ [])
assemble cmpe arg0 arg1 arg2 fval dval = make_cmpe (arg0 ∷ arg1 ∷ arg2 ∷ [])
assemble cmpeg arg0 arg1 arg2 fval dval = make_cmpeg (arg0 ∷ arg1 ∷ arg2 ∷ [])
assemble cmpel arg0 arg1 arg2 fval dval = make_cmpel (arg0 ∷ arg1 ∷ arg2 ∷ [])
assemble cmpg arg0 arg1 arg2 fval dval = make_cmpg (arg0 ∷ arg1 ∷ arg2 ∷ [])
assemble cmpl arg0 arg1 arg2 fval dval = make_cmpl (arg0 ∷ arg1 ∷ arg2 ∷ [])
assemble fcmpe arg0 arg1 arg2 fval dval = make_fcmpe (arg0 ∷ arg1 ∷ arg2 ∷ [])
assemble fcmpeg arg0 arg1 arg2 fval dval = make_fcmpeg (arg0 ∷ arg1 ∷ arg2 ∷ [])
assemble fcmpel arg0 arg1 arg2 fval dval = make_fcmpel (arg0 ∷ arg1 ∷ arg2 ∷ [])
assemble fcmpg arg0 arg1 arg2 fval dval = make_fcmpg (arg0 ∷ arg1 ∷ arg2 ∷ [])
assemble fcmpl arg0 arg1 arg2 fval dval = make_fcmpl (arg0 ∷ arg1 ∷ arg2 ∷ [])
assemble jmp arg0 arg1 arg2 fval dval = make_jmp dval
assemble ejmp arg0 arg1 arg2 fval dval = make_ejmp dval arg1 arg2
assemble nejmp arg0 arg1 arg2 fval dval = make_nejmp dval arg1 arg2
assemble rjmp arg0 arg1 arg2 fval dval = make_rjmp dval
assemble erjmp arg0 arg1 arg2 fval dval = make_erjmp (arg0 ∷ arg1 ∷ arg2 ∷ [])
assemble nerjmp arg0 arg1 arg2 fval dval = make_nerjmp (arg0 ∷ arg1 ∷ arg2 ∷ [])
assemble print arg0 arg1 arg2 fval dval = make_print
assemble reg_dump arg0 arg1 arg2 fval dval = make_reg_dump (arg0 ∷ [])
assemble ret arg0 arg1 arg2 fval dval = make_ret (arg0 ∷ [])
assemble nop arg0 arg1 arg2 fval dval = make_halt
