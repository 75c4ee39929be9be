-- ===== src/Assembler/Emit/Operations.antt =====
-- Which operation `assemble` gives an instruction, and with which operands.
use c_at.Inst.Defs.{
  operation_of, halt, entry, dload, fload, dsave, fsave, set, fset, push, pop, rec, call, getac,
  inc, dec, add, sub, div, mul, fadd, fsub, fdiv, fmul, and, or, cu2i, ci2u, cf2i, ci2f, cu2f, cf2u,
  cmpe, cmpeg, cmpel, cmpg, cmpl, fcmpe, fcmpeg, fcmpel, fcmpg, fcmpl, jmp, ejmp, nejmp, rjmp,
  erjmp, nerjmp, print, reg_dump, ret, nop, Inst, inst_code,
}
use c_at.Assembler.Emit.{assemble}
use c_at.Inst.Macros.{
  make_print, make_dload, make_halt, make_inc, make_or, make_set, make_ret, make_div, make_cu2i,
  make_add, make_cf2i, make_fset, make_cmpl, make_jmp, make_push, make_rec, make_dec, make_call,
  make_mul, make_fcmpg, make_cmpe, make_getac, make_fsub, make_fcmpel, make_rjmp, make_cu2f,
  make_reg_dump, make_pop, make_fdiv, make_nejmp, make_ejmp, instruction, make_nerjmp, make_sub,
  make_fmul, make_cmpel, make_cmpeg, make_dsave, make_fcmpeg, make_cf2u, make_ci2f, make_fsave,
  make_fload, make_fadd, make_fcmpe, make_erjmp, make_fcmpl, make_ci2u, make_and, make_cmpg,
}
use c_at.Base.{refl, some, ◌≡◌, ℕ}

-- The operation that the assembler writes: six instructions become others.
unfoldable pub emitted : Inst → Inst
emitted getac = call
emitted rjmp = jmp
emitted erjmp = ejmp
emitted nerjmp = nejmp
emitted entry = halt
emitted nop = halt
emitted op = op

-- For all operands `assemble` writes `getac` as `call`, `rjmp`, `erjmp` and `nerjmp` as `jmp`,
-- `ejmp` and `nejmp`, `entry` and `nop` as `halt`, and every other instruction as itself.
pub operation_of-assemble :
    (op : Inst) (a₀ a₁ a₂ f d : ℕ) → operation_of (assemble op a₀ a₁ a₂ f d) ≡ some (emitted op)
unfolding assemble emitted operation_of inst_code instruction make_add make_and make_call make_cf2i
    make_cf2u make_ci2f make_ci2u make_cmpe make_cmpeg make_cmpel make_cmpg make_cmpl make_cu2f
    make_cu2i make_dec make_div make_dload make_dsave make_ejmp make_erjmp make_fadd make_fcmpe
    make_fcmpeg make_fcmpel make_fcmpg make_fcmpl make_fdiv make_fload make_fmul make_fsave
    make_fset make_fsub make_getac make_halt make_inc make_jmp make_mul make_nejmp make_nerjmp
    make_or make_pop make_print make_push make_rec make_reg_dump make_ret make_rjmp make_set
    make_sub
operation_of-assemble halt a₀ a₁ a₂ f d = refl
operation_of-assemble entry a₀ a₁ a₂ f d = refl
operation_of-assemble dload a₀ a₁ a₂ f d = refl
operation_of-assemble fload a₀ a₁ a₂ f d = refl
operation_of-assemble dsave a₀ a₁ a₂ f d = refl
operation_of-assemble fsave a₀ a₁ a₂ f d = refl
operation_of-assemble set a₀ a₁ a₂ f d = refl
operation_of-assemble fset a₀ a₁ a₂ f d = refl
operation_of-assemble push a₀ a₁ a₂ f d = refl
operation_of-assemble pop a₀ a₁ a₂ f d = refl
operation_of-assemble rec a₀ a₁ a₂ f d = refl
operation_of-assemble call a₀ a₁ a₂ f d = refl
operation_of-assemble getac a₀ a₁ a₂ f d = refl
operation_of-assemble inc a₀ a₁ a₂ f d = refl
operation_of-assemble dec a₀ a₁ a₂ f d = refl
operation_of-assemble add a₀ a₁ a₂ f d = refl
operation_of-assemble sub a₀ a₁ a₂ f d = refl
operation_of-assemble div a₀ a₁ a₂ f d = refl
operation_of-assemble mul a₀ a₁ a₂ f d = refl
operation_of-assemble fadd a₀ a₁ a₂ f d = refl
operation_of-assemble fsub a₀ a₁ a₂ f d = refl
operation_of-assemble fdiv a₀ a₁ a₂ f d = refl
operation_of-assemble fmul a₀ a₁ a₂ f d = refl
operation_of-assemble and a₀ a₁ a₂ f d = refl
operation_of-assemble or a₀ a₁ a₂ f d = refl
operation_of-assemble cu2i a₀ a₁ a₂ f d = refl
operation_of-assemble ci2u a₀ a₁ a₂ f d = refl
operation_of-assemble cf2i a₀ a₁ a₂ f d = refl
operation_of-assemble ci2f a₀ a₁ a₂ f d = refl
operation_of-assemble cu2f a₀ a₁ a₂ f d = refl
operation_of-assemble cf2u a₀ a₁ a₂ f d = refl
operation_of-assemble cmpe a₀ a₁ a₂ f d = refl
operation_of-assemble cmpeg a₀ a₁ a₂ f d = refl
operation_of-assemble cmpel a₀ a₁ a₂ f d = refl
operation_of-assemble cmpg a₀ a₁ a₂ f d = refl
operation_of-assemble cmpl a₀ a₁ a₂ f d = refl
operation_of-assemble fcmpe a₀ a₁ a₂ f d = refl
operation_of-assemble fcmpeg a₀ a₁ a₂ f d = refl
operation_of-assemble fcmpel a₀ a₁ a₂ f d = refl
operation_of-assemble fcmpg a₀ a₁ a₂ f d = refl
operation_of-assemble fcmpl a₀ a₁ a₂ f d = refl
operation_of-assemble jmp a₀ a₁ a₂ f d = refl
operation_of-assemble ejmp a₀ a₁ a₂ f d = refl
operation_of-assemble nejmp a₀ a₁ a₂ f d = refl
operation_of-assemble rjmp a₀ a₁ a₂ f d = refl
operation_of-assemble erjmp a₀ a₁ a₂ f d = refl
operation_of-assemble nerjmp a₀ a₁ a₂ f d = refl
operation_of-assemble print a₀ a₁ a₂ f d = refl
operation_of-assemble reg_dump a₀ a₁ a₂ f d = refl
operation_of-assemble ret a₀ a₁ a₂ f d = refl
operation_of-assemble nop a₀ a₁ a₂ f d = refl
