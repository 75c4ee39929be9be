-- ===== src/Inst/Codes.antt =====
-- `inst_code` and `decode_inst` are inverse to each other.
use c_at.Base.{◌<◌, ◌≡◌, refl, some, arith}
use c_at.Inst.Defs.{
  Inst, inst_code, decode_inst, halt, entry, dload, fload, dsave, fsave, set, fset, push, pop, rec,
  call, getac, inc, dec, add, sub, div, mul, fadd, fsub, fdiv, fmul, and, or, cu2i, ci2u, cf2i,
  ci2f, cu2f, cf2u, cmpe, cmpeg, cmpel, cmpg, cmpl, fcmpe, fcmpeg, fcmpel, fcmpg, fcmpl, jmp, ejmp,
  nejmp, rjmp, erjmp, nerjmp, print, reg_dump, ret, nop,
}

-- Every enumerator is decoded from its own code.
pub decode_inst-inst_code : (i : Inst) → decode_inst (inst_code i) ≡ some i
unfolding decode_inst inst_code
decode_inst-inst_code halt = refl
decode_inst-inst_code entry = refl
decode_inst-inst_code dload = refl
decode_inst-inst_code fload = refl
decode_inst-inst_code dsave = refl
decode_inst-inst_code fsave = refl
decode_inst-inst_code set = refl
decode_inst-inst_code fset = refl
decode_inst-inst_code push = refl
decode_inst-inst_code pop = refl
decode_inst-inst_code rec = refl
decode_inst-inst_code call = refl
decode_inst-inst_code getac = refl
decode_inst-inst_code inc = refl
decode_inst-inst_code dec = refl
decode_inst-inst_code add = refl
decode_inst-inst_code sub = refl
decode_inst-inst_code div = refl
decode_inst-inst_code mul = refl
decode_inst-inst_code fadd = refl
decode_inst-inst_code fsub = refl
decode_inst-inst_code fdiv = refl
decode_inst-inst_code fmul = refl
decode_inst-inst_code and = refl
decode_inst-inst_code or = refl
decode_inst-inst_code cu2i = refl
decode_inst-inst_code ci2u = refl
decode_inst-inst_code cf2i = refl
decode_inst-inst_code ci2f = refl
decode_inst-inst_code cu2f = refl
decode_inst-inst_code cf2u = refl
decode_inst-inst_code cmpe = refl
decode_inst-inst_code cmpeg = refl
decode_inst-inst_code cmpel = refl
decode_inst-inst_code cmpg = refl
decode_inst-inst_code cmpl = refl
decode_inst-inst_code fcmpe = refl
decode_inst-inst_code fcmpeg = refl
decode_inst-inst_code fcmpel = refl
decode_inst-inst_code fcmpg = refl
decode_inst-inst_code fcmpl = refl
decode_inst-inst_code jmp = refl
decode_inst-inst_code ejmp = refl
decode_inst-inst_code nejmp = refl
decode_inst-inst_code rjmp = refl
decode_inst-inst_code erjmp = refl
decode_inst-inst_code nerjmp = refl
decode_inst-inst_code print = refl
decode_inst-inst_code reg_dump = refl
decode_inst-inst_code ret = refl
decode_inst-inst_code nop = refl

pub inst_code-lt : (i : Inst) → inst_code i < 51
unfolding inst_code
inst_code-lt halt = omega arith
inst_code-lt entry = omega arith
inst_code-lt dload = omega arith
inst_code-lt fload = omega arith
inst_code-lt dsave = omega arith
inst_code-lt fsave = omega arith
inst_code-lt set = omega arith
inst_code-lt fset = omega arith
inst_code-lt push = omega arith
inst_code-lt pop = omega arith
inst_code-lt rec = omega arith
inst_code-lt call = omega arith
inst_code-lt getac = omega arith
inst_code-lt inc = omega arith
inst_code-lt dec = omega arith
inst_code-lt add = omega arith
inst_code-lt sub = omega arith
inst_code-lt div = omega arith
inst_code-lt mul = omega arith
inst_code-lt fadd = omega arith
inst_code-lt fsub = omega arith
inst_code-lt fdiv = omega arith
inst_code-lt fmul = omega arith
inst_code-lt and = omega arith
inst_code-lt or = omega arith
inst_code-lt cu2i = omega arith
inst_code-lt ci2u = omega arith
inst_code-lt cf2i = omega arith
inst_code-lt ci2f = omega arith
inst_code-lt cu2f = omega arith
inst_code-lt cf2u = omega arith
inst_code-lt cmpe = omega arith
inst_code-lt cmpeg = omega arith
inst_code-lt cmpel = omega arith
inst_code-lt cmpg = omega arith
inst_code-lt cmpl = omega arith
inst_code-lt fcmpe = omega arith
inst_code-lt fcmpeg = omega arith
inst_code-lt fcmpel = omega arith
inst_code-lt fcmpg = omega arith
inst_code-lt fcmpl = omega arith
inst_code-lt jmp = omega arith
inst_code-lt ejmp = omega arith
inst_code-lt nejmp = omega arith
inst_code-lt rjmp = omega arith
inst_code-lt erjmp = omega arith
inst_code-lt nerjmp = omega arith
inst_code-lt print = omega arith
inst_code-lt reg_dump = omega arith
inst_code-lt ret = omega arith
inst_code-lt nop = omega arith
