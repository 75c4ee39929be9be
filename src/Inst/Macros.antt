-- ===== src/Inst/Macros.antt =====
-- The instruction macros of src/vm/set.h: `SET`, `PUSH`, `CALL` and the others, as functions named
-- with a leading `make_`. A macro that takes `__VA_ARGS__` takes the list of its arguments: those
-- left out are zero, and each is cut to a byte.
use c_at.Base.{ℕ, ◌%◌, ◌^◌, List, [], ◌∷◌, get_or}
use c_at.Inst.Defs.{
  Inst, Instruction, add, and, call, cf2i, cf2u, ci2f, ci2u, cmpe, cmpeg, cmpel, cmpg, cmpl, cu2f,
  cu2i, dec, div, dload, dsave, ejmp, fadd, fcmpe, fcmpeg, fcmpel, fcmpg, fcmpl, fdiv, fload, fmul,
  fsave, fset, fsub, halt, inc, inst_code, jmp, mul, nejmp, or, pop, print, push, rec, reg_dump,
  ret, set, sub,
}

-- A compound literal with `.operation`, `.argument_reg` and the low word of `.storage`.
unfoldable pub instruction : Inst → List ℕ → ℕ → Instruction
unfolding inst_code
instruction op args s = record {
  operation = inst_code op;
  reg0 = get_or args 0 0 % 256;
  reg1 = get_or args 1 0 % 256;
  reg2 = get_or args 2 0 % 256;
  storage = s % 2 ^ 32;
}

-- `i_fset`; the float is its bit pattern.
unfoldable pub i_fset : ℕ → ℕ → Instruction
unfolding instruction
i_fset reg imm = instruction fset (reg ∷ []) imm

unfoldable pub make_fset : ℕ → ℕ → Instruction
unfolding instruction
make_fset r s = instruction fset (r ∷ []) s

unfoldable pub make_set : ℕ → ℕ → Instruction
unfolding instruction
make_set r s = instruction set (r ∷ []) s

unfoldable pub make_push : List ℕ → Instruction
unfolding instruction
make_push args = instruction push args 0

unfoldable pub make_pop : List ℕ → Instruction
unfolding instruction
make_pop args = instruction pop args 0

unfoldable pub make_rec : Instruction
unfolding instruction
make_rec = instruction rec [] 0

unfoldable pub make_call : ℕ → Instruction
unfolding instruction
make_call addr = instruction call [] addr

unfoldable pub make_getac : ℕ → Instruction
unfolding instruction
make_getac reg = instruction call (reg ∷ []) 0

unfoldable pub make_dload : List ℕ → Instruction
unfolding instruction
make_dload args = instruction dload args 0

unfoldable pub make_fload : List ℕ → Instruction
unfolding instruction
make_fload args = instruction fload args 0

unfoldable pub make_dsave : List ℕ → Instruction
unfolding instruction
make_dsave args = instruction dsave args 0

unfoldable pub make_fsave : List ℕ → Instruction
unfolding instruction
make_fsave args = instruction fsave args 0

unfoldable pub make_inc : List ℕ → Instruction
unfolding instruction
make_inc args = instruction inc args 0

unfoldable pub make_dec : List ℕ → Instruction
unfolding instruction
make_dec args = instruction dec args 0

unfoldable pub make_add : List ℕ → Instruction
unfolding instruction
make_add args = instruction add args 0

unfoldable pub make_fadd : List ℕ → Instruction
unfolding instruction
make_fadd args = instruction fadd args 0

unfoldable pub make_sub : List ℕ → Instruction
unfolding instruction
make_sub args = instruction sub args 0

unfoldable pub make_fsub : List ℕ → Instruction
unfolding instruction
make_fsub args = instruction fsub args 0

unfoldable pub make_div : List ℕ → Instruction
unfolding instruction
make_div args = instruction div args 0

unfoldable pub make_fdiv : List ℕ → Instruction
unfolding instruction
make_fdiv args = instruction fdiv args 0

unfoldable pub make_mul : List ℕ → Instruction
unfolding instruction
make_mul args = instruction mul args 0

unfoldable pub make_fmul : List ℕ → Instruction
unfolding instruction
make_fmul args = instruction fmul args 0

unfoldable pub make_and : List ℕ → Instruction
unfolding instruction
make_and args = instruction and args 0

unfoldable pub make_or : List ℕ → Instruction
unfolding instruction
make_or args = instruction or args 0

unfoldable pub make_cu2i : List ℕ → Instruction
unfolding instruction
make_cu2i args = instruction cu2i args 0

unfoldable pub make_ci2u : List ℕ → Instruction
unfolding instruction
make_ci2u args = instruction ci2u args 0

unfoldable pub make_cf2i : List ℕ → Instruction
unfolding instruction
make_cf2i args = instruction cf2i args 0

unfoldable pub make_ci2f : List ℕ → Instruction
unfolding instruction
make_ci2f args = instruction ci2f args 0

unfoldable pub make_cu2f : List ℕ → Instruction
unfolding instruction
make_cu2f args = instruction cu2f args 0

unfoldable pub make_cf2u : List ℕ → Instruction
unfolding instruction
make_cf2u args = instruction cf2u args 0

unfoldable pub make_cmpe : List ℕ → Instruction
unfolding instruction
make_cmpe args = instruction cmpe args 0

unfoldable pub make_cmpeg : List ℕ → Instruction
unfolding instruction
make_cmpeg args = instruction cmpeg args 0

unfoldable pub make_cmpel : List ℕ → Instruction
unfolding instruction
make_cmpel args = instruction cmpel args 0

unfoldable pub make_cmpg : List ℕ → Instruction
unfolding instruction
make_cmpg args = instruction cmpg args 0

unfoldable pub make_cmpl : List ℕ → Instruction
unfolding instruction
make_cmpl args = instruction cmpl args 0

unfoldable pub make_fcmpe : List ℕ → Instruction
unfolding instruction
make_fcmpe args = instruction fcmpe args 0

unfoldable pub make_fcmpeg : List ℕ → Instruction
unfolding instruction
make_fcmpeg args = instruction fcmpeg args 0

unfoldable pub make_fcmpel : List ℕ → Instruction
unfolding instruction
make_fcmpel args = instruction fcmpel args 0

unfoldable pub make_fcmpg : List ℕ → Instruction
unfolding instruction
make_fcmpg args = instruction fcmpg args 0

unfoldable pub make_fcmpl : List ℕ → Instruction
unfolding instruction
make_fcmpl args = instruction fcmpl args 0

unfoldable pub make_rjmp : ℕ → Instruction
unfolding instruction
make_rjmp r = instruction jmp (r ∷ []) 0

unfoldable pub make_erjmp : List ℕ → Instruction
unfolding instruction
make_erjmp args = instruction ejmp args 0

unfoldable pub make_nerjmp : List ℕ → Instruction
unfolding instruction
make_nerjmp args = instruction nejmp args 0

unfoldable pub make_jmp : ℕ → Instruction
unfolding instruction
make_jmp s = instruction jmp [] s

unfoldable pub make_ejmp : ℕ → ℕ → ℕ → Instruction
unfolding instruction
make_ejmp a r0 r1 = instruction ejmp (r0 ∷ r1 ∷ []) a

unfoldable pub make_nejmp : ℕ → ℕ → ℕ → Instruction
unfolding instruction
make_nejmp a r0 r1 = instruction nejmp (r0 ∷ r1 ∷ []) a

unfoldable pub make_reg_dump : List ℕ → Instruction
unfolding instruction
make_reg_dump args = instruction reg_dump args 0

unfoldable pub make_print : Instruction
unfolding instruction
make_print = instruction print [] 0

unfoldable pub make_halt : Instruction
unfolding instruction
make_halt = instruction halt [] 0

unfoldable pub make_ret : List ℕ → Instruction
unfolding instruction
make_ret args = instruction ret args 0
