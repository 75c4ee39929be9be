-- ===== src/Disassembler/Injective.antt =====
-- Instructions with three operands that print alike have the same operands.
use c_at.Base.{false, true, ◌≡◌, some, Bool, ℕ, Bytes, refl}
use c_at.Inst.Defs.{
  Inst, Instruction, halt, entry, dload, fload, dsave, fsave, set, fset, push, pop, rec, call,
  getac, inc, dec, add, sub, div, mul, fadd, fsub, fdiv, fmul, and, or, cu2i, ci2u, cf2i, ci2f,
  cu2f, cf2u, cmpe, cmpeg, cmpel, cmpg, cmpl, fcmpe, fcmpeg, fcmpel, fcmpg, fcmpl, jmp, ejmp, nejmp,
  rjmp, erjmp, nerjmp, print, reg_dump, ret, nop,
}
use c_at.Disassembler.Print.{print_inst}
use c_at.Disassembler.Operands.{HasSmallArgs, SameArgs, args3_injective}

-- The instructions printed with three arguments and no constant.
unfoldable pub has_three : Inst → Bool
has_three add = true
has_three sub = true
has_three mul = true
has_three div = true
has_three fadd = true
has_three fsub = true
has_three fdiv = true
has_three fmul = true
has_three and = true
has_three or = true
has_three cmpe = true
has_three cmpeg = true
has_three cmpel = true
has_three cmpg = true
has_three cmpl = true
has_three fcmpe = true
has_three fcmpeg = true
has_three fcmpel = true
has_three fcmpg = true
has_three fcmpl = true
has_three _ = false

some_injective : (s t : Bytes) → some s ≡ some t → s ≡ t
some_injective s t e = cc

-- Of an instruction with three registers for its arguments the printed text determines the
-- arguments, if they are below 128.
pub print_inst_injective :
    (show_float : ℕ → Bytes) (op : Inst) (i j : Instruction)
    → has_three op ≡ true
    → HasSmallArgs i
    → HasSmallArgs j
    → print_inst show_float op i ≡ print_inst show_float op j
    → SameArgs i j
unfolding print_inst has_three
print_inst_injective show_float halt i j three h k e = cc
print_inst_injective show_float entry i j three h k e = cc
print_inst_injective show_float dload i j three h k e = cc
print_inst_injective show_float fload i j three h k e = cc
print_inst_injective show_float dsave i j three h k e = cc
print_inst_injective show_float fsave i j three h k e = cc
print_inst_injective show_float set i j three h k e = cc
print_inst_injective show_float fset i j three h k e = cc
print_inst_injective show_float push i j three h k e = cc
print_inst_injective show_float pop i j three h k e = cc
print_inst_injective show_float rec i j three h k e = cc
print_inst_injective show_float call i j three h k e = cc
print_inst_injective show_float getac i j three h k e = cc
print_inst_injective show_float inc i j three h k e = cc
print_inst_injective show_float dec i j three h k e = cc
print_inst_injective show_float add i j three h k e =
    args3_injective "\n\tadd @r" ", @r" ", @r" i j (λ _. refl) (λ _. refl) h k
      (some_injective _ _ e)
print_inst_injective show_float sub i j three h k e =
    args3_injective "\n\tsub @r" ", @r" ", @r" i j (λ _. refl) (λ _. refl) h k
      (some_injective _ _ e)
print_inst_injective show_float div i j three h k e =
    args3_injective "\n\tdiv @r" ", @r" ", @r" i j (λ _. refl) (λ _. refl) h k
      (some_injective _ _ e)
print_inst_injective show_float mul i j three h k e =
    args3_injective "\n\tmul @r" ", @r" ", @r" i j (λ _. refl) (λ _. refl) h k
      (some_injective _ _ e)
print_inst_injective show_float fadd i j three h k e =
    args3_injective "\n\tfadd @fr" ", @fr" ", @fr" i j (λ _. refl) (λ _. refl) h k
      (some_injective _ _ e)
print_inst_injective show_float fsub i j three h k e =
    args3_injective "\n\tfsub @fr" ", @fr" ", @fr" i j (λ _. refl) (λ _. refl) h k
      (some_injective _ _ e)
print_inst_injective show_float fdiv i j three h k e =
    args3_injective "\n\tfdiv @fr" ", @fr" ", @fr" i j (λ _. refl) (λ _. refl) h k
      (some_injective _ _ e)
print_inst_injective show_float fmul i j three h k e =
    args3_injective "\n\tfmul @fr" ", @fr" ", @fr" i j (λ _. refl) (λ _. refl) h k
      (some_injective _ _ e)
print_inst_injective show_float and i j three h k e =
    args3_injective "\n\tand @r" ", @r" ", @r" i j (λ _. refl) (λ _. refl) h k
      (some_injective _ _ e)
print_inst_injective show_float or i j three h k e =
    args3_injective "\n\tor @r" ", @r" ", @r" i j (λ _. refl) (λ _. refl) h k (some_injective _ _ e)
print_inst_injective show_float cu2i i j three h k e = cc
print_inst_injective show_float ci2u i j three h k e = cc
print_inst_injective show_float cf2i i j three h k e = cc
print_inst_injective show_float ci2f i j three h k e = cc
print_inst_injective show_float cu2f i j three h k e = cc
print_inst_injective show_float cf2u i j three h k e = cc
print_inst_injective show_float cmpe i j three h k e =
    args3_injective "\n\tcmpe @r" ", @r" ", @r" i j (λ _. refl) (λ _. refl) h k
      (some_injective _ _ e)
print_inst_injective show_float cmpeg i j three h k e =
    args3_injective "\n\tcmpeg @r" ", @r" ", @r" i j (λ _. refl) (λ _. refl) h k
      (some_injective _ _ e)
print_inst_injective show_float cmpel i j three h k e =
    args3_injective "\n\tcmpel @r" ", @r" ", @r" i j (λ _. refl) (λ _. refl) h k
      (some_injective _ _ e)
print_inst_injective show_float cmpg i j three h k e =
    args3_injective "\n\tcmpg @r" ", @r" ", @r" i j (λ _. refl) (λ _. refl) h k
      (some_injective _ _ e)
print_inst_injective show_float cmpl i j three h k e =
    args3_injective "\n\tcmpl @r" ", @r" ", @r" i j (λ _. refl) (λ _. refl) h k
      (some_injective _ _ e)
print_inst_injective show_float fcmpe i j three h k e =
    args3_injective "\n\tfcmpe @r" ", @fr" ", @fr" i j (λ _. refl) (λ _. refl) h k
      (some_injective _ _ e)
print_inst_injective show_float fcmpeg i j three h k e =
    args3_injective "\n\tfcmpeg @r" ", @fr" ", @fr" i j (λ _. refl) (λ _. refl) h k
      (some_injective _ _ e)
print_inst_injective show_float fcmpel i j three h k e =
    args3_injective "\n\tfcmpel @r" ", @fr" ", @fr" i j (λ _. refl) (λ _. refl) h k
      (some_injective _ _ e)
print_inst_injective show_float fcmpg i j three h k e =
    args3_injective "\n\tfcmpg @r" ", @fr" ", @fr" i j (λ _. refl) (λ _. refl) h k
      (some_injective _ _ e)
print_inst_injective show_float fcmpl i j three h k e =
    args3_injective "\n\tfcmpl @r" ", @fr" ", @fr" i j (λ _. refl) (λ _. refl) h k
      (some_injective _ _ e)
print_inst_injective show_float jmp i j three h k e = cc
print_inst_injective show_float ejmp i j three h k e = cc
print_inst_injective show_float nejmp i j three h k e = cc
print_inst_injective show_float rjmp i j three h k e = cc
print_inst_injective show_float erjmp i j three h k e = cc
print_inst_injective show_float nerjmp i j three h k e = cc
print_inst_injective show_float print i j three h k e = cc
print_inst_injective show_float reg_dump i j three h k e = cc
print_inst_injective show_float ret i j three h k e = cc
print_inst_injective show_float nop i j three h k e = cc
