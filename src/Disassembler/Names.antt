-- ===== src/Disassembler/Names.antt =====
-- The name that a printed instruction begins with, and which instructions are printed.
use c_at.Base.{◌++◌, codes, some, none, true, ◌≡◌, false, Bytes, Bool, ℕ, refl}
use c_at.Assembler.Keywords.Mnemonics.{mnemonic}
use c_at.Disassembler.Print.{print_inst}
use c_at.Inst.Defs.{
  Inst, Instruction, halt, entry, dload, fload, dsave, fsave, set, fset, push, pop, rec, call,
  getac, inc, dec, add, sub, div, mul, fadd, fsub, fdiv, fmul, and, or, cu2i, ci2u, cf2i, ci2f,
  cu2f, cf2u, cmpe, cmpeg, cmpel, cmpg, cmpl, fcmpe, fcmpeg, fcmpel, fcmpg, fcmpl, jmp, ejmp, nejmp,
  rjmp, erjmp, nerjmp, print, reg_dump, ret, nop,
}

-- The register jumps, which the `switch` does not have.
unfoldable pub is_printed : Inst → Bool
is_printed rjmp = false
is_printed erjmp = false
is_printed nerjmp = false
is_printed _ = true

-- The instructions whose name in the printed text is another than in the source.
unfoldable pub keeps_name : Inst → Bool
keeps_name entry = false
keeps_name nejmp = false
keeps_name reg_dump = false
keeps_name op = is_printed op

pub print_inst-none :
    (show_float : ℕ → Bytes) (op : Inst) (i : Instruction)
    → is_printed op ≡ false
    → print_inst show_float op i ≡ none
unfolding print_inst is_printed
print_inst-none show_float halt i h = cc
print_inst-none show_float entry i h = cc
print_inst-none show_float dload i h = cc
print_inst-none show_float fload i h = cc
print_inst-none show_float dsave i h = cc
print_inst-none show_float fsave i h = cc
print_inst-none show_float set i h = cc
print_inst-none show_float fset i h = cc
print_inst-none show_float push i h = cc
print_inst-none show_float pop i h = cc
print_inst-none show_float rec i h = cc
print_inst-none show_float call i h = cc
print_inst-none show_float getac i h = cc
print_inst-none show_float inc i h = cc
print_inst-none show_float dec i h = cc
print_inst-none show_float add i h = cc
print_inst-none show_float sub i h = cc
print_inst-none show_float div i h = cc
print_inst-none show_float mul i h = cc
print_inst-none show_float fadd i h = cc
print_inst-none show_float fsub i h = cc
print_inst-none show_float fdiv i h = cc
print_inst-none show_float fmul i h = cc
print_inst-none show_float and i h = cc
print_inst-none show_float or i h = cc
print_inst-none show_float cu2i i h = cc
print_inst-none show_float ci2u i h = cc
print_inst-none show_float cf2i i h = cc
print_inst-none show_float ci2f i h = cc
print_inst-none show_float cu2f i h = cc
print_inst-none show_float cf2u i h = cc
print_inst-none show_float cmpe i h = cc
print_inst-none show_float cmpeg i h = cc
print_inst-none show_float cmpel i h = cc
print_inst-none show_float cmpg i h = cc
print_inst-none show_float cmpl i h = cc
print_inst-none show_float fcmpe i h = cc
print_inst-none show_float fcmpeg i h = cc
print_inst-none show_float fcmpel i h = cc
print_inst-none show_float fcmpg i h = cc
print_inst-none show_float fcmpl i h = cc
print_inst-none show_float jmp i h = cc
print_inst-none show_float ejmp i h = cc
print_inst-none show_float nejmp i h = cc
print_inst-none show_float rjmp i h = refl
print_inst-none show_float erjmp i h = refl
print_inst-none show_float nerjmp i h = refl
print_inst-none show_float print i h = cc
print_inst-none show_float reg_dump i h = cc
print_inst-none show_float ret i h = cc
print_inst-none show_float nop i h = cc

-- Every printed instruction but `entry`, `nejmp` and `reg_dump` begins a line with its name in the
-- source, after a tab, whatever its operands.
pub print_inst-mnemonic :
    (show_float : ℕ → Bytes) (op : Inst) (i : Instruction)
    → keeps_name op ≡ true
    → (rest : Bytes) × (print_inst show_float op i ≡ some (codes "\n\t" ++ (mnemonic op ++ rest)))
unfolding print_inst keeps_name is_printed mnemonic
print_inst-mnemonic show_float halt i h = (_, refl)
print_inst-mnemonic show_float entry i h = absurd (cc)
print_inst-mnemonic show_float dload i h = (_, refl)
print_inst-mnemonic show_float fload i h = (_, refl)
print_inst-mnemonic show_float dsave i h = (_, refl)
print_inst-mnemonic show_float fsave i h = (_, refl)
print_inst-mnemonic show_float set i h = (_, refl)
print_inst-mnemonic show_float fset i h = (_, refl)
print_inst-mnemonic show_float push i h = (_, refl)
print_inst-mnemonic show_float pop i h = (_, refl)
print_inst-mnemonic show_float rec i h = (_, refl)
print_inst-mnemonic show_float call i h = (_, refl)
print_inst-mnemonic show_float getac i h = (_, refl)
print_inst-mnemonic show_float inc i h = (_, refl)
print_inst-mnemonic show_float dec i h = (_, refl)
print_inst-mnemonic show_float add i h = (_, refl)
print_inst-mnemonic show_float sub i h = (_, refl)
print_inst-mnemonic show_float div i h = (_, refl)
print_inst-mnemonic show_float mul i h = (_, refl)
print_inst-mnemonic show_float fadd i h = (_, refl)
print_inst-mnemonic show_float fsub i h = (_, refl)
print_inst-mnemonic show_float fdiv i h = (_, refl)
print_inst-mnemonic show_float fmul i h = (_, refl)
print_inst-mnemonic show_float and i h = (_, refl)
print_inst-mnemonic show_float or i h = (_, refl)
print_inst-mnemonic show_float cu2i i h = (_, refl)
print_inst-mnemonic show_float ci2u i h = (_, refl)
print_inst-mnemonic show_float cf2i i h = (_, refl)
print_inst-mnemonic show_float ci2f i h = (_, refl)
print_inst-mnemonic show_float cu2f i h = (_, refl)
print_inst-mnemonic show_float cf2u i h = (_, refl)
print_inst-mnemonic show_float cmpe i h = (_, refl)
print_inst-mnemonic show_float cmpeg i h = (_, refl)
print_inst-mnemonic show_float cmpel i h = (_, refl)
print_inst-mnemonic show_float cmpg i h = (_, refl)
print_inst-mnemonic show_float cmpl i h = (_, refl)
print_inst-mnemonic show_float fcmpe i h = (_, refl)
print_inst-mnemonic show_float fcmpeg i h = (_, refl)
print_inst-mnemonic show_float fcmpel i h = (_, refl)
print_inst-mnemonic show_float fcmpg i h = (_, refl)
print_inst-mnemonic show_float fcmpl i h = (_, refl)
print_inst-mnemonic show_float jmp i h = (_, refl)
print_inst-mnemonic show_float ejmp i h = (_, refl)
print_inst-mnemonic show_float nejmp i h = absurd (cc)
print_inst-mnemonic show_float rjmp i h = absurd (cc)
print_inst-mnemonic show_float erjmp i h = absurd (cc)
print_inst-mnemonic show_float nerjmp i h = absurd (cc)
print_inst-mnemonic show_float print i h = (_, refl)
print_inst-mnemonic show_float reg_dump i h = absurd (cc)
print_inst-mnemonic show_float ret i h = (_, refl)
print_inst-mnemonic show_float nop i h = (_, refl)
