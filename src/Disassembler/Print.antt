-- ===== src/Disassembler/Print.antt =====
-- `print_instruction_asm` and `print_program_asm`: the text that goes to the standard output.
use c_at.Base.{[], none, ◌∷◌, some, List, Option, ◌++◌, codes, Bytes, ℕ}
use c_at.Disassembler.Show.{show_byte, show_int, show_size}
use Prim.Native.String.{String}
use c_at.Inst.Defs.{
  Inst, Instruction, operation_of, halt, entry, dload, fload, dsave, fsave, set, fset, push, pop,
  rec, call, getac, inc, dec, add, sub, div, mul, fadd, fsub, fdiv, fmul, and, or, cu2i, ci2u, cf2i,
  ci2f, cu2f, cf2u, cmpe, cmpeg, cmpel, cmpg, cmpl, fcmpe, fcmpeg, fcmpel, fcmpg, fcmpl, jmp, ejmp,
  nejmp, rjmp, erjmp, nerjmp, print, reg_dump, ret, nop,
}

-- A format with one, two or three `%d` for the argument bytes.
abbrev pub args1 : String → Instruction → Bytes
args1 s i = codes s ++ show_byte i.reg0

abbrev pub args2 : String → String → Instruction → Bytes
args2 s t i = args1 s i ++ (codes t ++ show_byte i.reg1)

abbrev pub args3 : String → String → String → Instruction → Bytes
args3 s t u i = args1 s i ++ (codes t ++ (show_byte i.reg1 ++ (codes u ++ show_byte i.reg2)))

-- The `switch`; `show_float` is what `%f` prints for a bit pattern. `none` is the message on stderr.
unfoldable pub print_inst : (ℕ → Bytes) → Inst → Instruction → Option Bytes
unfolding show_byte show_int show_size
print_inst show_float halt i = some (codes "\n\thalt")
print_inst show_float entry i = some (codes "\nENTRY:\n")
print_inst show_float dload i = some (args2 "\n\tdload @r" ", @r" i)
print_inst show_float fload i = some (args2 "\n\tfload @r" ", @r" i)
print_inst show_float dsave i = some (args2 "\n\tdsave @r" ", @r" i)
print_inst show_float fsave i = some (args2 "\n\tfsave @r" ", @r" i)
print_inst show_float set i =
    some (args1 "\n\tset @r" i ++ codes ", $(" ++ show_int i.storage ++ codes ")")
print_inst show_float fset i =
    some (args1 "\n\tfset @r" i ++ codes ", $(" ++ show_float i.storage ++ codes ")")
print_inst show_float push i = some (args1 "\n\tpush @r" i)
print_inst show_float pop i = some (args1 "\n\tpop @r" i)
print_inst show_float rec i = some (codes "\n\trec ")
print_inst show_float call i = some (codes "\n\tcall @address(" ++ show_size i.storage ++ codes ")")
print_inst show_float getac i = some (args1 "\n\tgetac @r" i)
print_inst show_float inc i = some (args1 "\n\tinc @r" i)
print_inst show_float dec i = some (args1 "\n\tdec @r" i)
print_inst show_float add i = some (args3 "\n\tadd @r" ", @r" ", @r" i)
print_inst show_float sub i = some (args3 "\n\tsub @r" ", @r" ", @r" i)
print_inst show_float div i = some (args3 "\n\tdiv @r" ", @r" ", @r" i)
print_inst show_float mul i = some (args3 "\n\tmul @r" ", @r" ", @r" i)
print_inst show_float fadd i = some (args3 "\n\tfadd @fr" ", @fr" ", @fr" i)
print_inst show_float fsub i = some (args3 "\n\tfsub @fr" ", @fr" ", @fr" i)
print_inst show_float fdiv i = some (args3 "\n\tfdiv @fr" ", @fr" ", @fr" i)
print_inst show_float fmul i = some (args3 "\n\tfmul @fr" ", @fr" ", @fr" i)
print_inst show_float and i = some (args3 "\n\tand @r" ", @r" ", @r" i)
print_inst show_float or i = some (args3 "\n\tor @r" ", @r" ", @r" i)
print_inst show_float cu2i i = some (args2 "\n\tcu2i @r" ", @r" i)
print_inst show_float ci2u i = some (args2 "\n\tci2u @r" ", @r" i)
print_inst show_float cf2i i = some (args2 "\n\tcf2i @r" ", @fr" i)
print_inst show_float ci2f i = some (args2 "\n\tci2f @fr" ", @r" i)
print_inst show_float cu2f i = some (args2 "\n\tcu2f @fr" ", @r" i)
print_inst show_float cf2u i = some (args2 "\n\tcf2u @r" ", @fr" i)
print_inst show_float cmpe i = some (args3 "\n\tcmpe @r" ", @r" ", @r" i)
print_inst show_float cmpeg i = some (args3 "\n\tcmpeg @r" ", @r" ", @r" i)
print_inst show_float cmpel i = some (args3 "\n\tcmpel @r" ", @r" ", @r" i)
print_inst show_float cmpg i = some (args3 "\n\tcmpg @r" ", @r" ", @r" i)
print_inst show_float cmpl i = some (args3 "\n\tcmpl @r" ", @r" ", @r" i)
print_inst show_float fcmpe i = some (args3 "\n\tfcmpe @r" ", @fr" ", @fr" i)
print_inst show_float fcmpeg i = some (args3 "\n\tfcmpeg @r" ", @fr" ", @fr" i)
print_inst show_float fcmpel i = some (args3 "\n\tfcmpel @r" ", @fr" ", @fr" i)
print_inst show_float fcmpg i = some (args3 "\n\tfcmpg @r" ", @fr" ", @fr" i)
print_inst show_float fcmpl i = some (args3 "\n\tfcmpl @r" ", @fr" ", @fr" i)
print_inst show_float jmp i = some (codes "\n\tjmp @address(" ++ show_int i.storage ++ codes ")")
print_inst show_float ejmp i =
    some (codes "\n\tejmp @address(" ++ show_int i.storage ++ args2 "), @r" ", @r" i)
print_inst show_float nejmp i =
    some (codes "\n\tnejump @address(" ++ show_int i.storage ++ args2 "), @r" ", @r" i)
print_inst show_float rjmp i = none
print_inst show_float erjmp i = none
print_inst show_float nerjmp i = none
print_inst show_float print i = some (codes "\n\tprint -> sys:write $r{0,1,2}")
print_inst show_float reg_dump i = some (args1 "\n\treg_dump#debug @r" i)
print_inst show_float ret i = some (args1 "\n\tret @r" i ++ codes "\n")
print_inst show_float nop i = some (codes "\n\tnop")

unfoldable pub print_instruction_asm : (ℕ → Bytes) → Instruction → Option Bytes
unfolding print_inst
print_instruction_asm show_float i = elim (operation_of i) [
  | none ↦ none
  | some op ↦ print_inst show_float op i
]

-- The text of a program, without the instructions that are not supported.
unfoldable pub print_program_asm : (ℕ → Bytes) → List Instruction → Bytes
unfolding print_instruction_asm
print_program_asm show_float [] = []
print_program_asm show_float (i ∷ is) = elim (print_instruction_asm show_float i) [
  | none ↦ print_program_asm show_float is
  | some text ↦ text ++ print_program_asm show_float is
]
