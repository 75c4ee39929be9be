-- ===== src/Inst/Defs.antt =====
-- The instruction set: the `Inst` enumeration and the `Instruction` record of src/vm/set.h, with
-- the number that C gives each enumerator.
use c_at.Base.{ℕ, List, [], ◌∷◌, Option, get_elem?, ◌%◌}

-- `I_HALT` and the others in declaration order, without the prefix.
pub data Inst : Type 0 where
  halt entry dload fload dsave fsave set fset push pop rec call getac inc dec add sub div : Inst
  mul fadd fsub fdiv fmul and or cu2i ci2u cf2i ci2f cu2f cf2u cmpe cmpeg cmpel cmpg cmpl : Inst
  fcmpe fcmpeg fcmpel fcmpg fcmpl jmp ejmp nejmp rjmp erjmp nerjmp print reg_dump ret nop : Inst

-- The enumerators in order: `I_HALT` is 0.
abbrev pub insts : List Inst
insts =
    halt ∷ entry ∷ dload ∷ fload ∷ dsave ∷ fsave ∷ set ∷ fset ∷ push ∷ pop ∷ rec ∷ call ∷ getac
    ∷ inc ∷ dec ∷ add ∷ sub ∷ div ∷ mul ∷ fadd ∷ fsub ∷ fdiv ∷ fmul ∷ and ∷ or ∷ cu2i ∷ ci2u ∷ cf2i
    ∷ ci2f ∷ cu2f ∷ cf2u ∷ cmpe ∷ cmpeg ∷ cmpel ∷ cmpg ∷ cmpl ∷ fcmpe ∷ fcmpeg ∷ fcmpel ∷ fcmpg
    ∷ fcmpl ∷ jmp ∷ ejmp ∷ nejmp ∷ rjmp ∷ erjmp ∷ nerjmp ∷ print ∷ reg_dump ∷ ret ∷ nop ∷ []

-- The value of an enumerator.
unfoldable pub inst_code : Inst → ℕ
inst_code halt = 0
inst_code entry = 1
inst_code dload = 2
inst_code fload = 3
inst_code dsave = 4
inst_code fsave = 5
inst_code set = 6
inst_code fset = 7
inst_code push = 8
inst_code pop = 9
inst_code rec = 10
inst_code call = 11
inst_code getac = 12
inst_code inc = 13
inst_code dec = 14
inst_code add = 15
inst_code sub = 16
inst_code div = 17
inst_code mul = 18
inst_code fadd = 19
inst_code fsub = 20
inst_code fdiv = 21
inst_code fmul = 22
inst_code and = 23
inst_code or = 24
inst_code cu2i = 25
inst_code ci2u = 26
inst_code cf2i = 27
inst_code ci2f = 28
inst_code cu2f = 29
inst_code cf2u = 30
inst_code cmpe = 31
inst_code cmpeg = 32
inst_code cmpel = 33
inst_code cmpg = 34
inst_code cmpl = 35
inst_code fcmpe = 36
inst_code fcmpeg = 37
inst_code fcmpel = 38
inst_code fcmpg = 39
inst_code fcmpl = 40
inst_code jmp = 41
inst_code ejmp = 42
inst_code nejmp = 43
inst_code rjmp = 44
inst_code erjmp = 45
inst_code nerjmp = 46
inst_code print = 47
inst_code reg_dump = 48
inst_code ret = 49
inst_code nop = 50

-- The enumerator that a number stands for, if it is one.
unfoldable pub decode_inst : ℕ → Option Inst
decode_inst n = get_elem? insts n

-- `Instruction`. The operation is the number stored, since a program read from a file may hold any;
-- the three argument bytes and the low word of the `UniformStrg` union are bit patterns.
pub record Instruction : Type 0 where
  pub operation : ℕ
  pub reg0 : ℕ
  pub reg1 : ℕ
  pub reg2 : ℕ
  pub storage : ℕ

-- `byte op = inst.operation; switch ((Inst)op)`: the operation goes through a signed `char`. A
-- pattern from 128 is negative, and no enumerator.
unfoldable pub operation_of : Instruction → Option Inst
unfolding decode_inst
operation_of i = decode_inst (i.operation % 256)
