-- ===== src/Assembler/Line.antt =====
-- `Label`, `find_label` and `assemble_line`.
pub mod Registers
pub mod Labels
pub mod Constants
pub mod Floats
use c_at.Base.{
  [], drop, leb, guard, some, assertion, ◌-◌, null_pointer, ◌∷◌, update, fault, ◌>>=◌, length, ok,
  none, Result, List, ◌==◌, str_eq, Bytes, Option, ℕ, ◌+◌, Bool, ◌&&◌, ◌||◌, not, if◌then◌else◌,
}
use c_at.Inst.Defs.{decode_inst, Inst, Instruction}
use c_at.Exec.Memory.{uint_of_byte}
use c_at.Assembler.Operands.{Reg, parse_reg}
use c_at.Assembler.Emit.{get_instuction_count, assemble, is_float_instr}
use c_at.Tokenizer.Defs.{Token}
use c_at.Assembler.Keywords.{is_keyword}

pub record Label : Type 0 where
  pub name : Option Bytes
  pub address : ℕ

-- What the assembler is compiled with: the conversions of the C implementation, and what the local
-- variables without an initialiser hold, for each instruction and operand.
pub record Build : Type 0 where
  pub float_of_uint : ℕ → ℕ
  pub atof : Bytes → ℕ
  pub junk : ℕ → ℕ → Reg

-- The loop of `find_label`; `none` is the error. `strcmp` of a null name is undefined.
unfoldable pub find_address : Bytes → List Label → Result (Option ℕ)
unfolding str_eq
find_address label [] = ok none
find_address label (l ∷ labels) = elim l.name [
  | none ↦ fault null_pointer
  | some name ↦
      (let rest = find_address label labels in
        if str_eq name label then ok (some l.address) else rest)
]

-- `find_label`, with the assertion of its caller on the error. The first letter of the reference, an
-- `L`, is skipped.
unfoldable pub find_label : Reg → List Label → Result ℕ
unfolding find_address
find_label r labels = elim r.value_label [
  | none ↦ fault null_pointer
  | some text ↦ guard (leb 2 (length text)) assertion >>= λ _.
      find_address (drop 1 text) labels >>= λ found. elim found [
        | none ↦ fault assertion
        | some a ↦ ok a
      ]
]

-- The locals `regs`, `fvalue` and `dvalue`.
pub record Values : Type 0 where
  pub regs : ℕ → ℕ
  pub fvalue : ℕ
  pub dvalue : ℕ

abbrev pub no_values : Values
no_values = record { regs = λ _. 0; fvalue = 0; dvalue = 0 }

abbrev pub is_set : ℕ → Bool
is_set n = not (n == 0)

-- What the loop does with a parsed operand, the `t`-th word of the line.
unfoldable pub store_operand : Build → Inst → List Label → ℕ → Reg → Values → Result Values
unfolding is_float_instr find_label uint_of_byte
store_operand b op labels t r v =
    if is_set r.is_value && (is_set r.is_float || is_float_instr op)
    then ok (record v { fvalue = b.float_of_uint r.value_literall })
    else if is_set r.is_value && not (is_set r.is_float)
    then ok (record v { dvalue = r.value_literall })
    else if is_set r.is_label && not (is_set r.is_value) && not (is_set r.is_reg_n)
    then (find_label r labels >>= λ a. ok (record v { dvalue = a }))
    else ok (record v { regs = update v.regs (t - 1) (uint_of_byte r.reg_n) })

-- The loop over the operands, from the `t`-th word on. A token with no text is a null pointer.
unfoldable pub read_operands :
    Build → (ℕ → Reg) → Inst → List Label → ℕ → List Token → Values → Result Values
read_operands b junk op labels t [] v = ok v
read_operands b junk op labels t (tk ∷ rest) v = elim tk.literall [
  | none ↦ fault null_pointer
  | some text ↦ parse_reg b.atof (junk t) text >>= λ r.
      store_operand b op labels t r v >>= λ v'. read_operands b junk op labels (t + 1) rest v'
]

-- The values of a line: with a wrong count of operands a message is printed, and none is read.
unfoldable pub line_values : Build → (ℕ → Reg) → Inst → List Label → List Token → Result Values
line_values b junk op labels operands =
    if get_instuction_count op == length operands
    then read_operands b junk op labels 1 operands no_values
    else ok no_values

unfoldable pub assemble_op : Build → (ℕ → Reg) → Inst → List Label → List Token → Result Instruction
assemble_op b junk op labels operands = line_values b junk op labels operands >>= λ v.
    ok (assemble op (v.regs 0) (v.regs 1) (v.regs 2) v.fvalue v.dvalue)

-- `inst_tk` is the first token and the operands behind it. Both refusals are assertions.
unfoldable pub assemble_line :
    Build → (ℕ → Reg) → List Label → Token → List Token → Result Instruction
assemble_line b junk labels first operands = elim first.literall [
  | none ↦ fault assertion
  | some text ↦ elim (is_keyword text) [
    | none ↦ fault assertion
    | some type ↦ elim (decode_inst type) [
      | none ↦ fault assertion
      | some op ↦ assemble_op b junk op labels operands
    ]
  ]
]
