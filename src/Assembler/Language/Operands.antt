-- ===== src/Assembler/Language/Operands.antt =====
-- Operands of any kind and number, as `assemble_line` reads them.
use c_at.Base.{
  ◌≢◌, suc, length, ◌+◌, sym, refl, ap, arith, [], ◌∙◌, some, ok, ◌∷◌, ◌≡◌, List, Bytes, ℕ,
}
use c_at.Assembler.Line.{
  assemble_line, no_values, assemble_op, line_values, Build, find_address, store_operand, Label,
  Values, read_operands,
}
use c_at.Assembler.Line.Labels.{reference, parse_reg-reference, label_reg, find_label-reference}
use c_at.Assembler.Operands.{Reg, parse_reg}
use c_at.Assembler.Line.Constants.{number_text, parse_reg-number, store_number, number_reg}
use c_at.Inst.Defs.{fadd, Inst}
use c_at.Assembler.Line.Registers.{
  assemble_line-mnemonic, register_text, parse_reg-register, register_reg, store_register,
}
use c_at.Assembler.Language.Defs.{
  code_of, operand_token, address_of, Statement, label_ref, AreOperands, Operand, label_address,
  operand_values, register, operand_value, IsOperand, number, operand_tokens,
}
use c_at.Assembler.Lines.Defs.{word_token}
use c_at.Assembler.Emit.{get_instuction_count}
use c_at.Assembler.Keywords.Mnemonics.{mnemonic}
use c_at.Tokenizer.Defs.{Token}

-- The uninitialised `is_value` of every operand is 0.
abbrev pub AreClear : (ℕ → Reg) → Type 0
AreClear junk = (t : ℕ) → (junk t).is_value ≡ 0

-- What `parse_reg` makes of an operand.
abbrev operand_reg : Reg → Operand → Reg
operand_reg junk (register n) = register_reg junk n
operand_reg junk (number n) = number_reg junk n
operand_reg junk (label_ref c name) = label_reg junk (c ∷ name)

abbrev operand_text : Operand → Bytes
operand_text (register n) = register_text n
operand_text (number n) = number_text n
operand_text (label_ref c name) = reference (c ∷ name)

parse_reg-operand :
    (atof : Bytes → ℕ) (junk : Reg) (all : List Statement) (o : Operand)
    → IsOperand all o
    → parse_reg atof junk (operand_text o) ≡ ok (operand_reg junk o)
parse_reg-operand atof junk all (register n) h = parse_reg-register atof junk n h
parse_reg-operand atof junk all (number n) h = parse_reg-number atof junk n h
parse_reg-operand atof junk all (label_ref c name) h = parse_reg-reference atof junk c name h.1

store_ref :
    (b : Build) (op : Inst) (labels : List Label) (t : ℕ) (junk : Reg) (c : ℕ) (name : Bytes)
    (v : Values) {a : ℕ}
    → junk.is_value ≡ 0
    → find_address (c ∷ name) labels ≡ ok (some a)
    → store_operand b op labels t (label_reg junk (c ∷ name)) v ≡ ok (record v { dvalue = a })
unfolding store_operand
store_ref b op labels t junk c name v clear found =
    ground (arith, clear, find_label-reference junk labels c name found)

-- The labels of the first pass are those of the program.
abbrev pub AreLabels : List Label → List Statement → Type 0
AreLabels labels all = (n : Bytes) → find_address n labels ≡ ok (label_address n 0 all)

store_operand_lem :
    (b : Build) (op : Inst) (labels : List Label) (all : List Statement) (t : ℕ) (junk : Reg)
    (o : Operand) (v : Values)
    → AreLabels labels all
    → junk.is_value ≡ 0
    → IsOperand all o
    → store_operand b op labels t (operand_reg junk o) v ≡ ok (operand_value b all op t o v)
store_operand_lem b op labels all t junk (register n) v same clear h =
    store_register b op labels t junk n v h
store_operand_lem b op labels all t junk (number n) v same clear h =
    store_number b op labels t junk n v
store_operand_lem b op labels all t junk (label_ref c name) v same clear h =
    let (a, at) = h.2 in
    let address : address_of (c ∷ name) all ≡ a = rw (at, address_of) refl in
    store_ref b op labels t junk c name v clear (same (c ∷ name) ∙ ap ok at)
    ∙ ap (λ (x : ℕ). ok (record v { dvalue = x })) (sym address)

read_operand :
    (b : Build) (junk : ℕ → Reg) (op : Inst) (labels : List Label) (all : List Statement) (t : ℕ)
    (o : Operand) (rest : List Token) (v : Values)
    → AreLabels labels all
    → AreClear junk
    → IsOperand all o
    → read_operands b junk op labels t (operand_token o ∷ rest) v
      ≡ read_operands b junk op labels (t + 1) rest (operand_value b all op t o v)
unfolding read_operands
read_operand b junk op labels all t (register n) rest v same clear h =
    rw
      (
        parse_reg-operand b.atof (junk t) all (register n) h,
        store_operand_lem b op labels all t (junk t) (register n) v same (clear t) h,
      )
      refl
read_operand b junk op labels all t (number n) rest v same clear h =
    rw
      (
        parse_reg-operand b.atof (junk t) all (number n) h,
        store_operand_lem b op labels all t (junk t) (number n) v same (clear t) h,
      )
      refl
read_operand b junk op labels all t (label_ref c name) rest v same clear h =
    rw
      (
        parse_reg-operand b.atof (junk t) all (label_ref c name) h,
        store_operand_lem b op labels all t (junk t) (label_ref c name) v same (clear t) h,
      )
      refl

-- The operands of a line leave the values of the statement.
read_operands_lem :
    (b : Build) (junk : ℕ → Reg) (op : Inst) (labels : List Label) (all : List Statement) (t : ℕ)
    (os : List Operand) (v : Values)
    → AreLabels labels all
    → AreClear junk
    → AreOperands all os
    → read_operands b junk op labels t (operand_tokens os) v ≡ ok (operand_values b all op t os v)
unfolding read_operands
read_operands_lem b junk op labels all t [] v same clear h = refl
read_operands_lem b junk op labels all t (o ∷ os) v same clear h =
    read_operand b junk op labels all t o (operand_tokens os) v same clear h.0
    ∙ read_operands_lem b junk op labels all (t + 1) os (operand_value b all op t o v) same clear
        h.1

pub length-operand_tokens : (os : List Operand) → length (operand_tokens os) ≡ length os
length-operand_tokens [] = refl
length-operand_tokens (o ∷ os) = ap suc (length-operand_tokens os)

-- A line is assembled to the instruction of its statement.
pub assemble_line-code_of :
    (b : Build) (junk : ℕ → Reg) (labels : List Label) (all : List Statement) (op : Inst)
    (os : List Operand)
    → op ≢ fadd
    → get_instuction_count op ≡ length os
    → AreLabels labels all
    → AreClear junk
    → AreOperands all os
    → assemble_line b junk labels (word_token (mnemonic op)) (operand_tokens os)
      ≡ ok (code_of b all op os)
unfolding assemble_op line_values
assemble_line-code_of b junk labels all op os ne count same clear h =
    let counted : get_instuction_count op ≡ length (operand_tokens os) =
      count ∙ sym (length-operand_tokens os) in
    let read = read_operands_lem b junk op labels all 1 os no_values same clear h in
    assemble_line-mnemonic b junk labels op _ ne ∙ ground (arith, counted, read)
