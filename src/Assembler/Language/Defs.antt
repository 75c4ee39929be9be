-- ===== src/Assembler/Language/Defs.antt =====
-- The statements of a source program, and the instructions that they stand for.
use c_at.Base.{
  ◌≡◌, str_eq, ◌≢◌, false, length, ◌+◌, ◌-◌, some, if◌then◌else◌, true, ◌<◌, [], ◌∷◌, update, none,
  Option, Bool, List, Bytes, ℕ,
}
use c_at.Assembler.Lines.Defs.{word_token, Line, code_line, label_line, comment_line, blank_line}
use c_at.Assembler.Line.Constants.{number_token}
use c_at.Inst.Defs.{fadd, Instruction, Inst}
use c_at.Tokenizer.Stream.{AreWords, IsWord}
use c_at.Assembler.Emit.{get_instuction_count, is_float_instr, assemble}
use c_at.Assembler.Keywords.Mnemonics.{mnemonic}
use c_at.Assembler.Line.Labels.{reference_token}
use c_at.Assembler.Line.{Build, Values, no_values}
use c_at.Tokenizer.Defs.{Token}
use c_at.Assembler.Line.Registers.{register_token}

-- A register, a number, or a reference to the label with this first letter and rest.
pub data Operand : Type 0 where
  register : ℕ → Operand
  number : ℕ → Operand
  label_ref : ℕ → Bytes → Operand

-- A label, an instruction, an empty line, or a comment of words.
pub data Statement : Type 0 where
  label_statement : ℕ → Bytes → Statement
  code_statement : Inst → List Operand → Statement
  blank_statement : Statement
  comment_statement : List Bytes → Statement

-- The number of instructions above the first label with the name, counted from `lc`.
abbrev pub label_address : Bytes → ℕ → List Statement → Option ℕ
label_address n lc [] = none
label_address n lc (label_statement c name ∷ ss) =
    if str_eq (c ∷ name) n then some lc else label_address n lc ss
label_address n lc (code_statement op os ∷ ss) = label_address n (lc + 1) ss
label_address n lc (blank_statement ∷ ss) = label_address n lc ss
label_address n lc (comment_statement ws ∷ ss) = label_address n lc ss

abbrev pub address_of : Bytes → List Statement → ℕ
address_of n all = elim (label_address n 0 all) [ none ↦ 0 | some a ↦ a ]

-- What the `t`-th operand puts in the values of a line.
abbrev pub operand_value : Build → List Statement → Inst → ℕ → Operand → Values → Values
operand_value b all op t (register n) v = record v { regs = update v.regs (t - 1) n }
operand_value b all op t (number n) v =
    if is_float_instr op then record v { fvalue = b.float_of_uint n } else record v { dvalue = n }
operand_value b all op t (label_ref c name) v = record v { dvalue = address_of (c ∷ name) all }

abbrev pub operand_values : Build → List Statement → Inst → ℕ → List Operand → Values → Values
operand_values b all op t [] v = v
operand_values b all op t (o ∷ os) v =
    operand_values b all op (t + 1) os (operand_value b all op t o v)

-- The instruction of a statement, in the program `all`.
abbrev pub code_of : Build → List Statement → Inst → List Operand → Instruction
code_of b all op os =
    let v = operand_values b all op 1 os no_values in
    assemble op (v.regs 0) (v.regs 1) (v.regs 2) v.fvalue v.dvalue

-- The instructions of the statements, in the program `all`.
abbrev pub compile_from : Build → List Statement → List Statement → List Instruction
compile_from b all [] = []
compile_from b all (label_statement c name ∷ ss) = compile_from b all ss
compile_from b all (code_statement op os ∷ ss) = code_of b all op os ∷ compile_from b all ss
compile_from b all (blank_statement ∷ ss) = compile_from b all ss
compile_from b all (comment_statement ws ∷ ss) = compile_from b all ss

abbrev pub compile : Build → List Statement → List Instruction
compile b all = compile_from b all all

-- Registers and numbers are small enough, and the labels exist. A name has up to three characters.
abbrev pub IsOperand : List Statement → Operand → Type 0
IsOperand all (register n) = n < 16
IsOperand all (number n) = n < 10000
IsOperand all (label_ref c name) =
    IsWord (c ∷ name) × (length name < 3) × ((a : ℕ) × (label_address (c ∷ name) 0 all ≡ some a))

abbrev pub AreOperands : List Statement → List Operand → Type 0
AreOperands all [] = Unit
AreOperands all (o ∷ os) = IsOperand all o × AreOperands all os

-- An instruction without operands does not stand straight below a label.
abbrev pub HasOperand : Bool → List Operand → Type 0
HasOperand true [] = ⊥
HasOperand true (o ∷ os) = Unit
HasOperand false os = Unit

-- `after_label`: a label stands above, with no instruction in between. The instructions have as many
-- operands as they take, and `fadd`, which is no keyword, is none of them.
abbrev pub AreStatements : List Statement → Bool → List Statement → Type 0
AreStatements all after_label [] = Unit
AreStatements all after_label (label_statement c name ∷ ss) =
    IsWord (c ∷ name) × AreStatements all true ss
AreStatements all after_label (code_statement op os ∷ ss) =
    (op ≢ fadd)
    × (get_instuction_count op ≡ length os)
    × HasOperand after_label os
    × AreOperands all os
    × AreStatements all false ss
AreStatements all after_label (blank_statement ∷ ss) = AreStatements all after_label ss
AreStatements all after_label (comment_statement ws ∷ ss) =
    AreWords ws × AreStatements all after_label ss

-- The tokens of an operand and the lines of the statements.
abbrev pub operand_token : Operand → Token
operand_token (register n) = register_token n
operand_token (number n) = number_token n
operand_token (label_ref c name) = reference_token c name

abbrev pub operand_tokens : List Operand → List Token
operand_tokens [] = []
operand_tokens (o ∷ os) = operand_token o ∷ operand_tokens os

abbrev pub comment_tokens : List Bytes → List Token
comment_tokens [] = []
comment_tokens (w ∷ ws) = word_token w ∷ comment_tokens ws

abbrev pub statement_line : Statement → Line
statement_line (label_statement c name) = label_line (c ∷ name)
statement_line (code_statement op os) = code_line (mnemonic op) (operand_tokens os)
statement_line blank_statement = blank_line
statement_line (comment_statement ws) = comment_line (comment_tokens ws)

abbrev pub statement_lines : List Statement → List Line
statement_lines [] = []
statement_lines (s ∷ ss) = statement_line s ∷ statement_lines ss
