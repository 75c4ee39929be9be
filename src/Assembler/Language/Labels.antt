-- ===== src/Assembler/Language/Labels.antt =====
-- The lines of statements: tidy, with the labels and the instructions of the statements.
use c_at.Inst.Defs.{halt}
use c_at.Assembler.Line.{Label, Build, find_address}
use c_at.Assembler.Lines.Defs.{StaysInLine, Tidy, OperandsFit, code_list, label_list, ArePlain}
use c_at.Assembler.Language.Defs.{
  Statement, label_address, Operand, compile_from, blank_statement, number, operand_token,
  code_statement, AreStatements, register, comment_tokens, HasOperand, label_statement,
  comment_statement, operand_tokens, label_ref, statement_lines,
}
use c_at.Assembler.Emit.{get_instuction_count}
use c_at.Inst.Defs.{Inst}
use c_at.Assembler.Labels.{is_hash, is_line_end, is_colon}
use c_at.Assembler.Language.Operands.{
  length-operand_tokens, AreClear, assemble_line-code_of, AreLabels,
}
use c_at.Base.{
  inr, inl, str_eq, ◌+◌, refl, Bool-cases, arith, [], false, ok, ℕ, true, length, ◌≤◌, ◌∷◌, ◌≡◌,
  Bytes, Bool, List,
}

pub find_address-label_list :
    (n : Bytes) (lc : ℕ) (ss : List Statement)
    → find_address n (label_list lc (statement_lines ss)) ≡ ok (label_address n lc ss)
unfolding find_address
find_address-label_list n lc [] = refl
find_address-label_list n lc (label_statement c name ∷ ss) =
    rw (find_address-label_list n lc ss)
      (elim (Bool-cases (str_eq (c ∷ name) n)) [ inl e ↦ rw e refl | inr e ↦ rw e refl ])
find_address-label_list n lc (code_statement op os ∷ ss) = find_address-label_list n (lc + 1) ss
find_address-label_list n lc (blank_statement ∷ ss) = find_address-label_list n lc ss
find_address-label_list n lc (comment_statement ws ∷ ss) = find_address-label_list n lc ss

operand_token-plain :
    (o : Operand)
    → (is_line_end (operand_token o).kind ≡ false)
      × (is_hash (operand_token o).kind ≡ false)
      × (is_colon (operand_token o).kind ≡ false)
unfolding is_line_end is_hash is_colon
operand_token-plain (register n) = (refl, refl, refl)
operand_token-plain (number n) = (refl, refl, refl)
operand_token-plain (label_ref c name) = (refl, refl, refl)

operand_tokens-ArePlain : (os : List Operand) → ArePlain (operand_tokens os)
operand_tokens-ArePlain [] = tt
operand_tokens-ArePlain (o ∷ os) =
    ((operand_token-plain o).0, (operand_token-plain o).1, operand_tokens-ArePlain os)

get_instuction_count-le : (op : Inst) → get_instuction_count op ≤ 3
unfolding get_instuction_count
get_instuction_count-le halt = omega arith
get_instuction_count-le _ = omega arith

operand_tokens-OperandsFit :
    (after_label : Bool) (os : List Operand)
    → length os ≤ 3
    → HasOperand after_label os
    → OperandsFit after_label (operand_tokens os)
operand_tokens-OperandsFit true [] short h = h
operand_tokens-OperandsFit false [] short h = tt
operand_tokens-OperandsFit true (o ∷ os) short h = (
  (operand_token-plain o).2,
  operand_tokens-ArePlain (o ∷ os),
  omega (arith, length-operand_tokens os),
)
operand_tokens-OperandsFit false (o ∷ os) short h = (
  (operand_token-plain o).2,
  operand_tokens-ArePlain (o ∷ os),
  omega (arith, length-operand_tokens os),
)

comment_tokens-StaysInLine : (ws : List Bytes) → StaysInLine (comment_tokens ws)
unfolding is_line_end
comment_tokens-StaysInLine [] = tt
comment_tokens-StaysInLine (w ∷ ws) = (refl, comment_tokens-StaysInLine ws)

pub statement_lines-Tidy :
    (all : List Statement) (after_label : Bool) (ss : List Statement)
    → AreStatements all after_label ss
    → Tidy after_label (statement_lines ss)
statement_lines-Tidy all after_label [] h = tt
statement_lines-Tidy all after_label (label_statement c name ∷ ss) h =
    statement_lines-Tidy all true ss h.1
statement_lines-Tidy all after_label (code_statement op os ∷ ss) h = (
  operand_tokens-OperandsFit after_label os (omega (arith, h.1, get_instuction_count-le op)) h.2,
  statement_lines-Tidy all false ss h.4,
)
statement_lines-Tidy all after_label (blank_statement ∷ ss) h =
    statement_lines-Tidy all after_label ss h
statement_lines-Tidy all after_label (comment_statement ws ∷ ss) h =
    (comment_tokens-StaysInLine ws, statement_lines-Tidy all after_label ss h.1)

-- The instructions of the lines are those of the statements.
pub code_list-compile_from :
    (b : Build) (labels : List Label) (all : List Statement) (lc : ℕ) (after_label : Bool)
    (ss : List Statement)
    → AreLabels labels all
    → ((lc : ℕ) → AreClear (b.junk lc))
    → AreStatements all after_label ss
    → code_list b labels lc (statement_lines ss) ≡ ok (compile_from b all ss)
code_list-compile_from b labels all lc after_label [] same clear h = refl
code_list-compile_from b labels all lc after_label (label_statement c name ∷ ss) same clear h =
    code_list-compile_from b labels all lc true ss same clear h.1
code_list-compile_from b labels all lc after_label (code_statement op os ∷ ss) same clear h =
    rw (assemble_line-code_of b (b.junk lc) labels all op os h.0 h.1 same (clear lc) h.3)
      (rw (code_list-compile_from b labels all (lc + 1) false ss same clear h.4) refl)
code_list-compile_from b labels all lc after_label (blank_statement ∷ ss) same clear h =
    code_list-compile_from b labels all lc after_label ss same clear h
code_list-compile_from b labels all lc after_label (comment_statement ws ∷ ss) same clear h =
    code_list-compile_from b labels all lc after_label ss same clear h.1
