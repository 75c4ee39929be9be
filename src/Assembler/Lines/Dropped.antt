-- ===== src/Assembler/Lines/Dropped.antt =====
-- A one-word instruction straight below a label, as in the programs that the assembler is meant for.
use c_at.Base.{◌∙◌, update, ◌∷◌, ◌++◌, ◌≤◌, [], true, ◌≡◌, Bytes, ℕ, List, refl, arith}
use c_at.Tokenizer.Defs.{Token, bare, symbol_colon}
use c_at.Assembler.Lines.Second.{keep_program, between, assemble_label_line, assemble_lines}
use c_at.Assembler.Program.{
  assemble_token, assemble_program, assemble_end, program_limit, assemble_tokens,
}
use c_at.Inst.Defs.{Instruction}
use c_at.Assembler.Lines.Defs.{
  code_count, code_list, Line, lines_tokens, word_token, code_line, label_line, line_tokens, Tidy,
}
use c_at.Assembler.Labels.{zero_token, is_line_end, looks_like_label, is_colon, is_word, is_hash}
use c_at.Assembler.Line.{Build, Label}

-- The token of the label's colon still stands behind the word of the next line.
drop_code_line :
    (b : Build) (all : List Label) (tk : ℕ → Token) (program : List Instruction) (w : Bytes)
    (rest : List Token)
    → is_colon (tk 1).kind ≡ true
    → assemble_tokens b all (between b all tk program) (line_tokens (code_line w []) ++ rest)
      ≡ assemble_tokens b all (between b all (update tk 0 (word_token w)) program) rest
unfolding assemble_tokens assemble_token assemble_end looks_like_label is_line_end is_hash is_word
drop_code_line b all tk program w rest colon = rw colon refl

-- `assemble_program` drops an instruction without operands that stands straight below a label at
-- the top, whatever its name: what it gives is the program of the lines behind it, which are tidy
-- behind a label and have at most 128 instructions.
pub assemble_program-drops :
    (b : Build) (all : List Label) (n w : Bytes) (ls : List Line)
    → Tidy true ls
    → code_count ls ≤ program_limit
    → assemble_program b all (lines_tokens (label_line n ∷ code_line w [] ∷ ls))
      ≡ code_list b all 0 ls
unfolding assemble_program is_colon
assemble_program-drops b all n w ls h room =
    let tk1 : ℕ → Token =
      update (update (λ _. zero_token) 0 (word_token n)) 1 (bare symbol_colon) in
    let tk2 : ℕ → Token = update tk1 0 (word_token w) in
    rw
      (
        assemble_label_line b all (λ _. zero_token) []
            (line_tokens (code_line w []) ++ lines_tokens ls) n,
        drop_code_line b all tk1 [] w (lines_tokens ls) refl,
      )
      (assemble_lines b all ls true tk2 [] (λ e. grind arith) h (omega arith)
        ∙ keep_program (code_list b all 0 ls))
