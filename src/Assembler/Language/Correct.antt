-- ===== src/Assembler/Language/Correct.antt =====
-- The assembler does what the language says.
use c_at.Assembler.Line.{Build}
use c_at.Assembler.Language.Defs.{statement_lines, AreStatements, compile, Statement}
use c_at.Assembler.Language.Text.{
  source_pieces, source_pieces-ArePieces, source_pieces-tokens, source_text,
}
use c_at.Assembler.Program.{assemble_source, program_limit, max_size}
use c_at.Assembler.Language.Labels.{
  find_address-label_list, statement_lines-Tidy, code_list-compile_from,
}
use c_at.Assembler.Lines.Defs.{label_list, code_count}
use c_at.Tokenizer.Pieces.{pieces_tokens}
use c_at.Tokenizer.Next.{tokens_block_size}
use c_at.Assembler.Whole.{assemble_source-pieces_text}
use c_at.Assembler.Labels.{label_limit}
use c_at.Tokenizer.Stream.{IsZeroed}
use c_at.Assembler.Language.Operands.{AreClear}
use c_at.Base.{◌∙◌, ok, ◌≡◌, ◌≤◌, ◌<◌, length, false, List, ℕ}

-- The text of a list of statements, which are labels, instructions, empty lines and comments of
-- words, is assembled to the instructions that the statements stand for, where a reference stands
-- for the number of instructions above the first label with the name. Registers are below 16,
-- numbers below 10000, and references have up to three characters and a label. An instruction is
-- not `fadd`, has as many operands as it takes, and has one at least where a label stands above
-- it with no instruction in between. Words fit their array, the text is shorter than 2048, with
-- at most 1024 tokens, 128 labels and 128 instructions, and the uninitialised arrays of the
-- tokenizer and members `is_value` are 0.
pub assemble_source-source_text :
    (b : Build) (residue : ℕ → ℕ → ℕ) (ss : List Statement)
    → IsZeroed residue
    → ((lc : ℕ) → AreClear (b.junk lc))
    → AreStatements ss false ss
    → length (source_text ss) < max_size
    → length (pieces_tokens (source_pieces ss)) ≤ tokens_block_size
    → length (label_list 0 (statement_lines ss)) ≤ label_limit
    → code_count (statement_lines ss) ≤ program_limit
    → assemble_source b residue (source_text ss) ≡ ok (compile b ss)
assemble_source-source_text b residue ss zeroed clear h short room labels code =
    assemble_source-pieces_text b residue (source_pieces ss) (statement_lines ss) zeroed
      (source_pieces-ArePieces ss false ss h) (source_pieces-tokens ss)
      (statement_lines-Tidy ss false ss h) short room labels code
    ∙ code_list-compile_from b (label_list 0 (statement_lines ss)) ss 0 false ss
        (λ n. find_address-label_list n 0 ss) clear h
