-- ===== src/Examples/Lines.antt =====
-- Examples of assembled lines and programs.
use c_at.Base.{update, ◌>>=◌, str_eq, List, ℕ, ◌∷◌, codes, ok, some, ◌≡◌, false, [], refl, arith}
use c_at.Assembler.Line.{assemble_line}
use c_at.Assembler.Lines.Defs.{word_token, Tidy, label_line, code_line, lines_tokens, code_list}
use c_at.Assembler.Labels.{index_labels, is_line_end, is_colon, is_hash}
use c_at.Assembler.Emit.{is_float_instr, assemble, get_instuction_count}
use c_at.Examples.Data.{test_machine, test_host, test_build, test_reg, test_lines}
use c_at.Assembler.Lines.Dropped.{assemble_program-drops}
use c_at.Assembler.Program.{assemble_source, assemble_program}
use c_at.Assembler.Lines.First.{index_labels-lines}
use c_at.Assembler.Line.Registers.{dispatch-assemble_line_add, register_token}
use c_at.Tokenizer.Defs.{
  word, bare, is_character, is_number, word_literall_number, symbol_expression_end,
}
use c_at.Tokenizer.Next.{tokenize, next_symbol, word_character}
use c_at.Assembler.Keywords.Mnemonics.{mnemonic}
use c_at.Inst.Defs.{operation_of, add, fsub, jmp, set}
use c_at.Assembler.Line.Labels.{reference_token, assemble_line_stale_reference}
use c_at.Assembler.Operands.{Reg}
use c_at.Tokenizer.Pieces.{
  word_piece, tokenize-pieces_text, ArePieces, hash_piece, number_piece, colon_piece, blank_piece,
  line_end_piece, tab_piece, Piece,
}
use c_at.Assembler.Whole.{assemble_source-pieces_text}
use c_at.Assembler.Language.Defs.{
  label_statement, code_statement, register, label_ref, number, Statement, blank_statement,
  comment_statement,
}
use c_at.Assembler.Language.Correct.{assemble_source-source_text}
use c_at.Assembler.Line.Floats.{assemble_line_float_registers, float_token}
use c_at.Exec.Step.{dispatch}
use c_at.Assembler.Lines.Second.{assemble_program-lines}

test_lines-Tidy : Tidy false test_lines
unfolding is_line_end is_hash is_colon
test_lines-Tidy = (
  (refl, tt),
  ((refl, (refl, refl, tt), omega arith), ((refl, (refl, refl, tt), omega arith), (tt, tt))),
)

index_labels-lines_example :
    index_labels (lines_tokens test_lines)
    ≡ ok (
        record { name = some (codes "main"); address = 0 }
        ∷ record { name = some (codes "last"); address = 1 }
        ∷ [])
index_labels-lines_example = index_labels-lines test_lines test_lines-Tidy (omega arith)

assemble_program-drops_example :
    assemble_program test_build [] (
      lines_tokens (
        label_line (codes "reccon")
        ∷ code_line (codes "rec") []
        ∷ code_line (codes "push") (register_token 3 ∷ [])
        ∷ []))
    ≡ code_list test_build [] 0 (code_line (codes "push") (register_token 3 ∷ []) ∷ [])
unfolding is_line_end is_hash is_colon
assemble_program-drops_example =
    assemble_program-drops test_build [] (codes "reccon") (codes "rec")
      (code_line (codes "push") (register_token 3 ∷ []) ∷ [])
      ((refl, (refl, refl, tt), omega arith), tt) (omega arith)

abbrev stale_reg : ℕ → Reg
stale_reg _ = record test_reg { is_value = 1; value_literall = 77 }

assemble_line_stale_reference_example :
    assemble_line test_build stale_reg []
      (record { literall = some (mnemonic jmp); kind = word })
      (reference_token b'e' (codes "nd") ∷ [])
    ≡ ok (assemble jmp 0 0 0 0 77)
unfolding get_instuction_count is_float_instr
assemble_line_stale_reference_example =
    assemble_line_stale_reference test_build stale_reg [] jmp b'e' (codes "nd") (λ e. cc) refl refl
      (omega arith) (omega arith)

-- The text of `test_lines`.
abbrev test_pieces : List Piece
test_pieces =
    hash_piece
    ∷ blank_piece
    ∷ word_piece (codes "counts")
    ∷ line_end_piece
    ∷ word_piece (codes "main")
    ∷ colon_piece
    ∷ line_end_piece
    ∷ tab_piece
    ∷ word_piece (codes "inc")
    ∷ blank_piece
    ∷ word_piece (codes "r3")
    ∷ line_end_piece
    ∷ line_end_piece
    ∷ word_piece (codes "last")
    ∷ colon_piece
    ∷ line_end_piece
    ∷ tab_piece
    ∷ word_piece (codes "push")
    ∷ blank_piece
    ∷ word_piece (codes "r3")
    ∷ line_end_piece
    ∷ tab_piece
    ∷ word_piece (codes "halt")
    ∷ line_end_piece
    ∷ []

-- A register and a number, as in `set r3 12`.
abbrev set_pieces : List Piece
set_pieces =
    word_piece (codes "set")
    ∷ blank_piece
    ∷ word_piece (codes "r3")
    ∷ blank_piece
    ∷ number_piece (codes "12")
    ∷ line_end_piece
    ∷ []

set_pieces-ArePieces : ArePieces set_pieces
unfolding is_character is_number word_character next_symbol
set_pieces-ArePieces = ground arith

test_pieces-ArePieces : ArePieces test_pieces
unfolding is_character is_number word_character next_symbol
test_pieces-ArePieces = ground arith

tokenize-pieces_text_example :
    tokenize (λ _ _. 0) (codes "set r3 12\n")
    ≡ ok (
        word_token (codes "set")
        ∷ word_token (codes "r3")
        ∷ record { literall = some (codes "12"); kind = word_literall_number }
        ∷ bare symbol_expression_end
        ∷ [])
tokenize-pieces_text_example =
    tokenize-pieces_text (λ _ _. 0) set_pieces (λ _ _. refl) set_pieces-ArePieces (omega arith)

assemble_source-pieces_text_example :
    assemble_source test_build
      (λ _ _. 0)
      (codes "# counts\nmain:\n\tinc r3\n\nlast:\n\tpush r3\n\thalt\n")
    ≡ code_list test_build
        (record { name = some (codes "main"); address = 0 }
          ∷ record { name = some (codes "last"); address = 1 }
          ∷ [])
        0
        test_lines
assemble_source-pieces_text_example =
    assemble_source-pieces_text test_build (λ _ _. 0) test_pieces test_lines (λ _ _. refl)
      test_pieces-ArePieces refl test_lines-Tidy (omega arith) (omega arith) (omega arith)
      (omega arith)

assemble_line_float_registers_example :
    assemble_line test_build
      (λ _. test_reg)
      []
      (record { literall = some (mnemonic fsub); kind = word })
      (float_token 3 ∷ float_token 12 ∷ float_token 5 ∷ [])
    ≡ ok (assemble fsub 0 0 0 0 0)
unfolding get_instuction_count is_float_instr
assemble_line_float_registers_example =
    assemble_line_float_registers test_build (λ _. test_reg) [] fsub 3 12 5 (λ e. cc) refl refl
      (omega arith) (omega arith) (omega arith)

-- A comment, a label, an instruction with a number, and a jump back.
abbrev test_statements : List Statement
test_statements =
    comment_statement (codes "ever" ∷ [])
    ∷ label_statement b'u' (codes "p")
    ∷ code_statement set (register 12 ∷ number 1280 ∷ [])
    ∷ blank_statement
    ∷ code_statement jmp (label_ref b'u' (codes "p") ∷ [])
    ∷ []

assemble_source-source_text_example :
    assemble_source test_build (λ _ _. 0) (codes "# ever\nup:\n\tset r12 1280\n\n\tjmp Lup\n")
    ≡ ok (assemble set 12 0 0 0 1280 ∷ assemble jmp 0 0 0 0 0 ∷ [])
unfolding mnemonic get_instuction_count str_eq is_character word_character is_number assemble
    is_float_instr
assemble_source-source_text_example =
    assemble_source-source_text test_build (λ _ _. 0) test_statements (λ _ _. refl) (λ _ _. refl)
      (
        ((refl, (refl, (refl, (refl, tt))), omega arith), tt),
        (
          ((refl, (refl, tt), omega arith)),
          (
            λ e. cc,
            refl,
            tt,
            (omega arith, (omega arith, tt)),
            (
              λ e. cc,
              refl,
              tt,
              (((refl, (refl, tt), omega arith), omega arith, (0, refl)), tt),
              tt,
            ),
          ),
        ),
      )
      (omega arith) (omega arith) (omega arith) (omega arith)

dispatch-assemble_line_add_example :
    (assemble_line test_build
        (λ _. test_reg)
        []
        (record { literall = some (mnemonic add); kind = word })
        (register_token 1 ∷ register_token 2 ∷ register_token 3 ∷ [])
      >>= λ i. dispatch test_host (operation_of i) i test_machine)
    ≡ ok (record test_machine { iregisters = update test_machine.iregisters 1 5 })
dispatch-assemble_line_add_example =
    dispatch-assemble_line_add test_host test_build (λ _. test_reg) [] test_machine 1 2 3
      (omega arith) (omega arith) (omega arith)

assemble_program-lines_example :
    assemble_program test_build [] (lines_tokens test_lines) ≡ code_list test_build [] 0 test_lines
assemble_program-lines_example =
    assemble_program-lines test_build [] test_lines test_lines-Tidy (omega arith)
