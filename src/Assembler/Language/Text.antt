-- ===== src/Assembler/Language/Text.antt =====
-- The text of a program.
use c_at.Assembler.Language.Defs.{
  Statement, statement_lines, IsOperand, blank_statement, number, label_ref, AreOperands,
  operand_tokens, label_statement, comment_tokens, comment_statement, code_statement, register,
  AreStatements, Operand,
}
use c_at.Assembler.Line.Registers.{register_token, register_text}
use c_at.Tokenizer.Next.{next_symbol, word_character}
use c_at.Tokenizer.Pieces.{
  tab_piece, blank_piece, number_piece, word_piece, pieces_tokens, IsPiece, pieces_text, ArePieces,
  hash_piece, line_end_piece, colon_piece, Piece, IsNumber,
}
use c_at.Tokenizer.Defs.{
  symbol_colon, Token, bare, is_character, symbol_hash, symbol_expression_end, is_number,
}
use c_at.Assembler.Line.Constants.{number_text, number_token}
use c_at.Assembler.Lines.Defs.{lines_tokens, word_token}
use c_at.Assembler.Keywords.Mnemonics.{mnemonic}
use c_at.Inst.Defs.{halt, Inst}
use c_at.Tokenizer.Stream.{IsWord, AreWords}
use c_at.Assembler.Line.Labels.{reference, reference_token}
use c_at.Base.{◌∙◌, refl, true, false, ap, ◌++◌, Bool, ℕ, arith, ◌≡◌, [], Bytes, ◌∷◌, List}
use c_at.Assembler.Source.{register_text-IsWord}

abbrev pub operand_piece : Operand → Piece
operand_piece (register n) = word_piece (register_text n)
operand_piece (number n) = number_piece (number_text n)
operand_piece (label_ref c name) = word_piece (reference (c ∷ name))

-- Operands with a blank in front of each, and the end of the line.
abbrev pub operand_pieces : List Operand → List Piece → List Piece
operand_pieces [] rest = line_end_piece ∷ rest
operand_pieces (o ∷ os) rest = blank_piece ∷ operand_piece o ∷ operand_pieces os rest

abbrev pub comment_pieces : List Bytes → List Piece → List Piece
comment_pieces [] rest = line_end_piece ∷ rest
comment_pieces (w ∷ ws) rest = blank_piece ∷ word_piece w ∷ comment_pieces ws rest

-- `name:`, a tab and an instruction, an empty line, or a comment behind `#`.
abbrev pub source_pieces : List Statement → List Piece
source_pieces [] = []
source_pieces (label_statement c name ∷ ss) =
    word_piece (c ∷ name) ∷ colon_piece ∷ line_end_piece ∷ source_pieces ss
source_pieces (code_statement op os ∷ ss) =
    tab_piece ∷ word_piece (mnemonic op) ∷ operand_pieces os (source_pieces ss)
source_pieces (blank_statement ∷ ss) = line_end_piece ∷ source_pieces ss
source_pieces (comment_statement ws ∷ ss) = hash_piece ∷ comment_pieces ws (source_pieces ss)

abbrev pub source_text : List Statement → Bytes
source_text ss = pieces_text (source_pieces ss)

operand_pieces-tokens :
    (os : List Operand) (rest : List Piece)
    → pieces_tokens (operand_pieces os rest)
      ≡ (operand_tokens os ++ bare symbol_expression_end ∷ []) ++ pieces_tokens rest
operand_pieces-tokens [] rest = refl
operand_pieces-tokens (register n ∷ os) rest =
    ap (◌∷◌ (register_token n)) (operand_pieces-tokens os rest)
operand_pieces-tokens (number n ∷ os) rest =
    ap (◌∷◌ (number_token n)) (operand_pieces-tokens os rest)
operand_pieces-tokens (label_ref c name ∷ os) rest =
    ap (◌∷◌ (reference_token c name)) (operand_pieces-tokens os rest)

comment_pieces-tokens :
    (ws : List Bytes) (rest : List Piece)
    → pieces_tokens (comment_pieces ws rest)
      ≡ (comment_tokens ws ++ bare symbol_expression_end ∷ []) ++ pieces_tokens rest
comment_pieces-tokens [] rest = refl
comment_pieces-tokens (w ∷ ws) rest = ap (◌∷◌ (word_token w)) (comment_pieces-tokens ws rest)

-- The tokens of the text are those of the lines.
pub source_pieces-tokens :
    (ss : List Statement) → pieces_tokens (source_pieces ss) ≡ lines_tokens (statement_lines ss)
source_pieces-tokens [] = refl
source_pieces-tokens (label_statement c name ∷ ss) =
    ap
      (λ (ts : List Token).
        word_token (c ∷ name) ∷ bare symbol_colon ∷ bare symbol_expression_end ∷ ts)
      (source_pieces-tokens ss)
source_pieces-tokens (code_statement op os ∷ ss) = ap (◌∷◌ (word_token (mnemonic op))) (
    operand_pieces-tokens os (source_pieces ss)
    ∙ ap (◌++◌ (operand_tokens os ++ bare symbol_expression_end ∷ [])) (source_pieces-tokens ss))
source_pieces-tokens (blank_statement ∷ ss) =
    ap (◌∷◌ (bare symbol_expression_end)) (source_pieces-tokens ss)
source_pieces-tokens (comment_statement ws ∷ ss) = ap (◌∷◌ (bare symbol_hash)) (
    comment_pieces-tokens ws (source_pieces ss)
    ∙ ap (◌++◌ (comment_tokens ws ++ bare symbol_expression_end ∷ [])) (source_pieces-tokens ss))

mnemonic-IsWord : (op : Inst) → IsWord (mnemonic op)
unfolding mnemonic word_character is_character is_number
mnemonic-IsWord halt = ground arith
mnemonic-IsWord _ = ground arith

number_text-IsNumber : (n : ℕ) → IsNumber (number_text n)
unfolding is_number
number_text-IsNumber n = ground arith

-- A piece before a character that ends it.
operand_piece-IsPiece :
    (all : List Statement) (o : Operand) (rest : Bytes)
    → IsOperand all o
    → word_character (next_symbol rest) ≡ false
    → IsPiece (operand_piece o) rest
unfolding word_character is_character is_number
operand_piece-IsPiece all (register n) rest h stop = (register_text-IsWord n h, stop)
operand_piece-IsPiece all (number n) rest h stop = (number_text-IsNumber n, ground (arith, stop))
operand_piece-IsPiece all (label_ref c name) rest h stop =
    ((refl, (ground (arith, h.0.0), h.0.1), omega (arith, h.1)), stop)

operand_pieces-stop :
    (os : List Operand) (rest : List Piece)
    → word_character (next_symbol (pieces_text (operand_pieces os rest))) ≡ false
unfolding word_character is_character is_number next_symbol
operand_pieces-stop [] rest = refl
operand_pieces-stop (o ∷ os) rest = refl

operand_pieces-ArePieces :
    (all : List Statement) (os : List Operand) (rest : List Piece)
    → AreOperands all os
    → ArePieces rest
    → ArePieces (operand_pieces os rest)
operand_pieces-ArePieces all [] rest h more = (tt, more)
operand_pieces-ArePieces all (o ∷ os) rest h more = (
  tt,
  (
    operand_piece-IsPiece all o _ h.0 (operand_pieces-stop os rest),
    operand_pieces-ArePieces all os rest h.1 more,
  ),
)

comment_pieces-stop :
    (ws : List Bytes) (rest : List Piece)
    → word_character (next_symbol (pieces_text (comment_pieces ws rest))) ≡ false
unfolding word_character is_character is_number next_symbol
comment_pieces-stop [] rest = refl
comment_pieces-stop (w ∷ ws) rest = refl

comment_pieces-ArePieces :
    (ws : List Bytes) (rest : List Piece)
    → AreWords ws
    → ArePieces rest
    → ArePieces (comment_pieces ws rest)
unfolding word_character is_character is_number next_symbol
comment_pieces-ArePieces [] rest h more = (tt, more)
comment_pieces-ArePieces (w ∷ ws) rest h more =
    (tt, ((h.0, comment_pieces-stop ws rest), comment_pieces-ArePieces ws rest h.1 more))

pub source_pieces-ArePieces :
    (all : List Statement) (after_label : Bool) (ss : List Statement)
    → AreStatements all after_label ss
    → ArePieces (source_pieces ss)
unfolding word_character is_character is_number next_symbol
source_pieces-ArePieces all after_label [] h = tt
source_pieces-ArePieces all after_label (label_statement c name ∷ ss) h =
    ((h.0, refl), (tt, (tt, source_pieces-ArePieces all true ss h.1)))
source_pieces-ArePieces all after_label (code_statement op os ∷ ss) h = (
  tt,
  (
    (mnemonic-IsWord op, operand_pieces-stop os (source_pieces ss)),
    operand_pieces-ArePieces all os (source_pieces ss) h.3
        (source_pieces-ArePieces all false ss h.4),
  ),
)
source_pieces-ArePieces all after_label (blank_statement ∷ ss) h =
    (tt, source_pieces-ArePieces all after_label ss h)
source_pieces-ArePieces all after_label (comment_statement ws ∷ ss) h = (
  tt,
  comment_pieces-ArePieces ws (source_pieces ss) h.0
      (source_pieces-ArePieces all after_label ss h.1),
)
