-- ===== src/Assembler/Whole.antt =====
-- From the text of a file with several lines, comments and labels to its program.
use c_at.Tokenizer.Defs.{is_number}
use c_at.Assembler.Program.{max_size, assemble_source, program_limit}
use c_at.Tokenizer.Pieces.{
  piece_text, line_end_piece, number_piece, colon_piece, blank_piece, ArePieces, pieces_text, Piece,
  IsPiece, tokenize-pieces_text, tab_piece, hash_piece, word_piece, pieces_tokens,
}
use c_at.Tokenizer.Stream.{IsZeroed}
use c_at.Assembler.Source.{is_plain, file_text-plain, AllPass-append, IsWord-plain}
use c_at.Assembler.Lines.Second.{assemble_program-lines}
use c_at.Tokenizer.Next.{tokens_block_size}
use c_at.Assembler.Labels.{label_limit}
use c_at.Assembler.Lines.First.{index_labels-lines}
use c_at.Assembler.Lines.Defs.{Tidy, Line, code_count, code_list, label_list, lines_tokens}
use c_at.Tokenizer.Words.{AllPass}
use c_at.Assembler.Line.{Build}
use c_at.Base.{◌≤◌, ◌<◌, length, refl, false, [], arith, ◌≡◌, ◌∷◌, ℕ, List, Bytes}

digits_are_plain : (w : Bytes) → AllPass is_number w → AllPass is_plain w
unfolding is_number
digits_are_plain [] h = tt
digits_are_plain (c ∷ w) h = (ground (arith, h.0), digits_are_plain w h.1)

piece-plain : (p : Piece) (rest : Bytes) → IsPiece p rest → AllPass is_plain (piece_text p)
unfolding is_number
piece-plain (word_piece w) rest h = IsWord-plain w h.0
piece-plain (number_piece []) rest h = absurd h.0
piece-plain (number_piece (c ∷ w)) rest h = digits_are_plain (c ∷ w) (h.0.0, h.0.1)
piece-plain blank_piece rest h = (refl, tt)
piece-plain tab_piece rest h = (refl, tt)
piece-plain colon_piece rest h = (refl, tt)
piece-plain hash_piece rest h = (refl, tt)
piece-plain line_end_piece rest h = (refl, tt)

pieces_text-plain : (ps : List Piece) → ArePieces ps → AllPass is_plain (pieces_text ps)
pieces_text-plain [] h = tt
pieces_text-plain (p ∷ ps) h =
    AllPass-append is_plain (piece_text p) (pieces_text ps) (piece-plain p (pieces_text ps) h.0)
      (pieces_text-plain ps h.1)

-- A text of words, numbers, blanks, tabs, colons, hashes and line ends whose tokens are those of
-- tidy lines is assembled to what the instructions assemble to, each from its own line, in their
-- order and with every label at the number of instructions above it, or to the first fault of a
-- line, where the arrays of the tokenizer hold zeros. The text is shorter than 2048, has at most
-- 1024 tokens, 128 labels and 128 instructions, and a word or a number is followed by another
-- character and leaves room in its array.
pub assemble_source-pieces_text :
    (b : Build) (residue : ℕ → ℕ → ℕ) (ps : List Piece) (ls : List Line)
    → IsZeroed residue
    → ArePieces ps
    → pieces_tokens ps ≡ lines_tokens ls
    → Tidy false ls
    → length (pieces_text ps) < max_size
    → length (pieces_tokens ps) ≤ tokens_block_size
    → length (label_list 0 ls) ≤ label_limit
    → code_count ls ≤ program_limit
    → assemble_source b residue (pieces_text ps) ≡ code_list b (label_list 0 ls) 0 ls
unfolding assemble_source
assemble_source-pieces_text b residue ps ls zeroed h same tidy short room labels code =
    rw
      (
        file_text-plain (pieces_text ps) (pieces_text-plain ps h) short,
        tokenize-pieces_text residue ps zeroed h room,
        same,
        index_labels-lines ls tidy labels,
      )
      (assemble_program-lines b (label_list 0 ls) ls tidy code)
