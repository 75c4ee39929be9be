-- ===== src/Tokenizer/Pieces.antt =====
-- The stream of tokens of a text made of words, numbers, blanks and the signs of a source line.
use c_at.Base.{
  arith, le→leb, refl, ◌-◌, ◌<◌, ◌≤◌, ◌∙◌, ◌>>=◌, suc, length, ok, ◌+◌, false, true, ◌++◌, [], ℕ,
  ◌≡◌, some, ◌∷◌, List, Bytes,
}
use c_at.Tokenizer.Defs.{
  word_literall_number, is_space, symbol_expression_end, symbol_colon, symbol_hash, bare,
  is_character, word, is_number, Token,
}
use c_at.Tokenizer.Next.{
  token_next, tokens_block_size, symbol_type, literal_size, is_blank, tokens_from, tokenize,
  word_character, symbol_width, next_symbol,
}
use c_at.Tokenizer.Stream.{
  keep_tokens, IsWord, end_step, tokens_from_skip, IsZeroed, word_step, blank_step,
}
use c_at.Tokenizer.Words.{token_next_number, AllPass}

-- A piece of a source text.
pub data Piece : Type 0 where
  word_piece : Bytes → Piece
  number_piece : Bytes → Piece
  blank_piece : Piece
  tab_piece : Piece
  colon_piece : Piece
  hash_piece : Piece
  line_end_piece : Piece

abbrev pub piece_text : Piece → Bytes
piece_text (word_piece w) = w
piece_text (number_piece w) = w
piece_text blank_piece = b' ' ∷ []
piece_text tab_piece = b'\t' ∷ []
piece_text colon_piece = b':' ∷ []
piece_text hash_piece = b'#' ∷ []
piece_text line_end_piece = b'\n' ∷ []

abbrev pub pieces_text : List Piece → Bytes
pieces_text [] = []
pieces_text (p ∷ ps) = piece_text p ++ pieces_text ps

-- The tokens before those of the rest; a blank has none.
abbrev pub piece_tokens : Piece → List Token → List Token
piece_tokens (word_piece w) ts = record { literall = some w; kind = word } ∷ ts
piece_tokens (number_piece w) ts = record { literall = some w; kind = word_literall_number } ∷ ts
piece_tokens blank_piece ts = ts
piece_tokens tab_piece ts = ts
piece_tokens colon_piece ts = bare symbol_colon ∷ ts
piece_tokens hash_piece ts = bare symbol_hash ∷ ts
piece_tokens line_end_piece ts = bare symbol_expression_end ∷ ts

abbrev pub pieces_tokens : List Piece → List Token
pieces_tokens [] = []
pieces_tokens (p ∷ ps) = piece_tokens p (pieces_tokens ps)

-- Digits, with room for the NUL.
abbrev pub IsNumber : Bytes → Type 0
IsNumber [] = ⊥
IsNumber (c ∷ w) = (is_number c ≡ true) × AllPass is_number w × (suc (length w) < literal_size)

-- A piece before a text: a word or a number ends where it ends.
abbrev pub IsPiece : Piece → Bytes → Type 0
IsPiece (word_piece w) rest = IsWord w × (word_character (next_symbol rest) ≡ false)
IsPiece (number_piece w) rest = IsNumber w × (is_number (next_symbol rest) ≡ false)
IsPiece p rest = Unit

abbrev pub ArePieces : List Piece → Type 0
ArePieces [] = Unit
ArePieces (p ∷ ps) = IsPiece p (pieces_text ps) × ArePieces ps

number_step :
    (residue : ℕ → ℕ → ℕ) (pos c : ℕ) (w rest : Bytes)
    → IsZeroed residue
    → IsNumber (c ∷ w)
    → is_number (next_symbol rest) ≡ false
    → tokens_from residue 0 pos (c ∷ (w ++ rest)) ≡ (
        tokens_from residue 0 (pos + 1 + length w) rest >>= λ ts.
        ok (record { literall = some (c ∷ w); kind = word_literall_number } ∷ ts))
unfolding tokens_from is_blank
number_step residue pos c w rest zeroed h stop =
    let length_of : suc (length w) - 1 ≡ length w = omega arith in
    rw (
      token_next_number (residue pos) c w rest h.0 h.1 stop h.2 (zeroed pos (suc (length w))),
      length_of,
      tokens_from_skip residue (pos + 1) w rest,
    )

sign_step :
    (residue : ℕ → ℕ → ℕ) (pos : ℕ) (rest : Bytes)
    → (tokens_from residue 0 pos (b':' ∷ rest)
        ≡ (tokens_from residue 0 (pos + 1) rest >>= λ ts. ok (bare symbol_colon ∷ ts)))
      × (tokens_from residue 0 pos (b'#' ∷ rest)
          ≡ (tokens_from residue 0 (pos + 1) rest >>= λ ts. ok (bare symbol_hash ∷ ts)))
      × (tokens_from residue 0 pos (b'\t' ∷ rest) ≡ tokens_from residue 0 (pos + 1) rest)
unfolding tokens_from token_next is_space is_number is_character symbol_type symbol_width is_blank
sign_step residue pos rest = (refl, refl, keep_tokens (tokens_from residue 0 (pos + 1) rest))

-- From any position.
tokens_from-pieces_text :
    (residue : ℕ → ℕ → ℕ) (pos : ℕ) (ps : List Piece)
    → IsZeroed residue
    → ArePieces ps
    → tokens_from residue 0 pos (pieces_text ps) ≡ ok (pieces_tokens ps)
unfolding tokens_from
tokens_from-pieces_text residue pos [] zeroed h = refl
tokens_from-pieces_text residue pos (word_piece [] ∷ ps) zeroed h = absurd h.0.0
tokens_from-pieces_text residue pos (word_piece (c ∷ w) ∷ ps) zeroed h =
    word_step residue pos c w (pieces_text ps) zeroed h.0.0 h.0.1
    ∙ rw (tokens_from-pieces_text residue (pos + 1 + length w) ps zeroed h.1) refl
tokens_from-pieces_text residue pos (number_piece [] ∷ ps) zeroed h = absurd h.0.0
tokens_from-pieces_text residue pos (number_piece (c ∷ w) ∷ ps) zeroed h =
    number_step residue pos c w (pieces_text ps) zeroed h.0.0 h.0.1
    ∙ rw (tokens_from-pieces_text residue (pos + 1 + length w) ps zeroed h.1) refl
tokens_from-pieces_text residue pos (blank_piece ∷ ps) zeroed h =
    blank_step residue pos (pieces_text ps)
    ∙ tokens_from-pieces_text residue (pos + 1) ps zeroed h.1
tokens_from-pieces_text residue pos (tab_piece ∷ ps) zeroed h =
    (sign_step residue pos (pieces_text ps)).2
    ∙ tokens_from-pieces_text residue (pos + 1) ps zeroed h.1
tokens_from-pieces_text residue pos (colon_piece ∷ ps) zeroed h =
    (sign_step residue pos (pieces_text ps)).0
    ∙ rw (tokens_from-pieces_text residue (pos + 1) ps zeroed h.1) refl
tokens_from-pieces_text residue pos (hash_piece ∷ ps) zeroed h =
    (sign_step residue pos (pieces_text ps)).1
    ∙ rw (tokens_from-pieces_text residue (pos + 1) ps zeroed h.1) refl
tokens_from-pieces_text residue pos (line_end_piece ∷ ps) zeroed h =
    end_step residue pos (pieces_text ps)
    ∙ rw (tokens_from-pieces_text residue (pos + 1) ps zeroed h.1) refl

-- A text of words, numbers, blanks, tabs, colons, hashes and line ends, with at most 1024 tokens,
-- is read as one token for each of these but the blanks and tabs, with the characters of the
-- words and numbers, where the uninitialised arrays hold zeros, and where a word or a number is
-- followed by another character and leaves room in its array.
pub tokenize-pieces_text :
    (residue : ℕ → ℕ → ℕ) (ps : List Piece)
    → IsZeroed residue
    → ArePieces ps
    → length (pieces_tokens ps) ≤ tokens_block_size
    → tokenize residue (pieces_text ps) ≡ ok (pieces_tokens ps)
unfolding tokenize
tokenize-pieces_text residue ps zeroed h room =
    rw (tokens_from-pieces_text residue 0 ps zeroed h, le→leb _ _ room)
