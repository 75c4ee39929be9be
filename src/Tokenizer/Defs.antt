-- ===== src/Tokenizer/Defs.antt =====
-- `TokenType`, `Token` and the character tests of src/tokenizer.c.
use c_at.Base.{ℕ, Bool, ◌&&◌, ◌||◌, ◌==◌, leb, Option, none, Bytes}

-- The enumerators without the prefix `TOKEN_`.
pub data TokenType : Type 0 where
  binary_operator_plus binary_operator_plusplus binary_operator_minus : TokenType
  binary_operator_minusminus binary_operator_multiply binary_operator_devide : TokenType
  binary_operator_mod binary_operator_asign binary_operator_equal : TokenType
  binary_operator_equal_or_less binary_operator_equal_or_more binary_operator_more : TokenType
  binary_operator_less binary_operator_and binary_operator_or binary_operator_not : TokenType
  symbol_curly_open symbol_curly_close symbol_paren_open symbol_paren_close : TokenType
  symbol_square_open symbol_square_close symbol_dot symbol_colon symbol_comma : TokenType
  symbol_at symbol_dollar symbol_percent symbol_question_mark : TokenType
  symbol_expression_end symbol_hash : TokenType
  word word_literall_number word_literall_string : TokenType
  null space eob : TokenType

-- A null `literall` is `none`.
pub record Token : Type 0 where
  pub literall : Option Bytes
  pub kind : TokenType

-- The token of a symbol.
abbrev pub bare : TokenType → Token
bare t = record { literall = none; kind = t }

unfoldable pub is_character : ℕ → Bool
is_character c = (leb b'A' c && leb c b'Z') || (leb b'a' c && leb c b'z')

unfoldable pub is_space : ℕ → Bool
is_space c = c == b' ' || c == b'\t'

unfoldable pub is_number : ℕ → Bool
is_number c = leb b'0' c && leb c b'9'
