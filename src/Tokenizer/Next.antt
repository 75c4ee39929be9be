-- ===== src/Tokenizer/Next.antt =====
-- `token_next`, on the part of the buffer that begins at `*bp`; beside the token it gives how far
-- `*bp` moves. The local array `word_buffer` is not initialised and no NUL is written behind the
-- word: what the array holds before is the parameter `residue`.
use c_at.Base.{
  ◌++◌, length, leb, zero, suc, false, some, guard, out_of_bounds, [], List, true, ok, ◌>>=◌, ◌==◌,
  ◌||◌, ◌>>◌, fault, ◌∷◌, Result, Bytes, ℕ, ◌+◌, ◌-◌, Bool, if◌then◌else◌,
}
use c_at.Tokenizer.Defs.{
  eob, null, binary_operator_equal, symbol_curly_close, binary_operator_minusminus, bare,
  symbol_colon, Token, TokenType, is_character, word, binary_operator_plusplus,
  symbol_expression_end, binary_operator_minus, symbol_paren_close, is_space, symbol_hash,
  symbol_paren_open, binary_operator_asign, word_literall_number, symbol_dot, symbol_comma, space,
  is_number, symbol_curly_open, binary_operator_plus,
}

-- `DEFAULT_LITERAL_SIZE` and `TOKENS_BLOCK_SIZE`.
abbrev pub literal_size : ℕ
literal_size = 1024

abbrev pub tokens_block_size : ℕ
tokens_block_size = 1024

-- `next_symbol`, at the character before this text. At the end of the buffer stands its NUL.
unfoldable pub next_symbol : Bytes → ℕ
next_symbol [] = 0
next_symbol (c ∷ rest) = c

-- The two loops that read a word or a number: `c` and the characters behind it that pass the test.
-- The NUL at the end of the buffer passes neither test.
unfoldable pub read_run : (ℕ → Bool) → ℕ → Bytes → Bytes
read_run test c [] = c ∷ []
read_run test c (d ∷ rest) = c ∷ (if test d then read_run test d rest else [])

-- What `strlen` and `strcpy` find in `word_buffer` from index `i` on, with `room` places left: the
-- residue up to its first NUL. Without one they run out of the array.
unfoldable pub stale_tail : (ℕ → ℕ) → ℕ → ℕ → Result Bytes
stale_tail residue zero i = fault out_of_bounds
stale_tail residue (suc room) i = elim (residue i == 0) [
  | true ↦ ok []
  | false ↦ stale_tail residue room (i + 1) >>= λ rest. ok (residue i ∷ rest)
]

-- The literal made of the word written to `word_buffer`. A word longer than the array overflows it.
unfoldable pub copy_literal : (ℕ → ℕ) → Bytes → Result Bytes
unfolding stale_tail
copy_literal residue w = do
  guard (leb (length w) literal_size) out_of_bounds
  tail ← stale_tail residue (literal_size - length w) (length w)
  ok (w ++ tail)

unfoldable pub word_character : ℕ → Bool
unfolding is_number is_character
word_character c = is_number c || is_character c

-- The `switch` on a single character; `d` is the next one.
unfoldable pub symbol_type : ℕ → ℕ → TokenType
symbol_type c d =
    if c == b'\n' || c == b';'
    then symbol_expression_end
    else if c == b'+'
    then (if d == b'+' then binary_operator_plusplus else binary_operator_plus)
    else if c == b'-'
    then (if d == b'-' then binary_operator_minusminus else binary_operator_minus)
    else if c == b'='
    then (if d == b'=' then binary_operator_equal else binary_operator_asign)
    else if c == b'('
    then symbol_paren_open
    else if c == b')'
    then symbol_paren_close
    else if c == b'{'
    then symbol_curly_open
    else if c == b'}'
    then symbol_curly_close
    else if c == b'.'
    then symbol_dot
    else if c == b':'
    then symbol_colon
    else if c == b','
    then symbol_comma
    else if c == b'#'
    then symbol_hash
    else null

-- The last `switch`: how many characters the symbol takes.
unfoldable pub symbol_width : TokenType → ℕ
symbol_width binary_operator_plusplus = 2
symbol_width binary_operator_minusminus = 2
symbol_width binary_operator_equal = 2
symbol_width _ = 1

-- A word or number: its literal, and as many characters.
unfoldable pub literal_token : (ℕ → ℕ) → TokenType → Bytes → Result (Token × ℕ)
unfolding copy_literal
literal_token residue t w = do
  l ← copy_literal residue w
  ok (record { literall = some l; kind = t }, length w)

unfoldable pub token_next : (ℕ → ℕ) → Bytes → Result (Token × ℕ)
unfolding is_space is_number is_character word_character literal_token symbol_type symbol_width
    next_symbol read_run
token_next residue [] = ok (bare eob, 0)
token_next residue (c ∷ rest) =
    if is_space c
    then ok (bare space, 1)
    else if is_number c
    then literal_token residue word_literall_number (read_run is_number c rest)
    else if is_character c
    then literal_token residue word (read_run word_character c rest)
    else (let t = symbol_type c (next_symbol rest) in ok (bare t, symbol_width t))

unfoldable pub is_blank : TokenType → Bool
is_blank space = true
is_blank _ = false

-- The loop of `main_assemble` over `token_next` and `tokens_list_append`, which leaves out spaces.
-- The first number counts the characters that the last token has taken beyond its first; the
-- residue of a call may depend on the position.
unfoldable pub tokens_from : (ℕ → ℕ → ℕ) → ℕ → ℕ → Bytes → Result (List Token)
unfolding token_next is_blank
tokens_from residue skip pos [] = ok []
tokens_from residue (suc skip) pos (c ∷ rest) = tokens_from residue skip (pos + 1) rest
tokens_from residue zero pos (c ∷ rest) = token_next (residue pos) (c ∷ rest) >>= λ p.
    tokens_from residue (p.1 - 1) (pos + 1) rest >>= λ ts.
    ok (if is_blank p.0.kind then ts else p.0 ∷ ts)

-- The list has room for `TOKENS_BLOCK_SIZE` tokens.
unfoldable pub tokenize : (ℕ → ℕ → ℕ) → Bytes → Result (List Token)
unfolding tokens_from
tokenize residue buffer = do
  list ← tokens_from residue 0 0 buffer
  guard (leb (length list) tokens_block_size) out_of_bounds
  ok list
