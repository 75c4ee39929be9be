-- ===== src/Tokenizer/Lists.antt =====
-- `token_is_subset`, which nothing calls, and `tokens_list_append` of src/tokenizer.c.
use c_at.Base.{
  some, fault, ◌≤◌, ◌>>=◌, none, ◌≡◌, refl, ok, suc, zero, get_elem?, ◌+◌, ◌==◌, ◌∷◌, ◌++◌, [],
  update, true, false, arith, out_of_bounds, List, Result, Bool, ℕ,
}
use c_at.Tokenizer.Defs.{
  eob, binary_operator_multiply, symbol_paren_close, word_literall_string,
  binary_operator_equal_or_less, symbol_question_mark, symbol_expression_end, binary_operator_minus,
  symbol_curly_open, null, binary_operator_devide, symbol_square_close, symbol_curly_close,
  binary_operator_more, binary_operator_equal_or_more, symbol_dot, binary_operator_equal, word,
  binary_operator_and, symbol_colon, symbol_percent, symbol_paren_open, symbol_square_open,
  binary_operator_asign, symbol_at, binary_operator_less, binary_operator_plusplus,
  binary_operator_not, symbol_dollar, binary_operator_minusminus, binary_operator_mod,
  word_literall_number, space, binary_operator_or, symbol_hash, symbol_comma, binary_operator_plus,
  Token, TokenType,
}

-- The value of the enumeration in C.
unfoldable pub type_code : TokenType → ℕ
type_code binary_operator_plus = 0
type_code binary_operator_plusplus = 1
type_code binary_operator_minus = 2
type_code binary_operator_minusminus = 3
type_code binary_operator_multiply = 4
type_code binary_operator_devide = 5
type_code binary_operator_mod = 6
type_code binary_operator_asign = 7
type_code binary_operator_equal = 8
type_code binary_operator_equal_or_less = 9
type_code binary_operator_equal_or_more = 10
type_code binary_operator_more = 11
type_code binary_operator_less = 12
type_code binary_operator_and = 13
type_code binary_operator_or = 14
type_code binary_operator_not = 15
type_code symbol_curly_open = 16
type_code symbol_curly_close = 17
type_code symbol_paren_open = 18
type_code symbol_paren_close = 19
type_code symbol_square_open = 20
type_code symbol_square_close = 21
type_code symbol_dot = 22
type_code symbol_colon = 23
type_code symbol_comma = 24
type_code symbol_at = 25
type_code symbol_dollar = 26
type_code symbol_percent = 27
type_code symbol_question_mark = 28
type_code symbol_expression_end = 29
type_code symbol_hash = 30
type_code word = 31
type_code word_literall_number = 32
type_code word_literall_string = 33
type_code null = 34
type_code space = 35
type_code eob = 36

-- `src[i].type`, where the array has the elements of the list.
abbrev pub type_at : List Token → ℕ → Result ℕ
type_at src i = elim (get_elem? src i) [
  | none ↦ fault out_of_bounds
  | some t ↦ ok (type_code t.kind)
]

-- `equal && (…)`: the right side, which reads the arrays, is not computed where `equal` is false.
unfoldable pub subset_step : List Token → List Token → ℕ → ℕ → Bool → Result Bool
subset_step src subset inital i false = ok false
subset_step src subset inital i true = do
  a ← type_at src (inital + i)
  b ← type_at subset i
  ok (a == b)

-- The rounds of the loop from `i` on.
unfoldable pub subset_from : ℕ → List Token → List Token → ℕ → ℕ → Bool → Result Bool
unfolding subset_step
subset_from zero src subset inital i equal = ok equal
subset_from (suc rounds) src subset inital i equal =
    subset_step src subset inital i equal >>= subset_from rounds src subset inital (i + 1)

unfoldable pub token_is_subset : List Token → ℕ → ℕ → List Token → Result Bool
unfolding subset_from
token_is_subset src inital_index check_count subset =
    subset_from (inital_index + check_count) src subset inital_index 0 false

subset_from-false :
    (rounds : ℕ) (src subset : List Token) (inital i : ℕ)
    → subset_from rounds src subset inital i false ≡ ok false
unfolding subset_from subset_step
subset_from-false zero src subset inital i = refl
subset_from-false (suc rounds) src subset inital i =
    subset_from-false rounds src subset inital (i + 1)

-- `token_is_subset` is false for all arguments, and reads neither array.
pub token_is_subset_lem :
    (src subset : List Token) (inital_index check_count : ℕ)
    → token_is_subset src inital_index check_count subset ≡ ok false
unfolding token_is_subset
token_is_subset_lem src subset inital_index check_count =
    subset_from-false (inital_index + check_count) src subset inital_index 0

-- The array and `*pos` after `tokens_list_append`, which does not use the length.
unfoldable pub tokens_list_append : (ℕ → Token) → ℕ → Token → (ℕ → Token) × ℕ
tokens_list_append list pos t = (update list pos t, pos + 1)

-- The first `n` tokens of the array.
abbrev pub first_tokens : (ℕ → Token) → ℕ → List Token
first_tokens list zero = []
first_tokens list (suc n) = first_tokens list n ++ list n ∷ []

first_tokens-update :
    (list : ℕ → Token) (pos n : ℕ) (t : Token)
    → n ≤ pos
    → first_tokens (update list pos t) n ≡ first_tokens list n
first_tokens-update list pos zero t h = refl
first_tokens-update list pos (suc n) t h =
    let before = first_tokens-update list pos n t (omega arith) in
    let other : (pos == n) ≡ false = ground arith in rw (before, other) refl

-- The tokens in use, and with them one more at the end.
pub first_tokens-tokens_list_append :
    (list : ℕ → Token) (pos : ℕ) (t : Token)
    → (tokens_list_append list pos t).1 ≡ pos + 1
      × (first_tokens (tokens_list_append list pos t).0 (suc pos) ≡ first_tokens list pos ++ t ∷ [])
unfolding tokens_list_append
first_tokens-tokens_list_append list pos t =
    let before = first_tokens-update list pos pos t (omega arith) in
    let same : (pos == pos) ≡ true = ground arith in (refl, rw (before, same) refl)
