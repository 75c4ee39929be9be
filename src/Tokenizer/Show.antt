-- ===== src/Tokenizer/Show.antt =====
-- `token_print` and `free_tokenlist`.
use Prim.Native.String.{String as Literal}
use c_at.Tokenizer.Defs.{
  is_space, is_number, is_character, bare, TokenType, word_literall_number, symbol_curly_open,
  symbol_expression_end, symbol_hash, symbol_comma, symbol_colon, binary_operator_plus, space,
  symbol_dot, binary_operator_plusplus, binary_operator_asign, symbol_paren_open,
  binary_operator_minusminus, symbol_paren_close, binary_operator_equal, symbol_curly_close,
  binary_operator_minus, word, Token,
}
use c_at.Base.{
  inr, inl, Bool-cases, Holds-bind, Holds, arith, ℕ, Yields, ◌++◌, codes, null_pointer, some, [],
  fault, ◌∷◌, ok, none, Bytes, Result, List,
}
use c_at.Tokenizer.Next.{
  literal_token, word_character, copy_literal, next_symbol, symbol_type, read_run, token_next,
}

-- `%s` of a literal: a null pointer is a fault.
abbrev with_literall : Literal → Token → Literal → Result Bytes
with_literall before t after = elim t.literall [
  | none ↦ fault null_pointer
  | some l ↦ ok (codes before ++ (l ++ codes after))
]

unfoldable pub token_print : Token → Result Bytes
token_print t = elim t.kind [
  | space ↦ ok []
  | binary_operator_plus ↦ ok (codes " TOKEN_BINARY_OPERATOR_P\t")
  | binary_operator_plusplus ↦ ok (codes " TOKEN_BINARY_OPERATOR_PP\t")
  | binary_operator_minus ↦ ok (codes " TOKEN_BINARY_OPERATOR_M\t")
  | binary_operator_minusminus ↦ ok (codes " TOKEN_BINARY_OPERATOR_MM\t")
  | binary_operator_asign ↦ ok (codes " TOKEN_BINARY_OPERATOR_ASIGN\t")
  | binary_operator_equal ↦ ok (codes " TOKEN_BINARY_OPERATOR_EQ\t")
  | symbol_paren_open ↦ ok (codes " TOKEN_SYM_PAREN_OPEN\t")
  | symbol_paren_close ↦ ok (codes " TOKEN_SYM_PAREN_CLOSE\t")
  | symbol_curly_open ↦ ok (codes " TOKEN_SYM_CURLY_OPEN\t")
  | symbol_curly_close ↦ ok (codes " TOKEN_SYM_CURLY_CLOSE\t")
  | symbol_dot ↦ ok (codes " TOKEN_SYMBOL_DOT\t")
  | word_literall_number ↦ with_literall " TOKEN_LITERALL_NUMBER (" t ")\t"
  | word ↦ with_literall " TOKEN_WORD: \"" t "\"\t"
  | symbol_expression_end ↦ ok (codes " ;;\n")
  | symbol_comma ↦ ok (codes " TOKEN_SYMBOL_COMMA\t")
  | symbol_colon ↦ ok (codes " TOKEN_SYMBOL_COLON\t")
  | symbol_hash ↦ ok (codes " TOKEN_SYMBOL_HASH\t")
  | _ ↦ ok (codes "UKNOWN TOKEN\n")
]

-- The literals that are freed, in order. Every branch of the `switch` frees the literal of token `i`
-- unless it is null.
unfoldable pub free_tokenlist : List Token → List Bytes
free_tokenlist [] = []
free_tokenlist (t ∷ list) = elim t.literall [
  | none ↦ free_tokenlist list
  | some l ↦ l ∷ free_tokenlist list
]

-- The token is printed.
abbrev IsPrinted : Token → Type 0
IsPrinted t = Yields (λ _. Unit {0}) (token_print t)

symbol-IsPrinted : (c d : ℕ) → IsPrinted (bare (symbol_type c d))
unfolding token_print symbol_type
symbol-IsPrinted c d = ground arith

literal_token-IsPrinted :
    (residue : ℕ → ℕ) (t : TokenType) (w : Bytes)
    → ((l : Bytes) → IsPrinted (record { literall = some l; kind = t }))
    → Holds (λ p. IsPrinted p.0) (literal_token residue t w)
unfolding literal_token
literal_token-IsPrinted residue t w prints =
    Holds-bind (λ _. Unit {0}) (λ p. IsPrinted p.0) (copy_literal residue w) _
      (any (copy_literal residue w)) λ l _. prints l
  where
    any : (r : Result Bytes) → Holds (λ _. Unit {0}) r
    any (ok l) = tt
    any (fault e) = tt

-- What `token_next` reads can be printed: a word or a number has a literal.
pub token_print-token_next :
    (residue : ℕ → ℕ) (text : Bytes) → Holds (λ p. IsPrinted p.0) (token_next residue text)
unfolding token_next token_print
token_print-token_next residue [] = tt
token_print-token_next residue (c ∷ rest) = elim (Bool-cases (is_space c)) [
  | inl e ↦ rw e tt
  | inr e ↦ rw e (elim (Bool-cases (is_number c)) [
    | inl f ↦
        rw f
          (literal_token-IsPrinted residue word_literall_number (read_run is_number c rest) λ l. tt)
    | inr f ↦ rw f (elim (Bool-cases (is_character c)) [
      | inl g ↦ rw g (literal_token-IsPrinted residue word (read_run word_character c rest) λ l. tt)
      | inr g ↦ rw g (symbol-IsPrinted c (next_symbol rest))
    ])
  ])
]
