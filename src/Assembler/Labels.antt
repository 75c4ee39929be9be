-- ===== src/Assembler/Labels.antt =====
-- `index_labels`, the first pass.
use c_at.Base.{
  update, ◌++◌, out_of_bounds, length, ltb, ◌∷◌, guard, ◌>>=◌, ok, ◌==◌, List, Result, [], ℕ, ◌+◌,
  Bool, true, false, ◌&&◌, not, if◌then◌else◌,
}
use c_at.Tokenizer.Defs.{
  word, bare, TokenType, binary_operator_plus, symbol_colon, symbol_expression_end, symbol_hash,
  Token,
}
use c_at.Assembler.Line.{Label}

-- The length of the local `tk`, and of the array of labels in `main_assemble`.
abbrev pub line_size : ℕ
line_size = 32

abbrev pub label_limit : ℕ
label_limit = 128

-- `(Token) {0}`.
abbrev pub zero_token : Token
zero_token = bare binary_operator_plus

unfoldable pub is_line_end : TokenType → Bool
is_line_end symbol_expression_end = true
is_line_end _ = false

unfoldable pub is_hash : TokenType → Bool
is_hash symbol_hash = true
is_hash _ = false

unfoldable pub is_colon : TokenType → Bool
is_colon symbol_colon = true
is_colon _ = false

unfoldable pub is_word : TokenType → Bool
is_word word = true
is_word _ = false

-- The variables of the loop.
pub record Scan : Type 0 where
  pub tk : ℕ → Token
  pub ic : ℕ
  pub lc : ℕ
  pub line_is_comment : Bool
  pub labels : List Label

abbrev pub scan_start : Scan
scan_start = record { tk = λ _. zero_token; ic = 0; lc = 0; line_is_comment = false; labels = [] }

-- `first_is_word && second_is_colon && ic != 0`, on the array as it stands.
unfoldable pub looks_like_label : (ℕ → Token) → ℕ → Bool
unfolding is_word is_colon
looks_like_label tk ic = is_word (tk 0).kind && is_colon (tk 1).kind && not (ic == 0)

-- The branch for a line's end. With one token `continue` keeps all; the loop that should clear `tk`
-- runs up to `ic`, which is zero by then.
unfoldable pub index_line : Scan → Result Scan
unfolding looks_like_label
index_line s =
    if looks_like_label s.tk s.ic && s.ic == 1
    then ok s
    else (let count = if not (s.ic == 0) && not (is_colon (s.tk 1).kind) then s.lc + 1 else s.lc in
        if looks_like_label s.tk s.ic
        then (guard (ltb (length s.labels) label_limit) out_of_bounds >>= λ _. ok (record s {
          labels = s.labels ++ (record { name = (s.tk 0).literall; address = s.lc } ∷ []);
          lc = count;
          ic = 0;
        }))
        else ok (record s { lc = count; ic = 0 }))

-- The body of the loop for one token: comments, then the line's end or one more token of the line.
unfoldable pub index_token : Scan → Token → Result Scan
index_token s t =
    if s.line_is_comment && not (is_line_end t.kind)
    then ok s
    else if not s.line_is_comment && is_hash t.kind
    then ok (record s { line_is_comment = true })
    else if is_line_end t.kind
    then index_line (record s { line_is_comment = false })
    else guard (ltb s.ic line_size) out_of_bounds >>= λ _.
        ok (record s { tk = update s.tk s.ic t; ic = s.ic + 1 })

unfoldable pub index_tokens : Scan → List Token → Result Scan
index_tokens s [] = ok s
index_tokens s (t ∷ list) = index_token s t >>= λ s'. index_tokens s' list

unfoldable pub index_labels : List Token → Result (List Label)
index_labels list = index_tokens scan_start list >>= λ s. ok s.labels
