-- ===== src/Assembler/Lines/First.antt =====
-- The first pass over the tokens of tidy lines gives each label the number of instructions above it.
use c_at.Base.{
  length-append, sym, Result, ◌>>=◌, ap, suc, lt→ltb, ◌∙◌, some, Bytes, ◌≤◌, refl, arith, length,
  update, ◌++◌, ok, ◌+◌, ◌<◌, true, false, List, ◌≡◌, Bool, ℕ, [], ◌∷◌,
}
use c_at.Assembler.Labels.{
  index_labels, zero_token, label_limit, looks_like_label, is_word, index_line, is_line_end,
  line_size, Scan, index_tokens, is_colon, is_hash, index_token,
}
use c_at.Assembler.Lines.Defs.{
  label_list, fill_below, Line, lines_tokens, Tidy, OperandsFit, word_token, label_line, blank_line,
  line_tokens, comment_line, code_line, StaysInLine, ArePlain, fill,
}
use c_at.Tokenizer.Defs.{symbol_expression_end, bare, symbol_colon, Token}
use c_at.Assembler.Line.{Label}
use mathlib.Core.List.{append-nil, append_assoc}
use native.Mathlib.Nat.{add-zero}

index_plain :
    (s : Scan) (t : Token)
    → s.line_is_comment ≡ false
    → is_line_end t.kind ≡ false
    → is_hash t.kind ≡ false
    → s.ic < line_size
    → index_token s t ≡ ok (record s { tk = update s.tk s.ic t; ic = s.ic + 1 })
unfolding index_token
index_plain s t c e h room = ground (arith, c, e, h, room)

index_operands :
    (s : Scan) (ts rest : List Token)
    → s.line_is_comment ≡ false
    → ArePlain ts
    → s.ic + length ts ≤ line_size
    → index_tokens s (ts ++ rest)
      ≡ index_tokens (record s { tk = fill s.tk s.ic ts; ic = s.ic + length ts }) rest
unfolding index_tokens
index_operands s [] rest c h room = rw add-zero
index_operands s (t ∷ ts) rest c h room =
    let s' : Scan = record s { tk = update s.tk s.ic t; ic = s.ic + 1 } in
    let count : s.ic + 1 + length ts ≡ s.ic + suc (length ts) = omega arith in
    rw (index_plain s t c h.0 h.1 (omega arith)) (
      index_operands s' ts rest c h.2 (omega arith)
      ∙ ap (λ n. index_tokens (record s' { tk = fill s'.tk s'.ic ts; ic = n }) rest) count)

skip_comment :
    (s : Scan) (t : Token)
    → s.line_is_comment ≡ true
    → is_line_end t.kind ≡ false
    → index_token s t ≡ ok s
unfolding index_token
skip_comment s t c e = ground (arith, c, e)

-- A comment's tokens are passed over.
index_comment :
    (s : Scan) (ts rest : List Token)
    → s.line_is_comment ≡ true
    → StaysInLine ts
    → index_tokens s (ts ++ rest) ≡ index_tokens s rest
unfolding index_tokens
index_comment s [] rest c h = refl
index_comment s (t ∷ ts) rest c h = rw (skip_comment s t c h.0) (index_comment s ts rest c h.1)

-- The first pass between two lines.
abbrev between : (ℕ → Token) → ℕ → List Label → Scan
between tk lc labels = record { tk = tk; ic = 0; lc = lc; line_is_comment = false; labels = labels }

-- The end of a line whose second token is no colon.
index_end :
    (s : Scan) (rest : List Token)
    → s.line_is_comment ≡ false
    → is_colon (s.tk 1).kind ≡ false
    → 0 < s.ic
    → index_tokens s (bare symbol_expression_end ∷ rest)
      ≡ index_tokens (between s.tk (s.lc + 1) s.labels) rest
unfolding index_tokens index_token index_line looks_like_label is_line_end is_hash
index_end s rest c e some_token = ground (arith, c, e, some_token)

module _ (tk : ℕ → Token) (lc : ℕ) (labels : List Label) (rest : List Token) where
  index_label_line :
      (n : Bytes)
      → length labels < label_limit
      → index_tokens (between tk lc labels) (line_tokens (label_line n) ++ rest)
        ≡ index_tokens
            (between
              (update (update tk 0 (word_token n)) 1 (bare symbol_colon))
              lc
              (labels ++ (record { name = some n; address = lc } ∷ [])))
            rest
  unfolding index_tokens index_token index_line looks_like_label is_line_end is_hash is_word
      is_colon
  index_label_line n room = rw (lt→ltb _ _ room)

  index_blank_line :
      index_tokens (between tk lc labels) (line_tokens blank_line ++ rest)
      ≡ index_tokens (between tk lc labels) rest
  unfolding index_tokens index_token index_line looks_like_label is_line_end is_hash
  index_blank_line = ground arith

  index_comment_line :
      (ts : List Token)
      → StaysInLine ts
      → index_tokens (between tk lc labels) (line_tokens (comment_line ts) ++ rest)
        ≡ index_tokens (between tk lc labels) rest
  unfolding index_tokens index_token is_line_end is_hash
  index_comment_line ts h = rw append_assoc (
      index_comment (record (between tk lc labels) { line_is_comment = true }) ts _ refl h
      ∙ index_blank_line)

  index_code_line :
      (w : Bytes) (operands : List Token)
      → is_colon (fill (update tk 0 (word_token w)) 1 operands 1).kind ≡ false
      → ArePlain operands
      → length operands < line_size
      → index_tokens (between tk lc labels) (line_tokens (code_line w operands) ++ rest)
        ≡ index_tokens (between (fill (update tk 0 (word_token w)) 1 operands) (lc + 1) labels) rest
  unfolding is_line_end is_hash index_tokens index_token
  index_code_line w operands second plain room =
      let tk1 : ℕ → Token = update tk 0 (word_token w) in
      let s1 : Scan = record (between tk lc labels) { tk = tk1; ic = 1 } in
      let s2 : Scan = record s1 { tk = fill tk1 1 operands; ic = 1 + length operands } in
      let first = index_plain (between tk lc labels) (word_token w) refl refl refl (omega arith) in
      rw append_assoc (
        ap (λ r. r >>= λ s'. index_tokens s' (operands ++ bare symbol_expression_end ∷ rest)) first
        ∙ index_operands s1 operands _ refl plain (omega arith)
        ∙ index_end s2 rest refl second (omega arith))

-- Behind an instruction the second token is no colon, whatever stood there before.
pub second_token :
    (after_label : Bool) (f : ℕ → Token) (operands : List Token)
    → (after_label ≡ false → is_colon (f 1).kind ≡ false)
    → OperandsFit after_label operands
    → is_colon (fill f 1 operands 1).kind ≡ false
second_token true f [] seen h = absurd h
second_token false f [] seen h = seen refl
second_token true f (t ∷ ts) seen h = rw (fill_below (update f 1 t) 2 ts 1 (omega arith)) h.0
second_token false f (t ∷ ts) seen h = rw (fill_below (update f 1 t) 2 ts 1 (omega arith)) h.0

pub operands_plain :
    (after_label : Bool) (operands : List Token)
    → OperandsFit after_label operands
    → ArePlain operands × (length operands < line_size)
operands_plain true [] h = absurd h
operands_plain false [] h = (tt, omega arith)
operands_plain true (t ∷ ts) h = (h.1, h.2)
operands_plain false (t ∷ ts) h = (h.1, h.2)

abbrev found_labels : Scan → List Token → Result (List Label)
found_labels s ts = index_tokens s ts >>= λ s'. ok s'.labels

index_lines :
    (ls : List Line) (after_label : Bool) (tk : ℕ → Token) (lc : ℕ) (labels : List Label)
    → (after_label ≡ false → is_colon (tk 1).kind ≡ false)
    → Tidy after_label ls
    → length labels + length (label_list lc ls) ≤ label_limit
    → found_labels (between tk lc labels) (lines_tokens ls) ≡ ok (labels ++ label_list lc ls)
unfolding index_tokens
index_lines [] after_label tk lc labels seen h room = ap ok (sym (append-nil labels))
index_lines (label_line n ∷ ls) after_label tk lc labels seen h room =
    let new : Label = record { name = some n; address = lc } in
    let more : length (labels ++ new ∷ []) ≡ length labels + 1 = length-append labels (new ∷ []) in
    let tk' : ℕ → Token = update (update tk 0 (word_token n)) 1 (bare symbol_colon) in
    rw (index_label_line tk lc labels (lines_tokens ls) n (omega arith)) (
      index_lines ls true tk' lc (labels ++ new ∷ []) (λ e. grind arith) h (omega arith)
      ∙ ap ok (append_assoc labels (new ∷ []) (label_list lc ls)))
index_lines (blank_line ∷ ls) after_label tk lc labels seen h room =
    rw (index_blank_line tk lc labels (lines_tokens ls))
      (index_lines ls after_label tk lc labels seen h room)
index_lines (comment_line ts ∷ ls) after_label tk lc labels seen h room =
    rw (index_comment_line tk lc labels (lines_tokens ls) ts h.0)
      (index_lines ls after_label tk lc labels seen h.1 room)
index_lines (code_line w operands ∷ ls) after_label tk lc labels seen h room =
    let fits = operands_plain after_label operands h.0 in
    let second = second_token after_label (update tk 0 (word_token w)) operands (λ e. seen e) h.0 in
    rw (index_code_line tk lc labels (lines_tokens ls) w operands second fits.0 fits.1)
      (index_lines ls false _ (lc + 1) labels (λ _. second) h.1 room)

-- On the tokens of tidy lines with at most 128 labels, `index_labels` finds every label, with the
-- number of instructions above it.
pub index_labels-lines :
    (ls : List Line)
    → Tidy false ls
    → length (label_list 0 ls) ≤ label_limit
    → index_labels (lines_tokens ls) ≡ ok (label_list 0 ls)
unfolding index_labels is_colon
index_labels-lines ls h room =
    index_lines ls false (λ _. zero_token) 0 [] (λ _. refl) h (omega arith)
