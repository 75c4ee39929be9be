-- ===== src/Assembler/Lines/Defs.antt =====
-- Source lines, their tokens, and what the two passes should make of them.
use c_at.Base.{
  refl, ◌∙◌, arith, ◌>>=◌, ok, ◌+◌, false, length, ◌<◌, update, suc, Result, true, ◌≡◌, ◌++◌, some,
  Bool, List, Bytes, ℕ, [], ◌∷◌,
}
use c_at.Assembler.Labels.{is_line_end, is_hash, is_colon, line_size}
use c_at.Tokenizer.Defs.{Token, symbol_expression_end, word, bare, symbol_hash, symbol_colon}
use c_at.Inst.Defs.{Instruction}
use c_at.Assembler.Line.{Label, Build, assemble_line}
use c_at.Assembler.Program.{tokens_of}
use mathlib.Core.Path.{ap₂}

-- A label, an instruction with the tokens behind its name, an empty line, or a comment.
pub data Line : Type 0 where
  label_line : Bytes → Line
  code_line : Bytes → List Token → Line
  blank_line : Line
  comment_line : List Token → Line

abbrev pub word_token : Bytes → Token
word_token w = record { literall = some w; kind = word }

-- The tokens of a line and the newline at its end.
abbrev pub line_tokens : Line → List Token
line_tokens (label_line n) = word_token n ∷ bare symbol_colon ∷ bare symbol_expression_end ∷ []
line_tokens (code_line w operands) = word_token w ∷ (operands ++ bare symbol_expression_end ∷ [])
line_tokens blank_line = bare symbol_expression_end ∷ []
line_tokens (comment_line ts) = bare symbol_hash ∷ (ts ++ bare symbol_expression_end ∷ [])

abbrev pub lines_tokens : List Line → List Token
lines_tokens [] = []
lines_tokens (l ∷ ls) = line_tokens l ++ lines_tokens ls

-- No token ends the line.
abbrev pub StaysInLine : List Token → Type 0
StaysInLine [] = Unit
StaysInLine (t ∷ ts) = (is_line_end t.kind ≡ false) × StaysInLine ts

-- No token ends the line or begins a comment.
abbrev pub ArePlain : List Token → Type 0
ArePlain [] = Unit
ArePlain (t ∷ ts) = (is_line_end t.kind ≡ false) × (is_hash t.kind ≡ false) × ArePlain ts

-- The operands of an instruction that the passes read right. Behind a label, up to the next line with
-- two tokens or more, an instruction without operands is misread.
abbrev pub OperandsFit : Bool → List Token → Type 0
OperandsFit true [] = ⊥
OperandsFit false [] = Unit
OperandsFit after_label (t ∷ ts) =
    (is_colon t.kind ≡ false) × ArePlain (t ∷ ts) × (length (t ∷ ts) < line_size)

-- `after_label`: a label stands above, with no instruction in between.
abbrev pub Tidy : Bool → List Line → Type 0
Tidy after_label [] = Unit
Tidy after_label (label_line n ∷ ls) = Tidy true ls
Tidy after_label (code_line w operands ∷ ls) = OperandsFit after_label operands × Tidy false ls
Tidy after_label (blank_line ∷ ls) = Tidy after_label ls
Tidy after_label (comment_line ts ∷ ls) = StaysInLine ts × Tidy after_label ls

-- Each label with the number of instructions above it, counted from `lc`.
abbrev pub label_list : ℕ → List Line → List Label
label_list lc [] = []
label_list lc (label_line n ∷ ls) = record { name = some n; address = lc } ∷ label_list lc ls
label_list lc (code_line w operands ∷ ls) = label_list (lc + 1) ls
label_list lc (blank_line ∷ ls) = label_list lc ls
label_list lc (comment_line ts ∷ ls) = label_list lc ls

-- The instructions, each assembled from its own line, counted from `lc`.
abbrev pub code_list : Build → List Label → ℕ → List Line → Result (List Instruction)
code_list b labels lc [] = ok []
code_list b labels lc (label_line n ∷ ls) = code_list b labels lc ls
code_list b labels lc (code_line w operands ∷ ls) =
    assemble_line b (b.junk lc) labels (word_token w) operands >>= λ i.
    code_list b labels (lc + 1) ls >>= λ is. ok (i ∷ is)
code_list b labels lc (blank_line ∷ ls) = code_list b labels lc ls
code_list b labels lc (comment_line ts ∷ ls) = code_list b labels lc ls

abbrev pub code_count : List Line → ℕ
code_count [] = 0
code_count (label_line n ∷ ls) = code_count ls
code_count (code_line w operands ∷ ls) = suc (code_count ls)
code_count (blank_line ∷ ls) = code_count ls
code_count (comment_line ts ∷ ls) = code_count ls

-- An array with a list written from index `i` on.
abbrev pub fill : (ℕ → Token) → ℕ → List Token → ℕ → Token
fill f i [] = f
fill f i (t ∷ ts) = fill (update f i t) (i + 1) ts

pub fill_below : (f : ℕ → Token) (i : ℕ) (ts : List Token) (j : ℕ) → j < i → fill f i ts j ≡ f j
fill_below f i [] j h = refl
fill_below f i (t ∷ ts) j h = fill_below (update f i t) (i + 1) ts j (omega arith) ∙ ground arith

pub tokens_of-fill :
    (f : ℕ → Token) (i : ℕ) (ts : List Token) → tokens_of (fill f i ts) i (length ts) ≡ ts
unfolding tokens_of
tokens_of-fill f i [] = refl
tokens_of-fill f i (t ∷ ts) =
    let first : fill (update f i t) (i + 1) ts i ≡ t =
      fill_below (update f i t) (i + 1) ts i (omega arith) ∙ ground arith in
    ap₂ ◌∷◌ first (tokens_of-fill (update f i t) (i + 1) ts)
