-- ===== src/Assembler/Program.antt =====
-- `assemble_program`, the second pass, and the way from the text to the program in `main_assemble`.
use c_at.Base.{
  assertion, leb, ◌++◌, update, ◌-◌, out_of_bounds, length, guard, zero, ◌==◌, ◌>>=◌, ok, suc,
  Result, ◌∷◌, ltb, [], List, Bytes, ℕ, ◌+◌, Bool, true, false, ◌&&◌, not, if◌then◌else◌,
}
use c_at.Tokenizer.Defs.{Token}
use c_at.Inst.Defs.{Instruction}
use c_at.Assembler.Labels.{
  is_line_end, line_size, index_labels, zero_token, is_hash, looks_like_label,
}
use c_at.Assembler.Line.{Build, assemble_line, Label}
use c_at.Tokenizer.Next.{tokenize}

-- The length of the array that `calloc` gives.
abbrev pub program_limit : ℕ
program_limit = 128

-- The variables of the loop; `lc` is the length of the program.
pub record Assembly : Type 0 where
  pub tk : ℕ → Token
  pub ic : ℕ
  pub line_is_comment : Bool
  pub program : List Instruction

abbrev pub assembly_start : Assembly
assembly_start = record { tk = λ _. zero_token; ic = 0; line_is_comment = false; program = [] }

-- `n` tokens of the array, from `i`.
unfoldable pub tokens_of : (ℕ → Token) → ℕ → ℕ → List Token
tokens_of tk i zero = []
tokens_of tk i (suc n) = tk i ∷ tokens_of tk (i + 1) n

-- The array with the first `ic` tokens cleared.
unfoldable pub cleared : (ℕ → Token) → ℕ → ℕ → Token
cleared tk ic s = if ltb s ic then zero_token else tk s

-- The branch for a line's end: a label keeps the array, a line that is not empty is assembled.
unfoldable pub assemble_end : Build → List Label → Assembly → Result Assembly
assemble_end b labels s =
    if looks_like_label s.tk s.ic
    then ok (record s { ic = 0 })
    else if s.ic == 0
    then ok s
    else guard (ltb (length s.program) program_limit) out_of_bounds >>= λ _.
        assemble_line b (b.junk (length s.program)) labels (s.tk 0) (tokens_of s.tk 1 (s.ic - 1))
        >>= λ i. ok (record s { program = s.program ++ i ∷ []; tk = cleared s.tk s.ic; ic = 0 })

unfoldable pub assemble_token : Build → List Label → Assembly → Token → Result Assembly
assemble_token b labels s t =
    if s.line_is_comment && not (is_line_end t.kind)
    then ok s
    else if not s.line_is_comment && is_hash t.kind
    then ok (record s { line_is_comment = true })
    else if is_line_end t.kind
    then assemble_end b labels (record s { line_is_comment = false })
    else guard (ltb s.ic line_size) out_of_bounds >>= λ _.
        ok (record s { tk = update s.tk s.ic t; ic = s.ic + 1 })

unfoldable pub assemble_tokens : Build → List Label → Assembly → List Token → Result Assembly
assemble_tokens b labels s [] = ok s
assemble_tokens b labels s (t ∷ list) =
    assemble_token b labels s t >>= λ s'. assemble_tokens b labels s' list

unfoldable pub assemble_program : Build → List Label → List Token → Result (List Instruction)
assemble_program b labels list = assemble_tokens b labels assembly_start list >>= λ s. ok s.program

-- `MAX_SIZE`.
abbrev pub max_size : ℕ
max_size = 2048

-- The reading loop of `main_assemble`, at the character number `fsize`, with the text `fb` so far. A
-- character 255 compares equal to `EOF`. `sprintf(fb, "%s%c", fb, c)` copies `fb` onto itself, which C
-- leaves undefined; it is taken for what the C library does there, which is to write `c` and a NUL
-- behind the text, so that a NUL adds nothing. The assertion stands behind the write.
unfoldable pub read_text : ℕ → Bytes → Bytes → Result Bytes
read_text fsize fb [] = ok fb
read_text fsize fb (c ∷ cs) = elim (c == 255) [
  | true ↦ ok fb
  | false ↦ guard (leb (length fb + 2) max_size) out_of_bounds >>= λ _.
      guard (ltb fsize max_size) assertion >>= λ _.
      read_text (fsize + 1) (if c == 0 then fb else fb ++ c ∷ []) cs
]

unfoldable pub file_text : Bytes → Result Bytes
unfolding read_text
file_text file = read_text 0 [] file

-- `main_assemble` between the opening of the file and `write_to_file`.
unfoldable pub assemble_source : Build → (ℕ → ℕ → ℕ) → Bytes → Result (List Instruction)
unfolding file_text
assemble_source b residue file = do
  text ← file_text file
  list ← tokenize residue text
  labels ← index_labels list
  assemble_program b labels list
