-- ===== src/Assembler/Source.antt =====
-- From the characters of a file to its program.
use mathlib.Core.List.{append_assoc, append-nil}
use c_at.Base.{
  ltb, true, leb, sym, ap, ok, false, length-append, ◌+◌, ◌&&◌, ◌∙◌, [], ◌==◌, ◌≤◌, codes, ◌≡◌, ◌∷◌,
  ◌++◌, not, length, ◌<◌, List, Bytes, Bool, ℕ, refl, arith,
}
use c_at.Tokenizer.Stream.{words_text, AreWords, IsWord, IsZeroed, tokenize-words_text}
use c_at.Assembler.Lines.Defs.{lines_tokens, Tidy, Line, code_line}
use c_at.Tokenizer.Words.{AllPass}
use c_at.Tokenizer.Defs.{is_number, is_character}
use c_at.Tokenizer.Next.{word_character}
use c_at.Assembler.Line.Registers.{register_token, assemble_line_registers, register_text}
use c_at.Assembler.Program.{read_text, assemble_program, assemble_source, file_text, max_size}
use c_at.Assembler.Labels.{is_line_end, is_colon, is_hash}
use c_at.Inst.Macros.{make_add}
use c_at.Assembler.Line.{Build}
use c_at.Assembler.Emit.{get_instuction_count, assemble}
use c_at.Inst.Defs.{add}
use c_at.Assembler.Keywords.Mnemonics.{mnemonic}
use c_at.Assembler.Lines.First.{index_labels-lines}
use c_at.Assembler.Lines.Second.{assemble_program-lines}

-- Neither a NUL nor the character that compares equal to `EOF`.
abbrev pub is_plain : ℕ → Bool
is_plain c = not (c == 255) && not (c == 0)

-- The reading loop appends plain characters to the text, while there is room.
read_text-plain :
    (fsize : ℕ) (fb w : Bytes)
    → AllPass is_plain w
    → fsize ≡ length fb
    → length fb + length w < max_size
    → read_text fsize fb w ≡ ok (fb ++ w)
unfolding read_text
read_text-plain fsize fb [] h at room = ap ok (sym (append-nil fb))
read_text-plain fsize fb (c ∷ w) h at room =
    let no_end : (c == 255) ≡ false = ground (arith, h.0) in
    let no_nul : (c == 0) ≡ false = ground (arith, h.0) in
    let space : leb (length fb + 2) max_size ≡ true = ground arith in
    let few : ltb fsize max_size ≡ true = ground arith in
    let long = length-append fb (c ∷ []) in
    rw (read_text, no_end, space, few, no_nul)
      (read_text-plain (fsize + 1) (fb ++ c ∷ []) w h.1 (omega arith) (omega arith)
        ∙ ap ok (append_assoc fb (c ∷ []) w))

-- A file of plain characters that is short enough is read as it is.
pub file_text-plain : (w : Bytes) → AllPass is_plain w → length w < max_size → file_text w ≡ ok w
unfolding file_text
file_text-plain w h short = read_text-plain 0 [] w h refl (omega arith)

pub AllPass-append :
    (test : ℕ → Bool) (a b : Bytes) → AllPass test a → AllPass test b → AllPass test (a ++ b)
AllPass-append test [] b h k = k
AllPass-append test (c ∷ a) b h k = (h.0, AllPass-append test a b h.1 k)

word_is_plain : (w : Bytes) → AllPass word_character w → AllPass is_plain w
unfolding word_character is_character is_number
word_is_plain [] h = tt
word_is_plain (c ∷ w) h = (ground (arith, h.0), word_is_plain w h.1)

pub IsWord-plain : (w : Bytes) → IsWord w → AllPass is_plain w
unfolding is_character
IsWord-plain [] h = absurd h
IsWord-plain (c ∷ w) h = (ground (arith, h.0), word_is_plain w h.1)

words_text-plain : (ws : List Bytes) → AreWords ws → AllPass is_plain (words_text ws)
words_text-plain [] h = (refl, tt)
words_text-plain (w ∷ ws) h =
    AllPass-append is_plain w (b' ' ∷ words_text ws) (IsWord-plain w h.0)
      (refl, words_text-plain ws h.1)

pub register_text-IsWord : (n : ℕ) → n < 16 → IsWord (register_text n)
unfolding is_character word_character is_number
register_text-IsWord n h = ground arith

-- The words of a line `add rx ry rz`.
abbrev pub add_words : ℕ → ℕ → ℕ → List Bytes
add_words x y z = codes "add" ∷ register_text x ∷ register_text y ∷ register_text z ∷ []

add_words-AreWords : (x y z : ℕ) → x < 16 → y < 16 → z < 16 → AreWords (add_words x y z)
unfolding is_character word_character is_number
add_words-AreWords x y z hx hy hz = (
  (refl, (refl, (refl, tt)), omega arith),
  (register_text-IsWord x hx, (register_text-IsWord y hy, (register_text-IsWord z hz, tt))),
)

length-register_text : (n : ℕ) → length (register_text n) ≤ 3
length-register_text n = ground arith

length-words_text :
    (w : Bytes) (ws : List Bytes)
    → length w ≤ 3
    → length (words_text (w ∷ ws)) ≤ length (words_text ws) + 4
length-words_text w ws h = omega (arith, length-append w (b' ' ∷ words_text ws))

add_words_short : (x y z : ℕ) → length (words_text (add_words x y z)) < max_size
add_words_short x y z =
    let rz = register_text z ∷ [] in
    let ry = register_text y ∷ rz in
    let rx = register_text x ∷ ry in
    let a₀ = length-words_text (codes "add") rx (omega arith) in
    let a₁ = length-words_text (register_text x) ry (length-register_text x) in
    let a₂ = length-words_text (register_text y) rz (length-register_text y) in
    let a₃ = length-words_text (register_text z) [] (length-register_text z) in
    omega (arith, a₀, a₁, a₂, a₃)

-- The words of the line as a line of the source.
abbrev add_line : ℕ → ℕ → ℕ → List Line
add_line x y z =
    code_line (codes "add") (register_token x ∷ register_token y ∷ register_token z ∷ []) ∷ []

add_line-Tidy : (x y z : ℕ) → Tidy false (add_line x y z)
unfolding is_line_end is_hash is_colon
add_line-Tidy x y z = ((refl, (refl, refl, (refl, refl, (refl, refl, tt))), omega arith), tt)

program_of_add_line :
    (b : Build) (x y z : ℕ)
    → x < 16
    → y < 16
    → z < 16
    → assemble_program b [] (lines_tokens (add_line x y z)) ≡ ok (make_add (x ∷ y ∷ z ∷ []) ∷ [])
unfolding get_instuction_count mnemonic assemble
program_of_add_line b x y z hx hy hz =
    assemble_program-lines b [] (add_line x y z) (add_line-Tidy x y z) (omega arith)
    ∙ rw (assemble_line_registers b (b.junk 0) [] add x y z (λ e. cc) refl hx hy hz) refl

-- The text of a file, one line `add rx ry rz` with x, y and z below 16 and blanks behind the
-- words, is assembled to the one instruction with these registers, where the arrays of the
-- tokenizer hold zeros.
pub assemble_source-add_words :
    (b : Build) (residue : ℕ → ℕ → ℕ) (x y z : ℕ)
    → IsZeroed residue
    → x < 16
    → y < 16
    → z < 16
    → assemble_source b residue (words_text (add_words x y z)) ≡ ok (make_add (x ∷ y ∷ z ∷ []) ∷ [])
unfolding assemble_source
assemble_source-add_words b residue x y z zeroed hx hy hz =
    let words = add_words-AreWords x y z hx hy hz in
    rw
      (
        file_text-plain (words_text (add_words x y z)) (words_text-plain (add_words x y z) words)
            (add_words_short x y z),
        tokenize-words_text residue (add_words x y z) zeroed words (omega arith),
        index_labels-lines (add_line x y z) (add_line-Tidy x y z) (omega arith),
      )
      (program_of_add_line b x y z hx hy hz)
