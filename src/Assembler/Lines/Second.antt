-- ===== src/Assembler/Lines/Second.antt =====
-- The second pass over the tokens of tidy lines assembles each instruction from its own line.
use c_at.Base.{
  fault, length-append, sym, Bool, Result, inr, inl, Result-cases, ◌>>=◌, ap, suc, ◌-◌, ◌≤◌, [],
  length, ◌∙◌, update, ◌∷◌, ok, ◌+◌, ◌<◌, ◌++◌, Bytes, true, false, ℕ, ◌≡◌, List, refl, arith,
}
use c_at.Assembler.Lines.Defs.{
  code_list, Line, lines_tokens, code_count, Tidy, code_line, tokens_of-fill, fill_below, fill,
  ArePlain, comment_line, blank_line, StaysInLine, line_tokens, label_line, word_token,
}
use mathlib.Core.List.{append-nil, append_assoc}
use native.Mathlib.Nat.{add-zero}
use c_at.Assembler.Line.{Label, assemble_line, Build}
use c_at.Inst.Defs.{Instruction}
use c_at.Tokenizer.Defs.{symbol_colon, symbol_expression_end, Token, bare}
use c_at.Assembler.Labels.{
  zero_token, is_hash, looks_like_label, line_size, is_word, is_colon, is_line_end,
}
use c_at.Assembler.Program.{
  assemble_program, program_limit, Assembly, tokens_of, cleared, assemble_end, assemble_tokens,
  assemble_token,
}
use mathlib.Core.Path.{ap₂}
use c_at.Assembler.Lines.First.{second_token, operands_plain}

pub keep_program : (r : Result (List Instruction)) → (r >>= λ is. ok ([] ++ is)) ≡ r
keep_program (ok is) = refl
keep_program (fault e) = refl

module _ (b : Build) (all : List Label) where
  assemble_plain :
      (s : Assembly) (t : Token)
      → s.line_is_comment ≡ false
      → is_line_end t.kind ≡ false
      → is_hash t.kind ≡ false
      → s.ic < line_size
      → assemble_token b all s t ≡ ok (record s { tk = update s.tk s.ic t; ic = s.ic + 1 })
  unfolding assemble_token
  assemble_plain s t c e h room = ground (arith, c, e, h, room)

  assemble_operands :
      (s : Assembly) (ts rest : List Token)
      → s.line_is_comment ≡ false
      → ArePlain ts
      → s.ic + length ts ≤ line_size
      → assemble_tokens b all s (ts ++ rest)
        ≡ assemble_tokens b all (record s { tk = fill s.tk s.ic ts; ic = s.ic + length ts }) rest
  unfolding assemble_tokens
  assemble_operands s [] rest c h room = rw add-zero
  assemble_operands s (t ∷ ts) rest c h room =
      let s' : Assembly = record s { tk = update s.tk s.ic t; ic = s.ic + 1 } in
      let count : s.ic + 1 + length ts ≡ s.ic + suc (length ts) = omega arith in
      rw (assemble_plain s t c h.0 h.1 (omega arith)) (
        assemble_operands s' ts rest c h.2 (omega arith)
        ∙ ap (λ n. assemble_tokens b all (record s' { tk = fill s'.tk s'.ic ts; ic = n }) rest)
            count)

  skip_comment :
      (s : Assembly) (t : Token)
      → s.line_is_comment ≡ true
      → is_line_end t.kind ≡ false
      → assemble_token b all s t ≡ ok s
  unfolding assemble_token
  skip_comment s t c e = ground (arith, c, e)

  assemble_comment :
      (s : Assembly) (ts rest : List Token)
      → s.line_is_comment ≡ true
      → StaysInLine ts
      → assemble_tokens b all s (ts ++ rest) ≡ assemble_tokens b all s rest
  unfolding assemble_tokens
  assemble_comment s [] rest c h = refl
  assemble_comment s (t ∷ ts) rest c h =
      rw (skip_comment s t c h.0) (assemble_comment s ts rest c h.1)

  -- The second pass between two lines.
  abbrev pub between : (ℕ → Token) → List Instruction → Assembly
  between tk program = record { tk = tk; ic = 0; line_is_comment = false; program = program }

  -- The end of a line whose second token is no colon.
  assemble_code_end :
      (s : Assembly) (rest : List Token)
      → s.line_is_comment ≡ false
      → is_colon (s.tk 1).kind ≡ false
      → 0 < s.ic
      → length s.program < program_limit
      → assemble_tokens b all s (bare symbol_expression_end ∷ rest) ≡ (
          assemble_line b (b.junk (length s.program)) all (s.tk 0) (tokens_of s.tk 1 (s.ic - 1))
          >>= λ i. assemble_tokens b all (between (cleared s.tk s.ic) (s.program ++ i ∷ [])) rest)
  unfolding assemble_tokens assemble_token assemble_end looks_like_label is_line_end is_hash
  assemble_code_end s rest c e some_token room =
      elim (Result-cases
        (assemble_line b (b.junk (length s.program)) all (s.tk 0) (tokens_of s.tk 1 (s.ic - 1)))) [
          | inl (i, line) ↦ ground (arith, c, e, some_token, room, line)
          | inr (f, line) ↦ ground (arith, c, e, some_token, room, line)
        ]

  module _ (tk : ℕ → Token) (program : List Instruction) (rest : List Token) where
    pub assemble_label_line :
        (n : Bytes)
        → assemble_tokens b all (between tk program) (line_tokens (label_line n) ++ rest)
          ≡ assemble_tokens b all
              (between (update (update tk 0 (word_token n)) 1 (bare symbol_colon)) program)
              rest
    unfolding assemble_tokens assemble_token assemble_end looks_like_label is_line_end is_hash
        is_word is_colon
    assemble_label_line n = refl

    assemble_blank_line :
        assemble_tokens b all (between tk program) (line_tokens blank_line ++ rest)
        ≡ assemble_tokens b all (between tk program) rest
    unfolding assemble_tokens assemble_token assemble_end looks_like_label is_line_end is_hash
    assemble_blank_line = ground arith

    assemble_comment_line :
        (ts : List Token)
        → StaysInLine ts
        → assemble_tokens b all (between tk program) (line_tokens (comment_line ts) ++ rest)
          ≡ assemble_tokens b all (between tk program) rest
    unfolding assemble_tokens assemble_token is_line_end is_hash
    assemble_comment_line ts h = rw append_assoc (
        assemble_comment (record (between tk program) { line_is_comment = true }) ts _ refl h
        ∙ assemble_blank_line)

    assemble_code_line :
        (w : Bytes) (operands : List Token)
        → is_colon (fill (update tk 0 (word_token w)) 1 operands 1).kind ≡ false
        → ArePlain operands
        → length operands < line_size
        → length program < program_limit
        → assemble_tokens b all (between tk program) (line_tokens (code_line w operands) ++ rest)
          ≡ (assemble_line b (b.junk (length program)) all (word_token w) operands >>= λ i.
              assemble_tokens b all
                (between
                  (cleared (fill (update tk 0 (word_token w)) 1 operands) (1 + length operands))
                  (program ++ i ∷ []))
                rest)
    unfolding is_line_end is_hash assemble_tokens assemble_token
    assemble_code_line w operands second plain size room =
        let tk1 : ℕ → Token = update tk 0 (word_token w) in
        let s1 : Assembly = record (between tk program) { tk = tk1; ic = 1 } in
        let s2 : Assembly = record s1 { tk = fill tk1 1 operands; ic = 1 + length operands } in
        let first =
          assemble_plain (between tk program) (word_token w) refl refl refl (omega arith) in
        let head : fill tk1 1 operands 0 ≡ word_token w =
          fill_below tk1 1 operands 0 (omega arith) in
        let size_of : 1 + length operands - 1 ≡ length operands = omega arith in
        let line_of : Token → List Token → Result Instruction =
          assemble_line b (b.junk (length program)) all in
        let after : Instruction → Result Assembly =
          λ i. assemble_tokens b all (between (cleared s2.tk s2.ic) (program ++ i ∷ [])) rest in
        rw append_assoc (
          ap
            (λ (r : Result Assembly).
              r >>= λ s'. assemble_tokens b all s' (operands ++ bare symbol_expression_end ∷ rest))
            first
          ∙ assemble_operands s1 operands _ refl plain (omega arith)
          ∙ assemble_code_end s2 rest refl second (omega arith) room
          ∙ ap₂ (λ (t : Token) (n : ℕ). line_of t (tokens_of (fill tk1 1 operands) 1 n) >>= after)
              head size_of
          ∙ ap (λ (ts : List Token). line_of (word_token w) ts >>= after)
              (tokens_of-fill tk1 1 operands))

  cleared_second :
      (tk : ℕ → Token) (ic : ℕ)
      → is_colon (tk 1).kind ≡ false
      → is_colon (cleared tk ic 1).kind ≡ false
  unfolding cleared is_colon
  cleared_second tk ic h = ground arith

  append_instruction :
      (program : List Instruction) (i : Instruction) (r : Result (List Instruction))
      → (r >>= λ is. ok ((program ++ i ∷ []) ++ is))
        ≡ ((r >>= λ is. ok (i ∷ is)) >>= λ is'. ok (program ++ is'))
  append_instruction program i (ok is) = ap ok (append_assoc program (i ∷ []) is)
  append_instruction program i (fault e) = refl

  abbrev pub assembled : Assembly → List Token → Result (List Instruction)
  assembled s ts = assemble_tokens b all s ts >>= λ s'. ok s'.program

  pub assemble_lines :
      (ls : List Line) (after_label : Bool) (tk : ℕ → Token) (program : List Instruction)
      → (after_label ≡ false → is_colon (tk 1).kind ≡ false)
      → Tidy after_label ls
      → length program + code_count ls ≤ program_limit
      → assembled (between tk program) (lines_tokens ls)
        ≡ (code_list b all (length program) ls >>= λ is. ok (program ++ is))
  unfolding assemble_tokens
  assemble_lines [] after_label tk program seen h room = ap ok (sym (append-nil program))
  assemble_lines (label_line n ∷ ls) after_label tk program seen h room =
      let tk' : ℕ → Token = update (update tk 0 (word_token n)) 1 (bare symbol_colon) in
      rw (assemble_label_line tk program (lines_tokens ls) n)
        (assemble_lines ls true tk' program (λ e. grind arith) h room)
  assemble_lines (blank_line ∷ ls) after_label tk program seen h room =
      rw (assemble_blank_line tk program (lines_tokens ls))
        (assemble_lines ls after_label tk program seen h room)
  assemble_lines (comment_line ts ∷ ls) after_label tk program seen h room =
      rw (assemble_comment_line tk program (lines_tokens ls) ts h.0)
        (assemble_lines ls after_label tk program seen h.1 room)
  assemble_lines (code_line w operands ∷ ls) after_label tk program seen h room =
      let fits = operands_plain after_label operands h.0 in
      let tk1 : ℕ → Token = update tk 0 (word_token w) in
      let second = second_token after_label tk1 operands (λ e. seen e) h.0 in
      let line : Result Instruction =
        assemble_line b (b.junk (length program)) all (word_token w) operands in
      rw
        (assemble_code_line tk program (lines_tokens ls) w operands second fits.0 fits.1
          (omega arith))
        (elim (Result-cases line) [
          | inl (i, e) ↦
              let more : length (program ++ i ∷ []) ≡ length program + 1 =
                length-append program (i ∷ []) in
              let tk2 : ℕ → Token = cleared (fill tk1 1 operands) (1 + length operands) in
              let rest =
                assemble_lines ls false tk2 (program ++ i ∷ [])
                  (λ _. cleared_second _ (1 + length operands) second) h.1 (omega arith) in
              rw e (
                rest
                ∙ ap (λ (n : ℕ). code_list b all n ls >>= λ is. ok ((program ++ i ∷ []) ++ is)) more
                ∙ append_instruction program i (code_list b all (length program + 1) ls))
          | inr (f, e) ↦ rw e refl
        ])

  -- On the tokens of tidy lines, at most 128 of them instructions, `assemble_program` gives what
  -- the instructions assemble to, each from its own line and in their order, and its fault is the
  -- first fault of a line.
  pub assemble_program-lines :
      (ls : List Line)
      → Tidy false ls
      → code_count ls ≤ program_limit
      → assemble_program b all (lines_tokens ls) ≡ code_list b all 0 ls
  unfolding assemble_program is_colon
  assemble_program-lines ls h room =
      assemble_lines ls false (λ _. zero_token) [] (λ _. refl) h (omega arith)
      ∙ keep_program (code_list b all 0 ls)
