-- ===== src/Mains/Emitted.antt =====
-- The instructions that the assembler makes have the sizes of their C types.
use c_at.Base.{
  length-append, ◌≤◌, ◌≡◌, Bytes, ◌-◌, out_of_bounds, length, ltb, Holds-guard, fault, ◌==◌, ok,
  inl, inr, ◌>>=◌, Holds-bind, false, Bool-cases, [], Option-cases, Result, Holds, ◌∷◌, ◌++◌, ℕ,
  List, arith,
}
use c_at.Inst.Macros.{
  make_print, make_dload, make_halt, make_inc, make_or, make_set, make_ret, make_div, make_cu2i,
  make_add, make_cf2i, make_fset, make_cmpl, make_jmp, make_push, make_rec, make_dec, make_call,
  make_mul, make_fcmpg, make_cmpe, make_getac, make_fsub, make_fcmpel, make_rjmp, make_cu2f,
  make_reg_dump, make_pop, make_fdiv, make_nejmp, make_ejmp, instruction, make_nerjmp, make_sub,
  make_fmul, make_cmpel, make_cmpeg, make_dsave, make_fcmpeg, make_cf2u, make_ci2f, make_fsave,
  make_fload, make_fadd, make_fcmpe, make_erjmp, make_fcmpl, make_ci2u, make_and, make_cmpg,
}
use c_at.Files.RoundTrip.{Fits, AllFit}
use c_at.Inst.Macros.{instruction}
use c_at.Inst.Defs.{
  Inst, Instruction, inst_code, decode_inst, halt, entry, dload, fload, dsave, fsave, set, fset,
  push, pop, rec, call, getac, inc, dec, add, sub, div, mul, fadd, fsub, fdiv, fmul, and, or, cu2i,
  ci2u, cf2i, ci2f, cu2f, cf2u, cmpe, cmpeg, cmpel, cmpg, cmpl, fcmpe, fcmpeg, fcmpel, fcmpg, fcmpl,
  jmp, ejmp, nejmp, rjmp, erjmp, nerjmp, print, reg_dump, ret, nop,
}
use c_at.Assembler.Emit.{assemble}
use c_at.Assembler.Line.{line_values, assemble_line, assemble_op, Values, Label, Build}
use c_at.Assembler.Program.{
  file_text, assemble_source, assemble_end, assemble_tokens, assembly_start, assemble_program,
  Assembly, tokens_of, program_limit, assemble_token,
}
use c_at.Assembler.Keywords.{is_keyword}
use c_at.Tokenizer.Defs.{Token}
use c_at.Assembler.Labels.{index_labels, looks_like_label}
use c_at.Assembler.Operands.{Reg}
use c_at.Tokenizer.Next.{tokenize}

assemble-Fits : (op : Inst) (a₀ a₁ a₂ f d : ℕ) → Fits (assemble op a₀ a₁ a₂ f d)
unfolding inst_code instruction assemble make_add make_and make_call make_cf2i make_cf2u make_ci2f
    make_ci2u make_cmpe make_cmpeg make_cmpel make_cmpg make_cmpl make_cu2f make_cu2i make_dec
    make_div make_dload make_dsave make_ejmp make_erjmp make_fadd make_fcmpe make_fcmpeg make_fcmpel
    make_fcmpg make_fcmpl make_fdiv make_fload make_fmul make_fsave make_fset make_fsub make_getac
    make_halt make_inc make_jmp make_mul make_nejmp make_nerjmp make_or make_pop make_print
    make_push make_rec make_reg_dump make_ret make_rjmp make_set make_sub
assemble-Fits halt a₀ a₁ a₂ f d = omega arith
assemble-Fits entry a₀ a₁ a₂ f d = omega arith
assemble-Fits dload a₀ a₁ a₂ f d = omega arith
assemble-Fits fload a₀ a₁ a₂ f d = omega arith
assemble-Fits dsave a₀ a₁ a₂ f d = omega arith
assemble-Fits fsave a₀ a₁ a₂ f d = omega arith
assemble-Fits set a₀ a₁ a₂ f d = omega arith
assemble-Fits fset a₀ a₁ a₂ f d = omega arith
assemble-Fits push a₀ a₁ a₂ f d = omega arith
assemble-Fits pop a₀ a₁ a₂ f d = omega arith
assemble-Fits rec a₀ a₁ a₂ f d = omega arith
assemble-Fits call a₀ a₁ a₂ f d = omega arith
assemble-Fits getac a₀ a₁ a₂ f d = omega arith
assemble-Fits inc a₀ a₁ a₂ f d = omega arith
assemble-Fits dec a₀ a₁ a₂ f d = omega arith
assemble-Fits add a₀ a₁ a₂ f d = omega arith
assemble-Fits sub a₀ a₁ a₂ f d = omega arith
assemble-Fits div a₀ a₁ a₂ f d = omega arith
assemble-Fits mul a₀ a₁ a₂ f d = omega arith
assemble-Fits fadd a₀ a₁ a₂ f d = omega arith
assemble-Fits fsub a₀ a₁ a₂ f d = omega arith
assemble-Fits fdiv a₀ a₁ a₂ f d = omega arith
assemble-Fits fmul a₀ a₁ a₂ f d = omega arith
assemble-Fits and a₀ a₁ a₂ f d = omega arith
assemble-Fits or a₀ a₁ a₂ f d = omega arith
assemble-Fits cu2i a₀ a₁ a₂ f d = omega arith
assemble-Fits ci2u a₀ a₁ a₂ f d = omega arith
assemble-Fits cf2i a₀ a₁ a₂ f d = omega arith
assemble-Fits ci2f a₀ a₁ a₂ f d = omega arith
assemble-Fits cu2f a₀ a₁ a₂ f d = omega arith
assemble-Fits cf2u a₀ a₁ a₂ f d = omega arith
assemble-Fits cmpe a₀ a₁ a₂ f d = omega arith
assemble-Fits cmpeg a₀ a₁ a₂ f d = omega arith
assemble-Fits cmpel a₀ a₁ a₂ f d = omega arith
assemble-Fits cmpg a₀ a₁ a₂ f d = omega arith
assemble-Fits cmpl a₀ a₁ a₂ f d = omega arith
assemble-Fits fcmpe a₀ a₁ a₂ f d = omega arith
assemble-Fits fcmpeg a₀ a₁ a₂ f d = omega arith
assemble-Fits fcmpel a₀ a₁ a₂ f d = omega arith
assemble-Fits fcmpg a₀ a₁ a₂ f d = omega arith
assemble-Fits fcmpl a₀ a₁ a₂ f d = omega arith
assemble-Fits jmp a₀ a₁ a₂ f d = omega arith
assemble-Fits ejmp a₀ a₁ a₂ f d = omega arith
assemble-Fits nejmp a₀ a₁ a₂ f d = omega arith
assemble-Fits rjmp a₀ a₁ a₂ f d = omega arith
assemble-Fits erjmp a₀ a₁ a₂ f d = omega arith
assemble-Fits nerjmp a₀ a₁ a₂ f d = omega arith
assemble-Fits print a₀ a₁ a₂ f d = omega arith
assemble-Fits reg_dump a₀ a₁ a₂ f d = omega arith
assemble-Fits ret a₀ a₁ a₂ f d = omega arith
assemble-Fits nop a₀ a₁ a₂ f d = omega arith

assemble_op-Fits :
    (b : Build) (junk : ℕ → Reg) (op : Inst) (labels : List Label) (operands : List Token)
    → Holds Fits (assemble_op b junk op labels operands)
unfolding assemble_op
assemble_op-Fits b junk op labels operands = by_values (line_values b junk op labels operands)
  where
    by_values :
        (r : Result Values)
        → Holds Fits
            (r >>= λ v. ok (assemble op (v.regs 0) (v.regs 1) (v.regs 2) v.fvalue v.dvalue))
    by_values (ok v) = assemble-Fits op _ _ _ _ _
    by_values (fault e) = tt

assemble_line-Fits :
    (b : Build) (junk : ℕ → Reg) (labels : List Label) (first : Token) (operands : List Token)
    → Holds Fits (assemble_line b junk labels first operands)
unfolding assemble_line is_keyword
assemble_line-Fits b junk labels first operands = elim (Option-cases first.literall) [
  | inr none_e ↦ rw none_e tt
  | inl (text, text_e) ↦ rw text_e (elim (Option-cases (is_keyword text)) [
    | inr none_e ↦ rw none_e tt
    | inl (type, type_e) ↦ rw type_e (elim (Option-cases (decode_inst type)) [
      | inr none_e ↦ rw none_e tt
      | inl (op, op_e) ↦ rw op_e (assemble_op-Fits b junk op labels operands)
    ])
  ])
]

AllFit-append : (is js : List Instruction) → AllFit is → AllFit js → AllFit (is ++ js)
AllFit-append [] js h k = k
AllFit-append (i ∷ is) js h k = (h.0, AllFit-append is js h.1 k)

-- The instructions fit, and so does the program in its array.
abbrev IsEmitted : List Instruction → Type 0
IsEmitted program = AllFit program × (length program ≤ program_limit)

abbrev ProgramFits : Assembly → Type 0
ProgramFits s = IsEmitted s.program

assemble_end-ProgramFits :
    (b : Build) (labels : List Label) (s : Assembly)
    → ProgramFits s
    → Holds ProgramFits (assemble_end b labels s)
unfolding assemble_end
assemble_end-ProgramFits b labels s h = elim (Bool-cases (looks_like_label s.tk s.ic)) [
  | inl e ↦ rw e h
  | inr e ↦ rw e (elim (Bool-cases (s.ic == 0)) [
    | inl f ↦ rw f h
    | inr f ↦ rw f (
        Holds-guard ProgramFits (ltb (length s.program) program_limit) out_of_bounds _ λ room.
          Holds-bind Fits ProgramFits
            (assemble_line b (b.junk (length s.program)) labels (s.tk 0)
              (tokens_of s.tk 1 (s.ic - 1)))
            _ (assemble_line-Fits b (b.junk (length s.program)) labels (s.tk 0) _)
            λ i fit. (
              AllFit-append s.program (i ∷ []) h.0 (fit, tt),
              ground (arith, length-append s.program (i ∷ []), room),
            ))
  ])
]

assemble_token-ProgramFits :
    (b : Build) (labels : List Label) (s : Assembly) (t : Token)
    → ProgramFits s
    → Holds ProgramFits (assemble_token b labels s t)
unfolding assemble_token
assemble_token-ProgramFits b labels s t h =
    ground (arith, assemble_end-ProgramFits b labels (record s { line_is_comment = false }) h)

assemble_tokens-ProgramFits :
    (b : Build) (labels : List Label) (s : Assembly) (list : List Token)
    → ProgramFits s
    → Holds ProgramFits (assemble_tokens b labels s list)
unfolding assemble_tokens
assemble_tokens-ProgramFits b labels s [] h = h
assemble_tokens-ProgramFits b labels s (t ∷ list) h =
    Holds-bind ProgramFits ProgramFits (assemble_token b labels s t) _
      (assemble_token-ProgramFits b labels s t h)
      λ s' h'. assemble_tokens-ProgramFits b labels s' list h'

Holds-unit {ℓ} : {A : Type ℓ} (r : Result A) → Holds (λ _. Unit {0}) r
Holds-unit (ok a) = tt
Holds-unit (fault e) = tt

-- Every program that the second pass makes has members of the sizes of their C types, and has at
-- most 128 instructions.
assemble_program-IsEmitted :
    (b : Build) (labels : List Label) (list : List Token)
    → Holds IsEmitted (assemble_program b labels list)
unfolding assemble_program
assemble_program-IsEmitted b labels list =
    Holds-bind ProgramFits IsEmitted (assemble_tokens b labels assembly_start list) _
      (assemble_tokens-ProgramFits b labels assembly_start list (tt, omega arith)) λ s h. h

assemble_source-IsEmitted :
    (b : Build) (residue : ℕ → ℕ → ℕ) (source : Bytes) {program : List Instruction}
    → assemble_source b residue source ≡ ok program
    → IsEmitted program
unfolding assemble_source
assemble_source-IsEmitted b residue source made = rw made at (fits_all)
  where
    fits_all : Holds IsEmitted (assemble_source b residue source)
    fits_all =
        Holds-bind (λ _. Unit {0}) IsEmitted (file_text source) _ (Holds-unit _)
          λ text _.
            Holds-bind (λ _. Unit {0}) IsEmitted (tokenize residue text) _ (Holds-unit _)
              λ list _.
                Holds-bind (λ _. Unit {0}) IsEmitted (index_labels list) _ (Holds-unit _)
                  λ labels _. assemble_program-IsEmitted b labels list

-- Every instruction of a program that is assembled from the text of a file has members within the
-- sizes of their C types, whatever uninitialised memory, `atof` and the conversion to a float
-- give.
pub assemble_source-AllFit :
    (b : Build) (residue : ℕ → ℕ → ℕ) (source : Bytes) {program : List Instruction}
    → assemble_source b residue source ≡ ok program
    → AllFit program
assemble_source-AllFit b residue source made = (assemble_source-IsEmitted b residue source made).0

-- A program that is assembled fits its array.
pub assemble_source-length :
    (b : Build) (residue : ℕ → ℕ → ℕ) (source : Bytes) {program : List Instruction}
    → assemble_source b residue source ≡ ok program
    → length program ≤ program_limit
assemble_source-length b residue source made = (assemble_source-IsEmitted b residue source made).1
