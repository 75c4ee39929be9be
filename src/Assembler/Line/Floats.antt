-- ===== src/Assembler/Line/Floats.antt =====
-- Lines whose operands are float registers: `parse_reg` compares the whole text with `fr`.
use c_at.Base.{
  ◌∙◌, [], refl, arith, ◌+◌, ok, ◌≢◌, true, ◌<◌, ◌∷◌, ◌≡◌, List, some, str_eq, length, Bytes, ℕ,
}
use c_at.Assembler.Line.Registers.{register_text, assemble_line-mnemonic}
use c_at.Assembler.Line.{
  assemble_line, store_operand, assemble_op, read_operands, Label, no_values, Build, line_values,
  Values,
}
use c_at.Assembler.Keywords.Mnemonics.{mnemonic}
use c_at.Assembler.Emit.{is_float_instr, get_instuction_count, assemble}
use c_at.Assembler.Operands.{Reg, is_decimal, length_error, parse_reg, value_of_text, is_float_text}
use c_at.Tokenizer.Defs.{word, Token}
use c_at.Inst.Defs.{fset, fmul, fdiv, fsub, fadd, Inst}

-- The text `fr` followed by one or two digits.
abbrev pub float_text : ℕ → Bytes
float_text n = b'f' ∷ register_text n

-- What `parse_reg` makes of it: a value, which keeps what it held.
abbrev float_reg : Reg → ℕ → Reg
float_reg junk n = record junk {
  error_id = length_error (length (float_text n)) junk.error_id;
  is_reg_n = 0;
  is_value = 1;
  reg_n = 0;
}

parse_reg-float :
    (atof : Bytes → ℕ) (junk : Reg) (n : ℕ)
    → n < 16
    → parse_reg atof junk (float_text n) ≡ ok (float_reg junk n)
unfolding parse_reg value_of_text is_decimal is_float_text str_eq
parse_reg-float atof junk n h = ground arith

-- The token of a float register.
abbrev pub float_token : ℕ → Token
float_token n = record { literall = some (float_text n); kind = word }

store_float :
    (b : Build) (op : Inst) (labels : List Label) (t : ℕ) (junk : Reg) (n : ℕ) (v : Values)
    → is_float_instr op ≡ true
    → store_operand b op labels t (float_reg junk n) v
      ≡ ok (record v { fvalue = b.float_of_uint junk.value_literall })
unfolding store_operand
store_float b op labels t junk n v h = ground (arith, h)

read_float :
    (b : Build) (junk : ℕ → Reg) (op : Inst) (labels : List Label) (t n : ℕ) (rest : List Token)
    (v : Values)
    → is_float_instr op ≡ true
    → n < 16
    → read_operands b junk op labels t (float_token n ∷ rest) v
      ≡ read_operands b junk op labels
          (t + 1)
          rest
          (record v { fvalue = b.float_of_uint (junk t).value_literall })
unfolding read_operands
read_float b junk op labels t n rest v f h =
    rw (parse_reg-float b.atof (junk t) n h, store_float b op labels t (junk t) n v f) refl

-- An instruction on floats with three operands takes no constant.
assemble_constant :
    (op : Inst) (v : ℕ)
    → is_float_instr op ≡ true
    → get_instuction_count op ≡ 3
    → assemble op 0 0 0 v 0 ≡ assemble op 0 0 0 0 0
unfolding assemble is_float_instr get_instuction_count
assemble_constant fadd v f c = refl
assemble_constant fsub v f c = refl
assemble_constant fdiv v f c = refl
assemble_constant fmul v f c = refl
assemble_constant fset v f c = absurd (omega arith)
assemble_constant _ v f c = refl

-- A line of an instruction on floats other than `fadd` with three operands, all float registers
-- below 16, assembles to the instruction with register 0 for each of them, whatever the registers
-- and the uninitialised members are.
pub assemble_line_float_registers :
    (b : Build) (junk : ℕ → Reg) (labels : List Label) (op : Inst) (x y z : ℕ)
    → op ≢ fadd
    → is_float_instr op ≡ true
    → get_instuction_count op ≡ 3
    → x < 16
    → y < 16
    → z < 16
    → assemble_line b junk labels
        (record { literall = some (mnemonic op); kind = word })
        (float_token x ∷ float_token y ∷ float_token z ∷ [])
      ≡ ok (assemble op 0 0 0 0 0)
unfolding assemble_op line_values read_operands
assemble_line_float_registers b junk labels op x y z ne float three hx hy hz =
    let v : Values = record no_values { fvalue = b.float_of_uint (junk 3).value_literall } in
    let read : read_operands b junk op labels 1 (float_token x ∷ float_token y ∷ float_token z ∷ [])
          no_values
        ≡ ok v =
      read_float b junk op labels 1 x (float_token y ∷ float_token z ∷ []) no_values float hx
      ∙ read_float b junk op labels 2 y (float_token z ∷ []) _ float hy
      ∙ read_float b junk op labels 3 z [] _ float hz in
    assemble_line-mnemonic b junk labels op _ ne
    ∙ ground (
      arith,
      three,
      read,
      assemble_constant op (b.float_of_uint (junk 3).value_literall) float three,
    )
