-- ===== src/Assembler/Line/Labels.antt =====
-- Lines whose operand is a reference to a label.
use c_at.Base.{◌∙◌, [], false, ok, ◌≢◌, ◌≡◌, ◌<◌, some, List, length, ◌∷◌, ℕ, Bytes, arith}
use c_at.Assembler.Operands.{length_error, Reg, parse_reg}
use c_at.Assembler.Keywords.Mnemonics.{mnemonic}
use c_at.Assembler.Line.{
  assemble_op, Build, assemble_line, find_address, find_label, Label, Values, no_values,
  line_values, store_operand, read_operands,
}
use c_at.Assembler.Line.Registers.{assemble_line-mnemonic}
use c_at.Assembler.Emit.{get_instuction_count, is_float_instr, assemble}
use c_at.Tokenizer.Defs.{Token, word}
use c_at.Inst.Defs.{fadd, Inst}

-- The text of a reference.
abbrev pub reference : Bytes → Bytes
reference name = b'L' ∷ name

-- What `parse_reg` makes of a reference: `is_value` keeps what it held.
abbrev pub label_reg : Reg → Bytes → Reg
label_reg junk name = record junk {
  error_id = length_error (length (reference name)) junk.error_id;
  is_reg_n = 0;
  is_float = 0;
  is_label = 1;
  value_label = some (reference name);
  reg_n = 0;
}

pub parse_reg-reference :
    (atof : Bytes → ℕ) (junk : Reg) (c : ℕ) (name : Bytes)
    → length name < 3
    → parse_reg atof junk (reference (c ∷ name)) ≡ ok (label_reg junk (c ∷ name))
unfolding parse_reg
parse_reg-reference atof junk c name h = ground arith

pub find_label-reference :
    (junk : Reg) (labels : List Label) (c : ℕ) (name : Bytes) {a : ℕ}
    → find_address (c ∷ name) labels ≡ ok (some a)
    → find_label (label_reg junk (c ∷ name)) labels ≡ ok a
unfolding find_label
find_label-reference junk labels c name found = ground (arith, found)

store_reference :
    (b : Build) (op : Inst) (labels : List Label) (junk : Reg) (c : ℕ) (name : Bytes) {a : ℕ}
    → junk.is_value ≡ 0
    → find_address (c ∷ name) labels ≡ ok (some a)
    → store_operand b op labels 1 (label_reg junk (c ∷ name)) no_values
      ≡ ok (record no_values { dvalue = a })
unfolding store_operand
store_reference b op labels junk c name clear found =
    ground (arith, clear, find_label-reference junk labels c name found)

-- Where the uninitialised `is_value` is set, the reference is taken for a number.
store_stale_reference :
    (b : Build) (op : Inst) (labels : List Label) (junk : Reg) (c : ℕ) (name : Bytes)
    → 0 < junk.is_value
    → is_float_instr op ≡ false
    → store_operand b op labels 1 (label_reg junk (c ∷ name)) no_values
      ≡ ok (record no_values { dvalue = junk.value_literall })
unfolding store_operand
store_stale_reference b op labels junk c name set_before h = ground (arith, set_before, h)

-- The token of a reference.
abbrev pub reference_token : ℕ → Bytes → Token
reference_token c name = record { literall = some (reference (c ∷ name)); kind = word }

module _ (b : Build) (junk : ℕ → Reg) (labels : List Label) (op : Inst) (c : ℕ) (name : Bytes) where
  read_reference :
      {v : Values}
      → length name < 3
      → store_operand b op labels 1 (label_reg (junk 1) (c ∷ name)) no_values ≡ ok v
      → read_operands b junk op labels 1 (reference_token c name ∷ []) no_values ≡ ok v
  unfolding read_operands
  read_reference short stored = rw (parse_reg-reference b.atof (junk 1) c name short) (rw stored)

  assemble_reference :
      {v : Values}
      → op ≢ fadd
      → get_instuction_count op ≡ 1
      → length name < 3
      → store_operand b op labels 1 (label_reg (junk 1) (c ∷ name)) no_values ≡ ok v
      → assemble_line b junk labels
          (record { literall = some (mnemonic op); kind = word })
          (reference_token c name ∷ [])
        ≡ ok (assemble op (v.regs 0) (v.regs 1) (v.regs 2) v.fvalue v.dvalue)
  unfolding assemble_op line_values
  assemble_reference ne one short stored =
      assemble_line-mnemonic b junk labels op _ ne
      ∙ ground (arith, one, read_reference short stored)

  -- A line with one operand, a reference `Lname` to a label that `find_label` finds at `a`, assembles
  -- to the instruction with the constant `a`, where the uninitialised `is_value` of the operand is 0.
  -- The name has three characters at most.
  pub assemble_line_reference :
      {a : ℕ}
      → op ≢ fadd
      → get_instuction_count op ≡ 1
      → length name < 3
      → (junk 1).is_value ≡ 0
      → find_address (c ∷ name) labels ≡ ok (some a)
      → assemble_line b junk labels
          (record { literall = some (mnemonic op); kind = word })
          (reference_token c name ∷ [])
        ≡ ok (assemble op 0 0 0 0 a)
  assemble_line_reference ne one short clear found =
      assemble_reference ne one short (store_reference b op labels (junk 1) c name clear found)

  -- Where the uninitialised `is_value` of the operand is not 0, a line with one reference of up
  -- to three characters, of an instruction with one operand that is not on floats, assembles to
  -- the instruction with the uninitialised `value_literall` for its constant, whatever the labels
  -- are.
  pub assemble_line_stale_reference :
      op ≢ fadd
      → is_float_instr op ≡ false
      → get_instuction_count op ≡ 1
      → length name < 3
      → 0 < (junk 1).is_value
      → assemble_line b junk labels
          (record { literall = some (mnemonic op); kind = word })
          (reference_token c name ∷ [])
        ≡ ok (assemble op 0 0 0 0 (junk 1).value_literall)
  assemble_line_stale_reference ne no_float one short stale =
      assemble_reference ne one short
        (store_stale_reference b op labels (junk 1) c name stale no_float)
