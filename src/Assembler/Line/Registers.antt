-- ===== src/Assembler/Line/Registers.antt =====
-- Lines whose operands are integer registers, and what the machine does with the result.
use c_at.Base.{
  ◌>>=◌, refl, ◌∙◌, ◌-◌, ◌≢◌, update, List, some, length, ok, ◌%◌, arith, ◌/◌, ◌≡◌, ◌+◌, drop, ltb,
  ◌<◌, if◌then◌else◌, Bytes, ℕ, [], ◌∷◌,
}
use c_at.Assembler.Operands.{length_error, Reg, parse_reg, atoi}
use c_at.Assembler.Line.{
  line_values, assemble_op, Values, assemble_line, Label, Build, read_operands, no_values,
  store_operand,
}
use c_at.Tokenizer.Defs.{word, Token}
use c_at.Assembler.Keywords.Mnemonics.{is_keyword-mnemonic, mnemonic}
use c_at.Assembler.Emit.{get_instuction_count, assemble}
use c_at.Inst.Codes.{decode_inst-inst_code}
use c_at.Inst.Defs.{add, inst_code, operation_of, fadd, Inst}
use c_at.Exec.Step.{execute_inst, dispatch}
use c_at.Machine.Defs.{uint_mod, Host, Machine}
use c_at.Inst.Macros.{instruction, make_add}
use c_at.Exec.Integer.{exec_add, binary_d}

-- The text `r` followed by one or two digits.
abbrev pub register_text : ℕ → Bytes
register_text n =
    if ltb n 10 then b'r' ∷ (b'0' + n) ∷ [] else b'r' ∷ (b'0' + n / 10) ∷ (b'0' + n % 10) ∷ []

atoi_register : (n : ℕ) → n < 16 → atoi (drop 1 (register_text n)) ≡ n
unfolding atoi
atoi_register n h = ground arith

-- What `parse_reg` makes of a register operand; the other members keep what they held.
abbrev pub register_reg : Reg → ℕ → Reg
register_reg junk n = record junk {
  error_id = length_error (length (register_text n)) junk.error_id;
  is_reg_n = 1;
  is_float = 0;
  is_value = 0;
  reg_n = n;
}

-- A register operand is read as its number, whatever the uninitialised `Reg` holds.
pub parse_reg-register :
    (atof : Bytes → ℕ) (junk : Reg) (n : ℕ)
    → n < 16
    → parse_reg atof junk (register_text n) ≡ ok (register_reg junk n)
unfolding parse_reg
parse_reg-register atof junk n h = ground (arith, atoi_register n h)

-- The token of a register operand.
abbrev pub register_token : ℕ → Token
register_token n = record { literall = some (register_text n); kind = word }

pub store_register :
    (b : Build) (op : Inst) (labels : List Label) (t : ℕ) (junk : Reg) (n : ℕ) (v : Values)
    → n < 16
    → store_operand b op labels t (register_reg junk n) v
      ≡ ok (record v { regs = update v.regs (t - 1) n })
unfolding store_operand
store_register b op labels t junk n v h = ground arith

pub read_register :
    (b : Build) (junk : ℕ → Reg) (op : Inst) (labels : List Label) (t n : ℕ) (rest : List Token)
    (v : Values)
    → n < 16
    → read_operands b junk op labels t (register_token n ∷ rest) v
      ≡ read_operands b junk op labels (t + 1) rest (record v { regs = update v.regs (t - 1) n })
unfolding read_operands
read_register b junk op labels t n rest v h =
    rw (parse_reg-register b.atof (junk t) n h) (rw (store_register b op labels t (junk t) n v h))

-- A line whose first word is a keyword is assembled as that instruction.
pub assemble_line-mnemonic :
    (b : Build) (junk : ℕ → Reg) (labels : List Label) (op : Inst) (operands : List Token)
    → op ≢ fadd
    → assemble_line b junk labels (record { literall = some (mnemonic op); kind = word }) operands
      ≡ assemble_op b junk op labels operands
unfolding assemble_line
assemble_line-mnemonic b junk labels op operands ne =
    ground (arith, is_keyword-mnemonic op ne, decode_inst-inst_code op)

read_registers :
    (b : Build) (junk : ℕ → Reg) (op : Inst) (labels : List Label) (x y z : ℕ)
    → x < 16
    → y < 16
    → z < 16
    → (v : Values) × (read_operands b junk op labels 1
          (register_token x ∷ register_token y ∷ register_token z ∷ [])
          no_values
        ≡ ok v)
      × (assemble op (v.regs 0) (v.regs 1) (v.regs 2) v.fvalue v.dvalue ≡ assemble op x y z 0 0)
unfolding read_operands
read_registers b junk op labels x y z hx hy hz =
    let rest = register_token z ∷ [] in
    (
      _,
      read_register b junk op labels 1 x (register_token y ∷ rest) no_values hx
          ∙ read_register b junk op labels 2 y rest _ hy
          ∙ read_register b junk op labels 3 z [] _ hz,
      refl,
    )

-- A line of an instruction other than `fadd` that takes three operands, all of them registers
-- below 16, assembles to that instruction with these registers in order, whatever the labels and
-- the uninitialised memory hold.
pub assemble_line_registers :
    (b : Build) (junk : ℕ → Reg) (labels : List Label) (op : Inst) (x y z : ℕ)
    → op ≢ fadd
    → get_instuction_count op ≡ 3
    → x < 16
    → y < 16
    → z < 16
    → assemble_line b junk labels
        (record { literall = some (mnemonic op); kind = word })
        (register_token x ∷ register_token y ∷ register_token z ∷ [])
      ≡ ok (assemble op x y z 0 0)
unfolding assemble_op line_values
assemble_line_registers b junk labels op x y z ne three hx hy hz =
    let (v, read, same) = read_registers b junk op labels x y z hx hy hz in
    assemble_line-mnemonic b junk labels op _ ne ∙ ground (arith, three, read, same)

-- A line `add rx ry rz`, with x, y and z below 16, assembles to an instruction that, dispatched
-- on any machine, puts the sum of `ry` and `rz` modulo 2 ^ 32 in `rx`.
pub dispatch-assemble_line_add :
    (host : Host) (b : Build) (junk : ℕ → Reg) (labels : List Label) (m : Machine) (x y z : ℕ)
    → x < 16
    → y < 16
    → z < 16
    → (assemble_line b junk labels
          (record { literall = some (mnemonic add); kind = word })
          (register_token x ∷ register_token y ∷ register_token z ∷ [])
        >>= λ i. dispatch host (operation_of i) i m)
      ≡ ok (record m {
        iregisters = update m.iregisters x ((m.iregisters y + m.iregisters z) % uint_mod);
      })
unfolding get_instuction_count dispatch execute_inst exec_add binary_d assemble make_add instruction
    operation_of inst_code
dispatch-assemble_line_add host b junk labels m x y z hx hy hz =
    rw (assemble_line_registers b junk labels add x y z (λ e. cc) refl hx hy hz) (ground arith)
