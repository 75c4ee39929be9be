-- ===== src/Assembler/Line/Constants.antt =====
-- Lines with a register and a number.
use c_at.Base.{
  fault, ◌>>=◌, update, Result, ◌∙◌, inr, ◌≢◌, inl, List, Bool-cases, ◌*◌, ◌/◌, [], ◌∷◌, ltb, ok,
  true, if◌then◌else◌, ◌%◌, some, length, ◌≡◌, ◌<◌, Bytes, ◌+◌, ℕ, refl, arith,
}
use c_at.Assembler.Keywords.Mnemonics.{mnemonic}
use c_at.Assembler.Line.Registers.{read_register, register_token, assemble_line-mnemonic}
use c_at.Assembler.Operands.{
  atoi_digits, Reg, atoi, parse_reg, length_error, value_of_text, is_decimal,
}
use c_at.Tokenizer.Defs.{word, word_literall_number, Token}
use c_at.Assembler.Line.{
  no_values, Values, read_operands, assemble_line, store_operand, Build, line_values, assemble_op,
  Label,
}
use c_at.Machine.Defs.{uint_mod}
use c_at.Assembler.Emit.{assemble, is_float_instr, get_instuction_count}
use c_at.Inst.Defs.{fadd, Inst}

abbrev digit : ℕ → ℕ
digit n = b'0' + n % 10

-- A number below 10000 in decimal, without zeros in front.
abbrev pub number_text : ℕ → Bytes
number_text n =
    if ltb n 10
    then digit n ∷ []
    else if ltb n 100
    then digit (n / 10) ∷ digit n ∷ []
    else if ltb n 1000
    then digit (n / 100) ∷ digit (n / 10) ∷ digit n ∷ []
    else digit (n / 1000) ∷ digit (n / 100) ∷ digit (n / 10) ∷ digit n ∷ []

atoi_digits-digit :
    (k n : ℕ) (str : Bytes) → atoi_digits k (digit n ∷ str) ≡ atoi_digits (k * 10 + n % 10) str
unfolding atoi_digits
atoi_digits-digit k n str = ground arith

atoi-digit : (n : ℕ) (str : Bytes) → atoi (digit n ∷ str) ≡ atoi_digits (n % 10) str % uint_mod
unfolding atoi
atoi-digit n str = ground (arith, atoi_digits-digit 0 n str)

atoi-two : (m n : ℕ) → atoi (digit m ∷ digit n ∷ []) ≡ m % 10 * 10 + n % 10
unfolding atoi_digits
atoi-two m n = rw (atoi-digit m (digit n ∷ []), atoi_digits-digit) (omega arith)

atoi-three :
    (k m n : ℕ) → atoi (digit k ∷ digit m ∷ digit n ∷ []) ≡ (k % 10 * 10 + m % 10) * 10 + n % 10
unfolding atoi_digits
atoi-three k m n =
    rw (atoi-digit k (digit m ∷ digit n ∷ []), atoi_digits-digit, atoi_digits-digit) (omega arith)

atoi-four :
    (j k m n : ℕ)
    → atoi (digit j ∷ digit k ∷ digit m ∷ digit n ∷ [])
      ≡ ((j % 10 * 10 + k % 10) * 10 + m % 10) * 10 + n % 10
unfolding atoi_digits
atoi-four j k m n =
    rw
      (
        atoi-digit j (digit k ∷ digit m ∷ digit n ∷ []),
        atoi_digits-digit,
        atoi_digits-digit,
        atoi_digits-digit,
      )
      (omega arith)

atoi_number : (n : ℕ) → n < 10000 → atoi (number_text n) ≡ n
unfolding atoi_digits
atoi_number n h = elim (Bool-cases (ltb n 10)) [
  | inl e ↦ rw (e, atoi-digit n []) (ground arith)
  | inr e ↦ rw e (elim (Bool-cases (ltb n 100)) [
    | inl f ↦ rw (f, atoi-two (n / 10) n) (ground arith)
    | inr f ↦ rw f (elim (Bool-cases (ltb n 1000)) [
      | inl g ↦ rw (g, atoi-three (n / 100) (n / 10) n) (ground arith)
      | inr g ↦ rw (g, atoi-four (n / 1000) (n / 100) (n / 10) n) (ground arith)
    ])
  ])
]

is_decimal_number : (n : ℕ) → is_decimal (number_text n) ≡ true
unfolding is_decimal
is_decimal_number n = ground arith

-- What `parse_reg` makes of a number.
abbrev pub number_reg : Reg → ℕ → Reg
number_reg junk n = record junk {
  error_id = length_error (length (number_text n)) junk.error_id;
  is_reg_n = 0;
  is_value = 1;
  is_float = 0;
  value_literall = n;
  reg_n = 0;
}

value_of_text-number :
    (atof : Bytes → ℕ) (r : Reg) (n : ℕ)
    → n < 10000
    → value_of_text atof (number_text n) r ≡ record r { is_float = 0; value_literall = n }
unfolding value_of_text
value_of_text-number atof r n h = rw (is_decimal_number n) (rw (atoi_number n h) refl)

-- A number below 10000 is read as its value, whatever the uninitialised `Reg` holds.
pub parse_reg-number :
    (atof : Bytes → ℕ) (junk : Reg) (n : ℕ)
    → n < 10000
    → parse_reg atof junk (number_text n) ≡ ok (number_reg junk n)
unfolding parse_reg
parse_reg-number atof junk n h = ground (arith, value_of_text-number atof _ n h)

-- The token of a number.
abbrev pub number_token : ℕ → Token
number_token n = record { literall = some (number_text n); kind = word_literall_number }

pub store_number :
    (b : Build) (op : Inst) (labels : List Label) (t : ℕ) (junk : Reg) (n : ℕ) (v : Values)
    → store_operand b op labels t (number_reg junk n) v
      ≡ ok (
          if is_float_instr op
          then record v { fvalue = b.float_of_uint n }
          else record v { dvalue = n })
unfolding store_operand
store_number b op labels t junk n v = ground arith

read_number :
    (b : Build) (junk : ℕ → Reg) (op : Inst) (labels : List Label) (t n : ℕ) (v : Values)
    → n < 10000
    → read_operands b junk op labels t (number_token n ∷ []) v
      ≡ store_operand b op labels t (number_reg (junk t) n) v
unfolding read_operands
read_number b junk op labels t n v h =
    rw (parse_reg-number b.atof (junk t) n h) (keep (store_operand b op labels t _ v))
  where
    keep : (r : Result Values) → (r >>= λ v'. ok v') ≡ r
    keep (ok v') = refl
    keep (fault e) = refl

-- A line with a register below 16 and a number below 10000, of an instruction other than `fadd`
-- with two operands, assembles to the instruction with the register and the number, as an integer
-- or, for an instruction on floats, converted to one.
pub assemble_line_constant :
    (b : Build) (junk : ℕ → Reg) (labels : List Label) (op : Inst) (x n : ℕ)
    → op ≢ fadd
    → get_instuction_count op ≡ 2
    → x < 16
    → n < 10000
    → assemble_line b junk labels
        (record { literall = some (mnemonic op); kind = word })
        (register_token x ∷ number_token n ∷ [])
      ≡ ok (
          if is_float_instr op
          then assemble op x 0 0 (b.float_of_uint n) 0
          else assemble op x 0 0 0 n)
unfolding assemble_op line_values
assemble_line_constant b junk labels op x n ne two hx hn =
    let set_first : Values = record no_values { regs = update no_values.regs 0 x } in
    let read =
      read_register b junk op labels 1 x (number_token n ∷ []) no_values hx
      ∙ read_number b junk op labels 2 n set_first hn
      ∙ store_number b op labels 2 (junk 2) n set_first in
    assemble_line-mnemonic b junk labels op _ ne ∙ ground (arith, two, read)
