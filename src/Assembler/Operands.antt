-- ===== src/Assembler/Operands.antt =====
-- `Reg`, `is_decimal`, `is_float` and `parse_reg`. A `Reg` is a local variable without an
-- initialiser: `parse_reg` takes what it holds before as an argument, and sets only some members.
use c_at.Base.{
  some, assertion, get_or, drop, ok, codes, out_of_bounds, guard, ◌>>◌, ltb, length, Result, [],
  ◌==◌, ◌∷◌, str_eq, Bytes, leb, Option, ℕ, ◌+◌, ◌-◌, ◌*◌, ◌%◌, Bool, true, ◌&&◌, ◌||◌, not,
  if◌then◌else◌,
}
use c_at.Machine.Defs.{uint_mod}

pub record Reg : Type 0 where
  pub is_reg_n : ℕ
  pub reg_n : ℕ
  pub is_value : ℕ
  pub is_float : ℕ
  pub is_label : ℕ
  pub error_id : ℕ
  pub value_literall : ℕ
  pub value_label : Option Bytes

abbrev pub is_digit : ℕ → Bool
is_digit c = leb b'0' c && leb c b'9'

unfoldable pub is_decimal : Bytes → Bool
is_decimal [] = true
is_decimal (c ∷ str) = (is_digit c || c == b'-') && is_decimal str

unfoldable pub is_float_text : Bytes → Bool
is_float_text [] = true
is_float_text (c ∷ str) = (is_digit c && not (c == b'-') && not (c == b'.')) && is_float_text str

-- `atoi`: blanks, a sign, digits up to the first other character. The result is the bit pattern of
-- the `int`; no text of this program is long enough to overflow one.
unfoldable pub atoi_digits : ℕ → Bytes → ℕ
atoi_digits n [] = n
atoi_digits n (c ∷ str) = if is_digit c then atoi_digits (n * 10 + (c - b'0')) str else n

unfoldable pub atoi_signed : Bytes → ℕ
unfolding atoi_digits
atoi_signed [] = 0
atoi_signed (c ∷ str) =
    if c == b'-'
    then (uint_mod - atoi_digits 0 str % uint_mod) % uint_mod
    else if c == b'+'
    then atoi_digits 0 str % uint_mod
    else atoi_digits 0 (c ∷ str) % uint_mod

unfoldable pub atoi : Bytes → ℕ
unfolding atoi_signed
atoi [] = 0
atoi (c ∷ str) = if c == b' ' || (leb 9 c && leb c 13) then atoi str else atoi_signed (c ∷ str)

unfoldable pub get_decimal_value : Bytes → ℕ
unfolding atoi
get_decimal_value str = atoi str

-- `atof`, of the C library, which a text that is not `is_decimal` would go to.
unfoldable pub value_of_text : (Bytes → ℕ) → Bytes → Reg → Reg
unfolding is_decimal is_float_text get_decimal_value
value_of_text atof str r =
    if is_decimal str
    then record r { is_float = 0; value_literall = get_decimal_value str }
    else if is_float_text str
    then record r { is_float = 1; value_literall = atof str }
    else r

-- The branches on the first characters. A label needs a character behind the `L`. `number` holds
-- what follows the letter `r`; in the other branches it is empty, and `atoi` gives 0.
unfoldable pub set_members : (Bytes → ℕ) → Reg → Bytes → Result Reg
unfolding value_of_text atoi str_eq
set_members atof r str =
    if str_eq str (codes "fr")
    then ok (record r { is_float = 1; is_reg_n = 1; reg_n = atoi (drop 2 str) % 256 })
    else if get_or str 0 0 == b'r'
    then ok (record r { is_reg_n = 1; is_float = 0; is_value = 0; reg_n = atoi (drop 1 str) % 256 })
    else if get_or str 0 0 == b'L'
    then (guard (ltb 1 (length str)) assertion
        >> ok (record r {
          is_reg_n = 0;
          is_float = 0;
          is_label = 1;
          value_label = some str;
          reg_n = 0;
        }))
    else ok
        (record (value_of_text atof str (record r { is_reg_n = 0; is_value = 1 })) { reg_n = 0 })

-- `error_id` after the tests of the length: -1 or -2, which nothing reads.
unfoldable pub length_error : ℕ → ℕ → ℕ
length_error len error = if ltb len 2 then 255 else if leb 3 len then 254 else error

-- `prefix` has four places, and the whole text is copied there.
unfoldable pub parse_reg : (Bytes → ℕ) → Reg → Bytes → Result Reg
unfolding set_members length_error
parse_reg atof r str = do
  guard (leb (length str) 4) out_of_bounds
  set_members atof (record r { error_id = length_error (length str) r.error_id }) str
