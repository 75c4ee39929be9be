-- ===== src/Disassembler/Operands.antt =====
-- The operands are read back from the printed text.
use mathlib.Core.List.{append_assoc, append-nil}
use Prim.Native.String.{String}
use c_at.Disassembler.Print.{args3}
use native.Mathlib.Decide.{dec_lt}
use native.Mathlib.Nat.{pow-suc, pow-zero}
use c_at.Base.{
  codes, sym, ◌/◌, ap, false, ◌∙◌, ltb, lt→ltb, ◌≤◌, zero, [], suc, if◌then◌else◌, ◌++◌, ◌≡◌, ◌-◌,
  ◌^◌, ◌%◌, ◌*◌, ◌<◌, ◌+◌, ◌∷◌, Bytes, ℕ, refl, arith,
}
use c_at.Disassembler.Show.{show_digits, show_uint, show_byte}
use c_at.Assembler.Operands.{is_digit}
use c_at.Machine.Defs.{size_mod}
use c_at.Inst.Defs.{Instruction}

-- A decimal number, digit by digit, and what stands behind it.
read_digits : ℕ → Bytes → ℕ × Bytes
read_digits acc [] = (acc, [])
read_digits acc (c ∷ s) =
    let rest = read_digits (acc * 10 + (c - b'0')) s in if is_digit c then rest else (acc, c ∷ s)

le→ltb : (a b : ℕ) → b ≤ a → ltb a b ≡ false
le→ltb a b h = ground arith

-- Digit `d` stands before what is read to `acc * 10 + d`.
read_digit :
    (acc n : ℕ) (s : Bytes)
    → read_digits acc ((b'0' + n % 10) ∷ s) ≡ read_digits (acc * 10 + n % 10) s
unfolding read_digits
read_digit acc n s = ground arith

-- Printing `n` before `out` and reading all from 0 reads `n` first, and then `out`.
read_digits-show_digits :
    (places n : ℕ) (out rest : Bytes)
    → n < 10 ^ places
    → read_digits 0 (show_digits places n out ++ rest) ≡ read_digits n (out ++ rest)
unfolding show_digits
read_digits-show_digits zero n out rest h =
    let nothing : n ≡ 0 = omega (arith, pow-zero 10) in
    ap (λ (m : ℕ). read_digits m (out ++ rest)) (sym nothing)
read_digits-show_digits (suc places) n out rest h = elim (dec_lt n 10) [
  | yes small ↦
      let value : 0 * 10 + n % 10 ≡ n = omega arith in
      rw (lt→ltb _ _ small)
        (read_digit 0 n (out ++ rest) ∙ ap (λ (m : ℕ). read_digits m (out ++ rest)) value)
  | no large ↦ rw (le→ltb n 10 (omega arith)) (
      read_digits-show_digits places (n / 10) ((b'0' + n % 10) ∷ out) rest
        (omega (arith, pow-suc 10 places))
      ∙ read_digit (n / 10) n (out ++ rest)
      ∙ ap (λ (m : ℕ). read_digits m (out ++ rest)) (omega arith))
]

-- The character behind a number is no digit.
abbrev pub StopsDigits : Bytes → Type 0
StopsDigits [] = Unit
StopsDigits (c ∷ s) = is_digit c ≡ false

read_digits_stop : (n : ℕ) (s : Bytes) → StopsDigits s → read_digits n s ≡ (n, s)
unfolding read_digits
read_digits_stop n [] h = refl
read_digits_stop n (c ∷ s) h = rw h refl

-- A number below 2 ^ 64 is read back from its decimal print.
read_digits-show_uint :
    (n : ℕ) (rest : Bytes)
    → n < size_mod
    → StopsDigits rest
    → read_digits 0 (show_uint n ++ rest) ≡ (n, rest)
unfolding show_uint
read_digits-show_uint n rest h stop =
    read_digits-show_digits 20 n [] rest (omega arith) ∙ read_digits_stop n rest stop

read_digits-show_byte :
    (r : ℕ) (rest : Bytes)
    → r < 128
    → StopsDigits rest
    → read_digits 0 (show_byte r ++ rest) ≡ (r, rest)
unfolding show_byte
read_digits-show_byte r rest h stop =
    rw (lt→ltb _ _ h) (read_digits-show_uint r rest (omega arith) stop)

-- Two numbers printed before the same kind of text are equal, and so is the text.
show_byte_injective :
    (r r' : ℕ) (s s' : Bytes)
    → r < 128
    → r' < 128
    → StopsDigits s
    → StopsDigits s'
    → show_byte r ++ s ≡ show_byte r' ++ s'
    → (r ≡ r') × (s ≡ s')
show_byte_injective r r' s s' h h' stop stop' e =
    let pairs : (r, s) ≡ (r', s') =
      sym (read_digits-show_byte r s h stop)
      ∙ ap (read_digits 0) e
      ∙ read_digits-show_byte r' s' h' stop' in
    (ap (λ (p : ℕ × Bytes). p.0) pairs, ap (λ (p : ℕ × Bytes). p.1) pairs)

++_cancel : (s t u : Bytes) → s ++ t ≡ s ++ u → t ≡ u
++_cancel [] t u e = e
++_cancel (c ∷ s) t u e = ++_cancel s t u (cc)

pub record HasSmallArgs (i : Instruction) : Type 0 where
  pub reg0_small : i.reg0 < 128
  pub reg1_small : i.reg1 < 128
  pub reg2_small : i.reg2 < 128

abbrev pub SameArgs : Instruction → Instruction → Type 0
SameArgs i j = (i.reg0 ≡ j.reg0) × (i.reg1 ≡ j.reg1) × (i.reg2 ≡ j.reg2)

-- What stands behind the first argument.
abbrev args_rest : String → String → Instruction → Bytes
args_rest t u i = codes t ++ (show_byte i.reg1 ++ (codes u ++ show_byte i.reg2))

pub args3_injective :
    (s t u : String) (i j : Instruction)
    → ((x : Bytes) → StopsDigits (codes t ++ x))
    → ((x : Bytes) → StopsDigits (codes u ++ x))
    → HasSmallArgs i
    → HasSmallArgs j
    → args3 s t u i ≡ args3 s t u j
    → SameArgs i j
args3_injective s t u i j stop_t stop_u h k e =
    let whole : codes s ++ (show_byte i.reg0 ++ args_rest t u i)
        ≡ codes s ++ (show_byte j.reg0 ++ args_rest t u j) =
      sym (append_assoc (codes s) (show_byte i.reg0) (args_rest t u i))
      ∙ e
      ∙ append_assoc (codes s) (show_byte j.reg0) (args_rest t u j) in
    let (e₀, rest₀) =
      show_byte_injective i.reg0 j.reg0 (args_rest t u i) (args_rest t u j) h.reg0_small
        k.reg0_small (stop_t _) (stop_t _) (++_cancel (codes s) _ _ whole) in
    let (e₁, rest₁) =
      show_byte_injective i.reg1 j.reg1 (codes u ++ show_byte i.reg2) (codes u ++ show_byte j.reg2)
        h.reg1_small k.reg1_small (stop_u _) (stop_u _) (++_cancel (codes t) _ _ rest₀) in
    let last = ++_cancel (codes u) _ _ rest₁ in
    let ended : show_byte i.reg2 ++ [] ≡ show_byte j.reg2 ++ [] =
      append-nil (show_byte i.reg2) ∙ last ∙ sym (append-nil (show_byte j.reg2)) in
    let (e₂, _) = show_byte_injective i.reg2 j.reg2 [] [] h.reg2_small k.reg2_small tt tt ended in
    (e₀, e₁, e₂)
