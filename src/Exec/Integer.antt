-- ===== src/Exec/Integer.antt =====
-- Arithmetic, logic and comparisons on the integer registers (`execute_op` of src/vm/set.c). The
-- registers are `uint`: arithmetic wraps, and the comparisons are unsigned.
use c_at.Base.{
  ℕ, ◌+◌, ◌-◌, ◌*◌, ◌/◌, ◌%◌, ◌==◌, leb, ltb, not, ◌&&◌, ◌||◌, of_bool, Result, ◌>>=◌, ◌>>◌, guard,
  division_by_zero,
}
use c_at.Inst.Defs.{Instruction}
use c_at.Machine.Defs.{Machine, uint_mod}
use c_at.Machine.State.{get_d, set_d}

-- `d_reg[r0] = f(d_reg[r1], d_reg[r2])`.
unfoldable pub binary_d : (ℕ → ℕ → ℕ) → Instruction → Machine → Result Machine
unfolding get_d set_d
binary_d f i m = do a ← get_d m i.reg1; b ← get_d m i.reg2; set_d m i.reg0 (f a b)

unfoldable pub exec_inc : Instruction → Machine → Result Machine
unfolding get_d set_d
exec_inc i m = do a ← get_d m i.reg0; set_d m i.reg0 ((a + 1) % uint_mod)

unfoldable pub exec_dec : Instruction → Machine → Result Machine
unfolding get_d set_d
exec_dec i m = do a ← get_d m i.reg0; set_d m i.reg0 ((a + uint_mod - 1) % uint_mod)

unfoldable pub exec_add : Instruction → Machine → Result Machine
unfolding binary_d
exec_add i m = binary_d (λ a b. (a + b) % uint_mod) i m

unfoldable pub exec_sub : Instruction → Machine → Result Machine
unfolding binary_d
exec_sub i m = binary_d (λ a b. (a + uint_mod - b) % uint_mod) i m

unfoldable pub exec_mul : Instruction → Machine → Result Machine
unfolding binary_d
exec_mul i m = binary_d (λ a b. a * b % uint_mod) i m

-- A division by zero traps.
unfoldable pub exec_div : Instruction → Machine → Result Machine
unfolding get_d set_d
exec_div i m = do
  a ← get_d m i.reg1
  b ← get_d m i.reg2
  guard (not (b == 0)) division_by_zero
  set_d m i.reg0 (a / b)

-- `&&` and `||`, not the bitwise operators.
unfoldable pub exec_and : Instruction → Machine → Result Machine
unfolding binary_d
exec_and i m = binary_d (λ a b. of_bool (not (a == 0) && not (b == 0))) i m

unfoldable pub exec_or : Instruction → Machine → Result Machine
unfolding binary_d
exec_or i m = binary_d (λ a b. of_bool (not (a == 0) || not (b == 0))) i m

unfoldable pub exec_cmpe : Instruction → Machine → Result Machine
unfolding binary_d
exec_cmpe i m = binary_d (λ a b. of_bool (a == b)) i m

unfoldable pub exec_cmpeg : Instruction → Machine → Result Machine
unfolding binary_d
exec_cmpeg i m = binary_d (λ a b. of_bool (leb b a)) i m

unfoldable pub exec_cmpel : Instruction → Machine → Result Machine
unfolding binary_d
exec_cmpel i m = binary_d (λ a b. of_bool (leb a b)) i m

unfoldable pub exec_cmpg : Instruction → Machine → Result Machine
unfolding binary_d
exec_cmpg i m = binary_d (λ a b. of_bool (ltb b a)) i m

unfoldable pub exec_cmpl : Instruction → Machine → Result Machine
unfolding binary_d
exec_cmpl i m = binary_d (λ a b. of_bool (ltb a b)) i m
