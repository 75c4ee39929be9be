-- ===== src/Exec/Float.antt =====
-- Arithmetic and comparisons on the float registers, and the casts between the register files
-- (`execute_op` of src/vm/set.c).
use c_at.Base.{ℕ, Bool, of_bool, Result, ◌>>=◌}
use c_at.Inst.Defs.{Instruction}
use c_at.Machine.Defs.{Machine, Host}
use c_at.Machine.State.{get_d, set_d, get_f, set_f}

-- `f_reg[r0] = f(f_reg[r1], f_reg[r2])`.
unfoldable pub binary_f : (ℕ → ℕ → ℕ) → Instruction → Machine → Result Machine
unfolding get_f set_f
binary_f f i m = do a ← get_f m i.reg1; b ← get_f m i.reg2; set_f m i.reg0 (f a b)

-- `d_reg[r0] = f_reg[r1] ~ f_reg[r2]` for a comparison.
unfoldable pub compare_f : (ℕ → ℕ → Bool) → Instruction → Machine → Result Machine
unfolding get_f set_d
compare_f f i m = do a ← get_f m i.reg1; b ← get_f m i.reg2; set_d m i.reg0 (of_bool (f a b))

unfoldable pub exec_fadd : Host → Instruction → Machine → Result Machine
unfolding binary_f
exec_fadd host i m = binary_f host.float_add i m

unfoldable pub exec_fsub : Host → Instruction → Machine → Result Machine
unfolding binary_f
exec_fsub host i m = binary_f host.float_sub i m

unfoldable pub exec_fdiv : Host → Instruction → Machine → Result Machine
unfolding binary_f
exec_fdiv host i m = binary_f host.float_div i m

unfoldable pub exec_fmul : Host → Instruction → Machine → Result Machine
unfolding binary_f
exec_fmul host i m = binary_f host.float_mul i m

unfoldable pub exec_fcmpe : Host → Instruction → Machine → Result Machine
unfolding compare_f
exec_fcmpe host i m = compare_f host.float_eq i m

unfoldable pub exec_fcmpeg : Host → Instruction → Machine → Result Machine
unfolding compare_f
exec_fcmpeg host i m = compare_f host.float_ge i m

unfoldable pub exec_fcmpel : Host → Instruction → Machine → Result Machine
unfolding compare_f
exec_fcmpel host i m = compare_f host.float_le i m

unfoldable pub exec_fcmpg : Host → Instruction → Machine → Result Machine
unfolding compare_f
exec_fcmpg host i m = compare_f host.float_gt i m

unfoldable pub exec_fcmpl : Host → Instruction → Machine → Result Machine
unfolding compare_f
exec_fcmpl host i m = compare_f host.float_lt i m

-- `(int)` and `(uint)` keep the bits of a 32-bit value.
unfoldable pub exec_cu2i : Instruction → Machine → Result Machine
unfolding get_d set_d
exec_cu2i i m = do a ← get_d m i.reg1; set_d m i.reg0 a

unfoldable pub exec_ci2u : Instruction → Machine → Result Machine
unfolding get_d set_d
exec_ci2u i m = do a ← get_d m i.reg1; set_d m i.reg0 a

unfoldable pub exec_cf2i : Host → Instruction → Machine → Result Machine
unfolding get_f set_d
exec_cf2i host i m = do a ← get_f m i.reg1; set_d m i.reg0 (host.int_of_float a)

-- `(float)d_reg[r1]`: the register is a `uint` in both casts.
unfoldable pub exec_ci2f : Host → Instruction → Machine → Result Machine
unfolding get_d set_f
exec_ci2f host i m = do a ← get_d m i.reg1; set_f m i.reg0 (host.float_of_uint a)

unfoldable pub exec_cu2f : Host → Instruction → Machine → Result Machine
unfolding get_d set_f
exec_cu2f host i m = do a ← get_d m i.reg1; set_f m i.reg0 (host.float_of_uint a)

unfoldable pub exec_cf2u : Host → Instruction → Machine → Result Machine
unfolding get_f set_d
exec_cf2u host i m = do a ← get_f m i.reg1; set_d m i.reg0 (host.uint_of_float a)
