-- ===== src/Exec/Memory.antt =====
-- The stack, loads, saves and immediate values (`execute_op` of src/vm/set.c).
use c_at.Base.{ℕ, ◌+◌, ◌-◌, ◌%◌, ltb, if◌then◌else◌, Result, ok, ◌>>=◌}
use c_at.Inst.Defs.{Instruction}
use c_at.Machine.Defs.{Machine, uint_mod}
use c_at.Machine.State.{get_d, set_d, get_f, set_f}
use c_at.Machine.Memory.{
  push_decimal, pop_decimal, load_decimal, save_decimal, load_float, save_float,
}

-- A `char` converted to `uint`: a pattern from 128 is negative.
unfoldable pub uint_of_byte : ℕ → ℕ
uint_of_byte b = if ltb b 128 then b else b + uint_mod - 256

unfoldable pub exec_push : Instruction → Machine → Result Machine
unfolding get_d
exec_push i m = do
  v ← get_d m i.reg0
  (memory, top) ← push_decimal m.stack_memory m.stack_top v
  ok (record m { stack_memory = memory; stack_top = top })

unfoldable pub exec_pop : Instruction → Machine → Result Machine
unfolding set_d
exec_pop i m = do
  (v, top) ← pop_decimal m.stack_memory m.stack_top
  set_d (record m { stack_top = top }) i.reg0 v

unfoldable pub exec_dload : Instruction → Machine → Result Machine
unfolding get_d set_d
exec_dload i m = do a ← get_d m i.reg1; v ← load_decimal m.stack_memory a; set_d m i.reg0 v

-- The address is the number of the register, not its content.
unfoldable pub exec_fload : Instruction → Machine → Result Machine
unfolding set_f uint_of_byte
exec_fload i m = do v ← load_float m.stack_memory (uint_of_byte i.reg1); set_f m i.reg0 v

unfoldable pub exec_dsave : Instruction → Machine → Result Machine
unfolding get_d
exec_dsave i m = do
  a ← get_d m i.reg1
  v ← get_d m i.reg0
  memory ← save_decimal m.stack_memory a v
  ok (record m { stack_memory = memory })

unfoldable pub exec_fsave : Instruction → Machine → Result Machine
unfolding get_d get_f
exec_fsave i m = do
  a ← get_d m i.reg1
  v ← get_f m i.reg0
  memory ← save_float m.stack_memory a v
  ok (record m { stack_memory = memory })

unfoldable pub exec_fset : Instruction → Machine → Result Machine
unfolding set_f
exec_fset i m = set_f m i.reg0 (i.storage % uint_mod)

unfoldable pub exec_set : Instruction → Machine → Result Machine
unfolding set_d
exec_set i m = set_d m i.reg0 (i.storage % uint_mod)
