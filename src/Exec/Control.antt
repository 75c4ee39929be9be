-- ===== src/Exec/Control.antt =====
-- Jumps, calls, returns, output and the logger (`execute_op` of src/vm/set.c).
use c_at.Base.{
  none, some, ℕ, ◌+◌, ◌-◌, ◌%◌, ◌^◌, ◌==◌, leb, ltb, not, true, false, if◌then◌else◌, update,
  Result, ok, fault, ◌>>=◌, ◌>>◌, guard, out_of_bounds, assertion, Bytes, zero, suc, [], ◌∷◌,
}
use c_at.Inst.Defs.{Instruction}
use c_at.Machine.Defs.{
  Machine, Host, empty_frame, stack_size, frame_count, uint_mod, size_mod, call_line, write_line,
  regdump_line, ret_line, rootret_line, wrote,
}
use c_at.Machine.State.{get_d, set_d, log_line, emit}
use c_at.Machine.Frames.{record_frame, call_frame}

-- An `int` converted to `size_t`: the sign is extended.
unfoldable pub size_of_int : ℕ → ℕ
size_of_int v = if ltb v (2 ^ 31) then v else v + size_mod - uint_mod

-- `immd.as_i32`, as a bit pattern.
abbrev pub immediate : Instruction → ℕ
immediate i = i.storage % uint_mod

unfoldable pub exec_halt : Instruction → Machine → Result Machine
exec_halt i m = ok (record m { is_running = false })

unfoldable pub exec_entry : Instruction → Machine → Result Machine
exec_entry i m = fault assertion

unfoldable pub exec_nop : Instruction → Machine → Result Machine
exec_nop i m = ok m

unfoldable pub exec_rec : Instruction → Machine → Result Machine
exec_rec i m = do
  cframe ← record_frame m.frame_memory m.frames m.stack_top
  ok (record m { frame_memory = cframe })

unfoldable pub exec_call : Instruction → Machine → Result Machine
unfolding size_of_int log_line
exec_call i m = do
  let resume = (m.pc + 1) % size_mod
  c ← call_frame m.frame_memory m.frames resume m.stack_top (size_of_int (immediate i))
  let called = record m { frame_memory = c.cframe; frames = c.frames; pc = c.pc }
  ok (log_line (call_line c.frames c.pc) called)

unfoldable pub exec_getac : Instruction → Machine → Result Machine
unfolding set_d
exec_getac i m = set_d m i.reg0 m.accum_register

unfoldable pub exec_jmp : Instruction → Machine → Result Machine
exec_jmp i m = ok (record m { pc = immediate i })

unfoldable pub exec_ejmp : Instruction → Machine → Result Machine
unfolding get_d
exec_ejmp i m = do
  a ← get_d m i.reg1
  b ← get_d m i.reg2
  ok (if a == b then record m { pc = immediate i } else m)

unfoldable pub exec_nejmp : Instruction → Machine → Result Machine
unfolding get_d
exec_nejmp i m = do
  a ← get_d m i.reg1
  b ← get_d m i.reg2
  ok (if not (a == b) then record m { pc = immediate i } else m)

unfoldable pub exec_rjmp : Instruction → Machine → Result Machine
unfolding get_d
exec_rjmp i m = do a ← get_d m i.reg0; ok (record m { pc = a })

unfoldable pub exec_erjmp : Instruction → Machine → Result Machine
unfolding get_d
exec_erjmp i m = do
  a ← get_d m i.reg1
  b ← get_d m i.reg2
  elim (a == b) [ true ↦ get_d m i.reg0 >>= λ t. ok (record m { pc = t }) | false ↦ ok m ]

unfoldable pub exec_nerjmp : Instruction → Machine → Result Machine
unfolding get_d
exec_nerjmp i m = do
  a ← get_d m i.reg1
  b ← get_d m i.reg2
  elim (not (a == b)) [ true ↦ get_d m i.reg0 >>= λ t. ok (record m { pc = t }) | false ↦ ok m ]

-- The branch of `I_RET` with no frame open, after `accum_register` is set.
unfoldable pub ret_root : Machine → Machine
unfolding log_line
ret_root m =
    log_line (rootret_line m.frames (m.frame_memory m.frames).rip) (record m { is_running = false })

-- The branch with `frames` above zero; `k` is `frames - 1`.
unfoldable pub ret_frame : ℕ → Machine → Result Machine
unfolding log_line
ret_frame k m = do
  guard (ltb k frame_count) out_of_bounds
  let rip = (m.frame_memory k).rip
  ok (record (log_line (ret_line m.frames rip) m) {
    pc = (rip + size_mod - 1) % size_mod;
    frame_memory = update m.frame_memory k empty_frame;
    frames = k;
  })

unfoldable pub exec_ret : Instruction → Machine → Result Machine
unfolding get_d ret_root ret_frame
exec_ret i m = do
  a ← get_d m i.reg0
  let m' = record m { accum_register = a }
  if m.frames == 0 then ok (ret_root m') else ret_frame (m.frames - 1) m'

-- `len` bytes from `address`.
unfoldable pub read_bytes : (ℕ → ℕ) → ℕ → ℕ → Bytes
read_bytes memory address zero = []
read_bytes memory address (suc len) = memory address ∷ read_bytes memory (address + 1) len

-- The assertion refuses a result of 0 alone: a failed `write` returns -1 and passes.
unfoldable pub exec_print : Host → Instruction → Machine → Result Machine
unfolding log_line emit read_bytes
exec_print host i m = do
  let stream = m.iregisters 0
  let buffer = m.iregisters 1
  let len = m.iregisters 2
  guard (leb (buffer + len) stack_size) out_of_bounds
  let bytes = read_bytes m.stack_memory buffer len
  guard (not (host.write stream bytes == 0)) assertion
  ok (emit (wrote stream bytes) (log_line (write_line stream buffer len) m))

-- `d_reg[r0]` is read only where a logger is set.
unfoldable pub exec_reg_dump : Instruction → Machine → Result Machine
unfolding get_d log_line
exec_reg_dump i m = elim m.core_logger [
  | none ↦ ok m
  | some _ ↦ get_d m i.reg0 >>= λ a. ok (log_line (regdump_line i.reg0 a) m)
]
