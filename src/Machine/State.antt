-- ===== src/Machine/State.antt =====
-- Access to the registers, the log and the program of a `Machine`, and what stays in range.
use c_at.Base.{
  Option, ◌>>◌, ℕ, ◌+◌, ◌%◌, ◌<◌, ◌≤◌, ◌++◌, [], ◌∷◌, none, some, update, ltb, get_elem?, length,
  Result, ok, fault, guard, out_of_bounds,
}
use c_at.Inst.Defs.{Instruction}
use c_at.Machine.Defs.{Machine, LogLine, Event, reg_count, frame_count, uint_mod, size_mod}

-- `d_reg[r]` read and written, and `f_reg[r]`. An index is a `char`, so a pattern from 128 stands
-- for a negative one, out of range as well.
unfoldable pub get_d : Machine → ℕ → Result ℕ
get_d m r = do guard (ltb r reg_count) out_of_bounds; ok (m.iregisters r)

unfoldable pub set_d : Machine → ℕ → ℕ → Result Machine
set_d m r v = do
  guard (ltb r reg_count) out_of_bounds
  ok (record m { iregisters = update m.iregisters r v })

unfoldable pub get_f : Machine → ℕ → Result ℕ
get_f m r = do guard (ltb r reg_count) out_of_bounds; ok (m.fregisters r)

unfoldable pub set_f : Machine → ℕ → ℕ → Result Machine
set_f m r v = do
  guard (ltb r reg_count) out_of_bounds
  ok (record m { fregisters = update m.fregisters r v })

-- `if (m->core_logger) fprintf(m->core_logger, …)`.
unfoldable pub log_line : LogLine → Machine → Machine
log_line line m = record m {
  core_logger = elim m.core_logger [ none ↦ none | some log ↦ some (log ++ line ∷ []) ];
}

unfoldable pub emit : Event → Machine → Machine
emit e m = record m { events = m.events ++ e ∷ [] }

-- The instruction read at `pc`, with `pc` advanced; outside the array the read is undefined.
unfoldable pub fetched : Machine → Option Instruction → Result (Instruction × Machine)
fetched m none = fault out_of_bounds
fetched m (some i) = ok (i, record m { pc = (m.pc + 1) % size_mod })

-- `m->program[m->pc++]`.
unfoldable pub inst_next : Machine → Result (Instruction × Machine)
unfolding fetched
inst_next m = fetched m (get_elem? m.program m.pc)

-- Every value fits the C type that holds it, the counter of frames its array, and the program is as
-- long as `program_size` says.
pub record IsValid (m : Machine) : Type 0 where
  pub pc_fits : m.pc < size_mod
  pub size_fits : m.program_size < size_mod
  pub program_there : m.program_size ≤ length m.program
  pub d_fits : (r : ℕ) → m.iregisters r < uint_mod
  pub f_fits : (r : ℕ) → m.fregisters r < uint_mod
  pub accum_fits : m.accum_register < uint_mod
  pub frames_fit : m.frames ≤ frame_count
  pub top_fits : m.stack_top < size_mod
  pub rip_fits : (k : ℕ) → (m.frame_memory k).rip < size_mod
  pub bytes_fit : (a : ℕ) → m.stack_memory a < 256
