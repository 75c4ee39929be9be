-- ===== src/Machine/Frames.antt =====
-- `record` and `call` of src/vm/set.c, on the array of call frames and its counter.
pub mod Laws
use c_at.Base.{◌>>◌, ℕ, ◌+◌, ◌%◌, update, ltb, Result, ok, guard, out_of_bounds}
use c_at.Machine.Defs.{CallFrame, frame_count, uint_mod}

-- `record`: starts the frame at `frames`, whose other members are zero.
unfoldable pub record_frame : (ℕ → CallFrame) → ℕ → ℕ → Result (ℕ → CallFrame)
record_frame cframe frames addr = do
  guard (ltb frames frame_count) out_of_bounds
  ok (update cframe frames (record { rip = 0; bfp = addr % uint_mod; lvp = 0 }))

-- What `call` leaves in `*cframe`, `*frames` and `*pc`.
pub record Called : Type 0 where
  pub cframe : ℕ → CallFrame
  pub frames : ℕ
  pub pc : ℕ

unfoldable pub call_frame : (ℕ → CallFrame) → ℕ → ℕ → ℕ → ℕ → Result Called
call_frame cframe frames pc addr jmp_addr = do
  guard (ltb frames frame_count) out_of_bounds
  ok (record {
    cframe = update cframe frames (record { rip = pc; bfp = 0; lvp = addr % uint_mod });
    frames = frames + 1;
    pc = jmp_addr;
  })
