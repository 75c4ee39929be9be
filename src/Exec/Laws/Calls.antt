-- ===== src/Exec/Laws/Calls.antt =====
-- Calls, returns and the frames.
use c_at.Base.{
  ap, update-update, lt→ltb, ◌≤◌, out_of_bounds, fault, false, arith, ◌%◌, ◌>>=◌, ok, Yields, ◌+◌,
  ◌<◌, ◌≡◌,
}
use c_at.Inst.Defs.{Instruction}
use c_at.Exec.Control.{immediate, exec_call, size_of_int, exec_ret, exec_rec}
use c_at.Machine.State.{IsValid, log_line}
use c_at.Machine.Defs.{call_line, uint_mod, frame_count, CallFrame, Machine, reg_count, size_mod}
use c_at.Machine.Frames.{record_frame, call_frame}

-- A call opens one frame and jumps; the return address is the one behind the next instruction.
abbrev pub Opened : Instruction → Machine → Machine → Type 0
Opened i m m' =
    (m'.frames ≡ m.frames + 1)
    × (m'.pc ≡ size_of_int (i.storage % uint_mod))
    × ((m'.frame_memory m.frames).rip ≡ (m.pc + 1) % size_mod)

-- A call with a frame left is no fault, opens one frame, jumps to its constant, and saves the
-- address behind the next instruction.
pub exec_call-Opened :
    (i : Instruction) (m : Machine) → m.frames < frame_count → Yields (Opened i m) (exec_call i m)
unfolding exec_call call_frame
exec_call-Opened i m room = ground arith

-- With all frames open a call is a fault, and so is `rec`.
pub exec_call_full :
    (i j : Instruction) (m : Machine)
    → frame_count ≤ m.frames
    → (exec_call i m ≡ fault out_of_bounds) × (exec_rec j m ≡ fault out_of_bounds)
unfolding exec_call exec_rec call_frame record_frame
exec_call_full i j m full = ground arith

-- In a valid machine with a frame left, a return with a register in range from a called
-- procedure, which may have changed the registers and the stack but not the frame of the call,
-- resumes at the saved address, closes the frame and sets the accumulator to the register
-- returned.
pub exec_ret-exec_call :
    (i j : Instruction) (m called body : Machine)
    → IsValid m
    → m.frames < frame_count
    → j.reg0 < reg_count
    → exec_call i m ≡ ok called
    → body.frames ≡ called.frames
    → (body.frame_memory m.frames).rip ≡ (called.frame_memory m.frames).rip
    → Yields
        (λ m'.
          (m'.pc ≡ m.pc)
          × (m'.frames ≡ m.frames)
          × (m'.accum_register ≡ body.iregisters j.reg0)
          × (m'.is_running ≡ body.is_running))
        (exec_ret j body)
unfolding exec_ret exec_call call_frame
exec_ret-exec_call i j m called body v room hj made same rip = ground (arith, v.pc_fits)

-- A return with a register in range and no frame open stops the machine, keeps `pc`, and sets the
-- accumulator to the register returned.
pub exec_ret_root :
    (j : Instruction) (m : Machine)
    → j.reg0 < reg_count
    → m.frames ≡ 0
    → Yields
        (λ m'. (m'.is_running ≡ false) × (m'.pc ≡ m.pc) × (m'.accum_register ≡ m.iregisters j.reg0))
        (exec_ret j m)
unfolding exec_ret
exec_ret_root j m h z = ground arith

-- A call directly after `rec`, with a frame left, leaves the same machine as the call alone.
pub exec_call-exec_rec :
    (i j : Instruction) (m : Machine)
    → m.frames < frame_count
    → (exec_rec i m >>= exec_call j) ≡ exec_call j m
unfolding exec_rec exec_call record_frame call_frame log_line
exec_call-exec_rec i j m room =
    let lost : CallFrame = record { rip = 0; bfp = m.stack_top % uint_mod; lvp = 0 } in
    let kept : CallFrame = record {
      rip = (m.pc + 1) % size_mod;
      bfp = 0;
      lvp = m.stack_top % uint_mod;
    } in
    rw (lt→ltb _ _ room, exec_call, lt→ltb _ _ room)
      (ap
        (λ f. ok (
          log_line (call_line (m.frames + 1) (size_of_int (immediate j)))
            (record m { frame_memory = f; frames = m.frames + 1; pc = size_of_int (immediate j) })))
        (update-update m.frame_memory m.frames lost kept))
