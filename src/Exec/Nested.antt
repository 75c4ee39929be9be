-- ===== src/Exec/Nested.antt =====
-- Nested calls: what happens to the frames below the one that is open.
use c_at.Base.{
  ◌∙◌, ◌-◌, zero, ◌≤◌, [], ap, ◌%◌, refl, ◌<◌, suc, ok, none, ◌+◌, ◌∷◌, some, List, Option, arith,
  true, Holds, ◌≡◌, ℕ,
}
use c_at.Machine.Defs.{CallFrame, size_mod, Host, Machine}
use c_at.Exec.Integer.{
  exec_mul, exec_add, exec_cmpg, exec_cmpeg, exec_and, exec_cmpe, exec_div, exec_cmpel, exec_cmpl,
  exec_or, exec_inc, exec_dec, exec_sub,
}
use c_at.Exec.Control.{
  exec_erjmp, exec_getac, exec_ret, exec_print, exec_nerjmp, exec_rjmp, exec_nejmp, exec_halt,
  exec_jmp, exec_entry, exec_nop, exec_call, exec_reg_dump, exec_rec, exec_ejmp,
}
use c_at.Inst.Defs.{
  operation_of, nop, or, and, mul, div, sub, add, dec, inc, rec, pop, ret, set, jmp, cmpeg, fload,
  cu2f, fcmpel, ci2u, fcmpeg, fmul, Instruction, erjmp, halt, fcmpe, nerjmp, cmpl, fadd, cmpel,
  fcmpg, fset, ejmp, ci2f, push, dload, dsave, cmpe, nejmp, fdiv, cf2i, rjmp, fsub, entry, fcmpl,
  Inst, fsave, cf2u, print, reg_dump, getac, cu2i, cmpg, call,
}
use c_at.Machine.Frames.{record_frame, call_frame}
use c_at.Exec.Memory.{
  exec_fsave, exec_push, exec_pop, exec_dsave, exec_fset, exec_dload, exec_set, exec_fload,
}
use c_at.Machine.Memory.{
  save_float, load_float, pop_decimal, push_decimal, save_decimal, load_decimal,
}
use c_at.Exec.Float.{
  exec_fadd, exec_cf2u, exec_cu2f, exec_ci2u, exec_fsub, exec_fcmpe, exec_cu2i, exec_fdiv,
  exec_ci2f, exec_fcmpel, exec_fmul, exec_fcmpl, exec_fcmpg, exec_cf2i, exec_fcmpeg,
}
use c_at.Exec.Step.{dispatch, execute_op, goes_on, execute_inst}
use c_at.Machine.State.{emit, IsValid}
use c_at.Exec.Preserve.{execute_op-IsValid}
use c_at.Exec.ValidOps.{FitsWords}
use c_at.Exec.Straight.{inst_next-goes_on}

-- What an instruction does to the frames: at most one is opened or closed, those below stay. A frame
-- is opened with the address behind the next instruction, and closed by going back to the one before
-- the saved address.
abbrev pub KeepsFrames : Machine → Machine → Type 0
KeepsFrames m m' =
    (m'.frames ≡ m.frames + 1 → (m'.frame_memory m.frames).rip ≡ (m.pc + 1) % size_mod)
    × (m.frames ≡ m'.frames + 1
        → m'.pc ≡ ((m.frame_memory m'.frames).rip + size_mod - 1) % size_mod)
    × ((k : ℕ) → k < m.frames → k < m'.frames → m'.frame_memory k ≡ m.frame_memory k)

pub execute_inst-KeepsFrames :
    (host : Host) (i : Instruction) (m : Machine) (op : Inst)
    → Holds (KeepsFrames m) (execute_inst host op i m)
unfolding execute_inst exec_halt exec_entry exec_dload exec_fload exec_dsave exec_fsave exec_set
    exec_fset exec_push exec_pop exec_rec exec_call exec_getac exec_inc exec_dec exec_add exec_sub
    exec_div exec_mul exec_fadd exec_fsub exec_fdiv exec_fmul exec_and exec_or exec_cu2i exec_ci2u
    exec_cf2i exec_ci2f exec_cu2f exec_cf2u exec_cmpe exec_cmpeg exec_cmpel exec_cmpg exec_cmpl
    exec_fcmpe exec_fcmpeg exec_fcmpel exec_fcmpg exec_fcmpl exec_jmp exec_ejmp exec_nejmp exec_rjmp
    exec_erjmp exec_nerjmp exec_print exec_reg_dump exec_ret exec_nop push_decimal pop_decimal
    load_decimal save_decimal load_float save_float record_frame call_frame
execute_inst-KeepsFrames host i m halt = ground arith
execute_inst-KeepsFrames host i m entry = ground arith
execute_inst-KeepsFrames host i m dload = ground arith
execute_inst-KeepsFrames host i m fload = ground arith
execute_inst-KeepsFrames host i m dsave = ground arith
execute_inst-KeepsFrames host i m fsave = ground arith
execute_inst-KeepsFrames host i m set = ground arith
execute_inst-KeepsFrames host i m fset = ground arith
execute_inst-KeepsFrames host i m push = ground arith
execute_inst-KeepsFrames host i m pop = ground arith
execute_inst-KeepsFrames host i m rec = ground arith
execute_inst-KeepsFrames host i m call = ground arith
execute_inst-KeepsFrames host i m getac = ground arith
execute_inst-KeepsFrames host i m inc = ground arith
execute_inst-KeepsFrames host i m dec = ground arith
execute_inst-KeepsFrames host i m add = ground arith
execute_inst-KeepsFrames host i m sub = ground arith
execute_inst-KeepsFrames host i m div = ground arith
execute_inst-KeepsFrames host i m mul = ground arith
execute_inst-KeepsFrames host i m fadd = ground arith
execute_inst-KeepsFrames host i m fsub = ground arith
execute_inst-KeepsFrames host i m fdiv = ground arith
execute_inst-KeepsFrames host i m fmul = ground arith
execute_inst-KeepsFrames host i m and = ground arith
execute_inst-KeepsFrames host i m or = ground arith
execute_inst-KeepsFrames host i m cu2i = ground arith
execute_inst-KeepsFrames host i m ci2u = ground arith
execute_inst-KeepsFrames host i m cf2i = ground arith
execute_inst-KeepsFrames host i m ci2f = ground arith
execute_inst-KeepsFrames host i m cu2f = ground arith
execute_inst-KeepsFrames host i m cf2u = ground arith
execute_inst-KeepsFrames host i m cmpe = ground arith
execute_inst-KeepsFrames host i m cmpeg = ground arith
execute_inst-KeepsFrames host i m cmpel = ground arith
execute_inst-KeepsFrames host i m cmpg = ground arith
execute_inst-KeepsFrames host i m cmpl = ground arith
execute_inst-KeepsFrames host i m fcmpe = ground arith
execute_inst-KeepsFrames host i m fcmpeg = ground arith
execute_inst-KeepsFrames host i m fcmpel = ground arith
execute_inst-KeepsFrames host i m fcmpg = ground arith
execute_inst-KeepsFrames host i m fcmpl = ground arith
execute_inst-KeepsFrames host i m jmp = ground arith
execute_inst-KeepsFrames host i m ejmp = ground arith
execute_inst-KeepsFrames host i m nejmp = ground arith
execute_inst-KeepsFrames host i m rjmp = ground arith
execute_inst-KeepsFrames host i m erjmp = ground arith
execute_inst-KeepsFrames host i m nerjmp = ground arith
execute_inst-KeepsFrames host i m print = ground arith
execute_inst-KeepsFrames host i m reg_dump = ground arith
execute_inst-KeepsFrames host i m ret = ground arith
execute_inst-KeepsFrames host i m nop = ground arith

dispatch-KeepsFrames :
    (host : Host) (i : Instruction) (m : Machine) (o : Option Inst)
    → Holds (KeepsFrames m) (dispatch host o i m)
unfolding dispatch emit
dispatch-KeepsFrames host i m none =
    (λ h. absurd (omega arith), λ h. absurd (omega arith), λ k h h'. refl)
dispatch-KeepsFrames host i m (some op) = execute_inst-KeepsFrames host i m op

-- A round, where the fetch has moved `pc` on.
execute_op-KeepsFrames :
    (host : Host) (m : Machine)
    → IsValid m
    → goes_on m ≡ true
    → Holds (KeepsFrames (record m { pc = m.pc + 1 })) (execute_op host m)
unfolding execute_op
execute_op-KeepsFrames host m v e =
    let (i, h, fetch) = inst_next-goes_on m v e in
    rw fetch (dispatch-KeepsFrames host i (record m { pc = m.pc + 1 }) (operation_of i))

-- Rounds in which every machine, the last one too, has at least `d` frames open.
pub data StepsAbove (host : Host) (d : ℕ) : Machine → Machine → Type 0 where
  here : {m : Machine} → d ≤ m.frames → StepsAbove host d m m
  next :
      {m m₁ m₂ : Machine}
      → d ≤ m.frames
      → goes_on m ≡ true
      → execute_op host m ≡ ok m₁
      → StepsAbove host d m₁ m₂
      → StepsAbove host d m m₂

StepsAbove-start : {host : Host} {d : ℕ} {m m' : Machine} → StepsAbove host d m m' → d ≤ m.frames
StepsAbove-start (here h) = h
StepsAbove-start (next h e s r) = h

-- Rounds above `d` frames keep a valid machine valid and leave the first `d` frames.
kept_below :
    {host : Host} {d : ℕ} {m m' : Machine}
    → FitsWords host
    → IsValid m
    → StepsAbove host d m m'
    → IsValid m' × ((k : ℕ) → k < d → m'.frame_memory k ≡ m.frame_memory k)
kept_below fits v (here h) = (v, λ k below. refl)
kept_below {host} {m} fits v (next h e s r) =
    let one = rw s at (execute_op-KeepsFrames host m v e) in
    let (v', rest) = kept_below fits (rw s at (execute_op-IsValid host fits m v)) r in
    let start = StepsAbove-start r in
    (v', λ k below. rest k below ∙ one.2 k (omega arith) (omega arith))

-- The first `n` frames of the array, the last one first.
abbrev pub first_frames : (ℕ → CallFrame) → ℕ → List CallFrame
first_frames frame_memory zero = []
first_frames frame_memory (suc n) = frame_memory n ∷ first_frames frame_memory n

-- The stack of the frames that are open.
abbrev pub open_frames : Machine → List CallFrame
open_frames m = first_frames m.frame_memory m.frames

first_frames_ext :
    (f g : ℕ → CallFrame) (n : ℕ)
    → ((k : ℕ) → k < n → f k ≡ g k)
    → first_frames f n ≡ first_frames g n
first_frames_ext f g zero same = refl
first_frames_ext f g (suc n) same =
    let rest = first_frames_ext f g n (λ k below. same k (omega arith)) in
    let top = same n (omega arith) in cc

-- Where a round in a valid machine opens a frame, the rounds after it keep a frame above those
-- that were open before, and a round closes it, whatever calls and returns lie between, the
-- machine resumes behind the call, with the frames open that were open before it, unchanged. The
-- float results of the host fit 32 bits.
pub execute_op_resumes :
    (host : Host) (fits : FitsWords host) (m opened body m' : Machine)
    → IsValid m
    → goes_on m ≡ true
    → execute_op host m ≡ ok opened
    → opened.frames ≡ m.frames + 1
    → StepsAbove host (m.frames + 1) opened body
    → goes_on body ≡ true
    → execute_op host body ≡ ok m'
    → m'.frames ≡ m.frames
    → body.frames ≡ m.frames + 1
    → (m'.pc ≡ m.pc + 1) × (open_frames m' ≡ open_frames m)
unfolding goes_on
execute_op_resumes host fits m opened body m' v e s opens r e' s' closes depth =
    let inside : m.pc < m.program_size = ground arith in
    let opening = rw s at (execute_op-KeepsFrames host m v e) in
    let (v', kept) = kept_below fits (rw s at (execute_op-IsValid host fits m v)) r in
    let closing = rw s' at (execute_op-KeepsFrames host body v' e') in
    let saved : (body.frame_memory m.frames).rip ≡ (m.pc + 1 + 1) % size_mod =
      ap (λ (f : CallFrame). f.rip) (kept m.frames (omega arith)) ∙ opening.0 opens in
    let back : m'.pc ≡ ((body.frame_memory m.frames).rip + size_mod - 1) % size_mod =
      closing.1 (omega arith)
      ∙ ap (λ (k : ℕ). ((body.frame_memory k).rip + size_mod - 1) % size_mod) closes in
    (
      omega (arith, v.size_fits),
      ap (first_frames m'.frame_memory) closes
          ∙ first_frames_ext m'.frame_memory m.frame_memory m.frames (λ k below.
            closing.2 k (omega arith) (omega arith)
            ∙ kept k (omega arith)
            ∙ opening.2 k below (omega arith)),
    )
