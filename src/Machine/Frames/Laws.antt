-- ===== src/Machine/Frames/Laws.antt =====
-- What `record` and `call` leave in range.
use c_at.Machine.Frames.{CallFrame, record_frame, call_frame}
use c_at.Base.{refl, ◌≡◌, out_of_bounds, arith, ◌≤◌, ltb, update, Holds-guard, Holds, ◌<◌, ℕ}
use c_at.Machine.Defs.{frame_count, size_mod, CallFrame}

abbrev pub RipsFit : (ℕ → CallFrame) → Type 0
RipsFit cframe = (i : ℕ) → (cframe i).rip < size_mod

update-fits :
    (cframe : ℕ → CallFrame) (k : ℕ) (c : CallFrame)
    → RipsFit cframe
    → c.rip < size_mod
    → RipsFit (update cframe k c)
update-fits cframe k c h hc i = ground (arith, h i)

pub record_frame-fits :
    (cframe : ℕ → CallFrame) (frames addr : ℕ)
    → RipsFit cframe
    → Holds RipsFit (record_frame cframe frames addr)
unfolding record_frame
record_frame-fits cframe frames addr h =
    Holds-guard RipsFit (ltb frames frame_count) out_of_bounds _
      (λ _. update-fits cframe frames _ h (omega arith))

pub call_frame-fits :
    (cframe : ℕ → CallFrame) (frames pc addr jmp_addr : ℕ)
    → RipsFit cframe
    → pc < size_mod
    → Holds
        (λ c. RipsFit c.cframe × (c.frames ≤ frame_count) × (c.pc ≡ jmp_addr))
        (call_frame cframe frames pc addr jmp_addr)
unfolding call_frame
call_frame-fits cframe frames pc addr jmp_addr h hp =
    Holds-guard _ (ltb frames frame_count) out_of_bounds _
      (λ e. (update-fits cframe frames _ h hp, ground arith, refl))
