-- ===== src/Exec/Valid.antt =====
-- Every instruction keeps the machine valid: what the C types can hold stays in range.
use c_at.Base.{
  ◌≤◌, Bool, ℕ, ◌<◌, arith, update, ltb, Holds, Holds-bind, Holds-guard, out_of_bounds, update,
}
use c_at.Inst.Defs.{Instruction}
use c_at.Machine.Defs.{
  frame_count, Event, LogLine, CallFrame, size_mod, Machine, uint_mod, reg_count,
}
use c_at.Machine.State.{emit, log_line, get_d, set_d, get_f, set_f, IsValid}
use c_at.Exec.Integer.{binary_d}

module _ {m : Machine} (v : IsValid m) where
  pub get_d-fits : (r : ℕ) → Holds (λ a. a < uint_mod) (get_d m r)
  unfolding get_d
  get_d-fits r = Holds-guard (λ a. a < uint_mod) (ltb r reg_count) out_of_bounds _ (λ _. v.d_fits r)

  pub get_f-fits : (r : ℕ) → Holds (λ a. a < uint_mod) (get_f m r)
  unfolding get_f
  get_f-fits r = Holds-guard (λ a. a < uint_mod) (ltb r reg_count) out_of_bounds _ (λ _. v.f_fits r)

  update-fits : (f : ℕ → ℕ) (i a k : ℕ) → ((r : ℕ) → f r < k) → a < k → (j : ℕ) → update f i a j < k
  update-fits f i a k h ha j = ground (arith, h j)

  pub set_d-IsValid : (r a : ℕ) → a < uint_mod → Holds IsValid (set_d m r a)
  unfolding set_d
  set_d-IsValid r a h = Holds-guard IsValid (ltb r reg_count) out_of_bounds _ (λ _. record {
    pc_fits = v.pc_fits;
    size_fits = v.size_fits;
    program_there = v.program_there;
    d_fits = update-fits m.iregisters r a uint_mod v.d_fits h;
    f_fits = v.f_fits;
    accum_fits = v.accum_fits;
    frames_fit = v.frames_fit;
    top_fits = v.top_fits;
    rip_fits = v.rip_fits;
    bytes_fit = v.bytes_fit;
  })

  pub set_f-IsValid : (r a : ℕ) → a < uint_mod → Holds IsValid (set_f m r a)
  unfolding set_f
  set_f-IsValid r a h = Holds-guard IsValid (ltb r reg_count) out_of_bounds _ (λ _. record {
    pc_fits = v.pc_fits;
    size_fits = v.size_fits;
    program_there = v.program_there;
    d_fits = v.d_fits;
    f_fits = update-fits m.fregisters r a uint_mod v.f_fits h;
    accum_fits = v.accum_fits;
    frames_fit = v.frames_fit;
    top_fits = v.top_fits;
    rip_fits = v.rip_fits;
    bytes_fit = v.bytes_fit;
  })

  pub binary_d-IsValid :
      (f : ℕ → ℕ → ℕ) (i : Instruction)
      → ((a b : ℕ) → a < uint_mod → b < uint_mod → f a b < uint_mod)
      → Holds IsValid (binary_d f i m)
  unfolding binary_d
  binary_d-IsValid f i h =
      Holds-bind (λ a. a < uint_mod) IsValid (get_d m i.reg1) _ (get_d-fits i.reg1)
        λ a ha.
          Holds-bind (λ a. a < uint_mod) IsValid (get_d m i.reg2) _ (get_d-fits i.reg2)
            λ b hb. set_d-IsValid i.reg0 (f a b) (h a b ha hb)

  -- One member of a valid machine given a new value in its range.
  pub with_pc-IsValid : {a : ℕ} → a < size_mod → IsValid (record m { pc = a })
  with_pc-IsValid h = assumption v

  pub with_stack-IsValid :
      (f : ℕ → ℕ) {a : ℕ}
      → ((i : ℕ) → f i < 256)
      → a < size_mod
      → IsValid (record m { stack_memory = f; stack_top = a })
  with_stack-IsValid f hf h = assumption v

  pub with_accum-IsValid : {a : ℕ} → a < uint_mod → IsValid (record m { accum_register = a })
  with_accum-IsValid h = assumption v

  pub with_running-IsValid : (b : Bool) → IsValid (record m { is_running = b })
  with_running-IsValid b = assumption v

  pub log_line-IsValid : (l : LogLine) → IsValid (log_line l m)
  unfolding log_line
  log_line-IsValid l = assumption v

  pub emit-IsValid : (e : Event) → IsValid (emit e m)
  unfolding emit
  emit-IsValid e = assumption v

  -- Frames whose return addresses fit, and a counter within the array.
  pub with_frames-IsValid :
      (f : ℕ → CallFrame) {k : ℕ}
      → ((i : ℕ) → (f i).rip < size_mod)
      → k ≤ frame_count
      → IsValid (record m { frame_memory = f; frames = k })
  with_frames-IsValid f hf h = assumption v

  pub update_rip-fits :
      (k : ℕ) (c : CallFrame)
      → c.rip < size_mod
      → (i : ℕ) → (update m.frame_memory k c i).rip < size_mod
  update_rip-fits k c h i = ground (arith, v.rip_fits i)
