-- ===== src/Exec/ValidOps.antt =====
-- Every instruction keeps the machine valid, whatever it does: one lemma for each `case` of the
-- `switch`, then the step and the run.
use c_at.Base.{
  if◌then◌else◌, false, ◌%◌, ok, ◌+◌, ◌/◌, division_by_zero, ◌>>=◌, ◌==◌, not, arith, true, Result,
  ◌<◌, of_bool, ℕ, Bool, Holds, Holds-bind, Holds-guard,
}
use c_at.Machine.Defs.{size_mod, uint_mod, Machine, Host}
use c_at.Machine.State.{get_f, get_d, IsValid}
use c_at.Inst.Defs.{Instruction}
use c_at.Exec.Integer.{
  exec_cmpl, exec_cmpg, exec_cmpel, exec_cmpeg, exec_cmpe, exec_or, exec_and, exec_mul, exec_sub,
  exec_add, exec_div, exec_dec, exec_inc,
}
use c_at.Exec.Float.{exec_ci2u, exec_cu2i, compare_f, binary_f}
use c_at.Exec.Memory.{
  uint_of_byte, exec_fset, exec_set, exec_fsave, exec_dsave, exec_fload, exec_dload, exec_pop,
  exec_push,
}
use c_at.Exec.Control.{
  immediate, size_of_int, exec_nerjmp, exec_erjmp, exec_rjmp, exec_nejmp, exec_ejmp, exec_jmp,
  exec_getac, exec_call, exec_rec,
}
use c_at.Exec.Valid.{
  log_line-IsValid, with_frames-IsValid, with_stack-IsValid, get_f-fits, get_d-fits,
  with_pc-IsValid, set_f-IsValid, binary_d-IsValid, set_d-IsValid,
}
use c_at.Machine.Memory.{
  save_float, save_decimal, load_float, load_decimal, pop_decimal, push_decimal,
}
use c_at.Machine.Frames.{call_frame, record_frame}
use c_at.Machine.Memory.Laws.{
  save_float-fits, save_decimal-fits, load_float-fits, load_decimal-fits, pop_decimal-fits,
  push_decimal-fits,
}
use c_at.Machine.Frames.Laws.{call_frame-fits, record_frame-fits}

-- What C promises of the values that the host returns: they fit 32 bits.
pub record FitsWords (host : Host) : Type 0 where
  pub add_fits : (a b : ℕ) → host.float_add a b < uint_mod
  pub sub_fits : (a b : ℕ) → host.float_sub a b < uint_mod
  pub mul_fits : (a b : ℕ) → host.float_mul a b < uint_mod
  pub div_fits : (a b : ℕ) → host.float_div a b < uint_mod
  pub of_uint_fits : (a : ℕ) → host.float_of_uint a < uint_mod
  pub to_int_fits : (a : ℕ) → host.int_of_float a < uint_mod
  pub to_uint_fits : (a : ℕ) → host.uint_of_float a < uint_mod

div-fits : (a b : ℕ) → a < uint_mod → a / b < uint_mod
div-fits a b h = omega arith

size_of_int-lt : (i : Instruction) → size_of_int (immediate i) < size_mod
unfolding size_of_int
size_of_int-lt i = ground arith

of_bool-lt : (b : Bool) → of_bool b < uint_mod
of_bool-lt true = omega arith
of_bool-lt false = omega arith

module _ {m : Machine} (v : IsValid m) (i : Instruction) where
  -- `r0` gets a value computed from an integer register.
  pub from_d :
      (r : ℕ) (f : ℕ → Result Machine)
      → ((a : ℕ) → a < uint_mod → Holds IsValid (f a))
      → Holds IsValid (get_d m r >>= f)
  from_d r f h = Holds-bind (λ a. a < uint_mod) IsValid (get_d m r) f (get_d-fits v r) h

  pub from_f :
      (r : ℕ) (f : ℕ → Result Machine)
      → ((a : ℕ) → a < uint_mod → Holds IsValid (f a))
      → Holds IsValid (get_f m r >>= f)
  from_f r f h = Holds-bind (λ a. a < uint_mod) IsValid (get_f m r) f (get_f-fits v r) h

  pub exec_inc-IsValid : Holds IsValid (exec_inc i m)
  unfolding exec_inc
  exec_inc-IsValid = from_d i.reg0 _ λ a h. set_d-IsValid v i.reg0 _ (omega arith)

  pub exec_dec-IsValid : Holds IsValid (exec_dec i m)
  unfolding exec_dec
  exec_dec-IsValid = from_d i.reg0 _ λ a h. set_d-IsValid v i.reg0 _ (omega arith)

  pub exec_div-IsValid : Holds IsValid (exec_div i m)
  unfolding exec_div
  exec_div-IsValid = from_d i.reg1 _ λ a ha. from_d i.reg2 _ λ b hb.
      Holds-guard IsValid (not (b == 0)) division_by_zero _
        (λ _. set_d-IsValid v i.reg0 (a / b) (div-fits a b ha))

  pub exec_add-IsValid : Holds IsValid (exec_add i m)
  unfolding exec_add
  exec_add-IsValid = binary_d-IsValid v _ i (λ a b ha hb. omega arith)

  pub exec_sub-IsValid : Holds IsValid (exec_sub i m)
  unfolding exec_sub
  exec_sub-IsValid = binary_d-IsValid v _ i (λ a b ha hb. omega arith)

  pub exec_mul-IsValid : Holds IsValid (exec_mul i m)
  unfolding exec_mul
  exec_mul-IsValid = binary_d-IsValid v _ i (λ a b ha hb. omega arith)

  pub exec_and-IsValid : Holds IsValid (exec_and i m)
  unfolding exec_and
  exec_and-IsValid = binary_d-IsValid v _ i (λ a b ha hb. of_bool-lt _)

  pub exec_or-IsValid : Holds IsValid (exec_or i m)
  unfolding exec_or
  exec_or-IsValid = binary_d-IsValid v _ i (λ a b ha hb. of_bool-lt _)

  pub exec_cmpe-IsValid : Holds IsValid (exec_cmpe i m)
  unfolding exec_cmpe
  exec_cmpe-IsValid = binary_d-IsValid v _ i (λ a b ha hb. of_bool-lt _)

  pub exec_cmpeg-IsValid : Holds IsValid (exec_cmpeg i m)
  unfolding exec_cmpeg
  exec_cmpeg-IsValid = binary_d-IsValid v _ i (λ a b ha hb. of_bool-lt _)

  pub exec_cmpel-IsValid : Holds IsValid (exec_cmpel i m)
  unfolding exec_cmpel
  exec_cmpel-IsValid = binary_d-IsValid v _ i (λ a b ha hb. of_bool-lt _)

  pub exec_cmpg-IsValid : Holds IsValid (exec_cmpg i m)
  unfolding exec_cmpg
  exec_cmpg-IsValid = binary_d-IsValid v _ i (λ a b ha hb. of_bool-lt _)

  pub exec_cmpl-IsValid : Holds IsValid (exec_cmpl i m)
  unfolding exec_cmpl
  exec_cmpl-IsValid = binary_d-IsValid v _ i (λ a b ha hb. of_bool-lt _)

  pub binary_f-IsValid :
      (f : ℕ → ℕ → ℕ) → ((a b : ℕ) → f a b < uint_mod) → Holds IsValid (binary_f f i m)
  unfolding binary_f
  binary_f-IsValid f h =
      from_f i.reg1 _ λ a _. from_f i.reg2 _ λ b _. set_f-IsValid v i.reg0 (f a b) (h a b)

  pub compare_f-IsValid : (f : ℕ → ℕ → Bool) → Holds IsValid (compare_f f i m)
  unfolding compare_f
  compare_f-IsValid f =
      from_f i.reg1 _ λ a _. from_f i.reg2 _ λ b _. set_d-IsValid v i.reg0 _ (of_bool-lt (f a b))

  pub exec_cu2i-IsValid : Holds IsValid (exec_cu2i i m)
  unfolding exec_cu2i
  exec_cu2i-IsValid = from_d i.reg1 _ λ a h. set_d-IsValid v i.reg0 a h

  pub exec_ci2u-IsValid : Holds IsValid (exec_ci2u i m)
  unfolding exec_ci2u
  exec_ci2u-IsValid = from_d i.reg1 _ λ a h. set_d-IsValid v i.reg0 a h

  pub exec_push-IsValid : Holds IsValid (exec_push i m)
  unfolding exec_push
  exec_push-IsValid = from_d i.reg0 _ λ a h.
      Holds-bind _ IsValid (push_decimal m.stack_memory m.stack_top a) _
        (push_decimal-fits m.stack_memory m.stack_top a v.bytes_fit)
        λ (memory, top) (hm, ht). with_stack-IsValid v memory hm ht

  pub exec_pop-IsValid : Holds IsValid (exec_pop i m)
  unfolding exec_pop
  exec_pop-IsValid =
      Holds-bind _ IsValid (pop_decimal m.stack_memory m.stack_top) _
        (pop_decimal-fits m.stack_memory m.stack_top v.bytes_fit)
        λ (a, top) (ha, ht).
          set_d-IsValid (with_stack-IsValid v m.stack_memory v.bytes_fit ht) i.reg0 a ha

  pub exec_dload-IsValid : Holds IsValid (exec_dload i m)
  unfolding exec_dload
  exec_dload-IsValid = from_d i.reg1 _ λ a _.
      Holds-bind _ IsValid (load_decimal m.stack_memory a) _
        (load_decimal-fits m.stack_memory a v.bytes_fit) λ b h. set_d-IsValid v i.reg0 b h

  pub exec_fload-IsValid : Holds IsValid (exec_fload i m)
  unfolding exec_fload
  exec_fload-IsValid =
      Holds-bind _ IsValid (load_float m.stack_memory (uint_of_byte i.reg1)) _
        (load_float-fits m.stack_memory (uint_of_byte i.reg1) v.bytes_fit)
        λ b h. set_f-IsValid v i.reg0 b h

  pub exec_dsave-IsValid : Holds IsValid (exec_dsave i m)
  unfolding exec_dsave
  exec_dsave-IsValid = from_d i.reg1 _ λ a _. from_d i.reg0 _ λ b _.
      Holds-bind _ IsValid (save_decimal m.stack_memory a b) _
        (save_decimal-fits m.stack_memory a b v.bytes_fit)
        λ memory h. with_stack-IsValid v memory h v.top_fits

  pub exec_fsave-IsValid : Holds IsValid (exec_fsave i m)
  unfolding exec_fsave
  exec_fsave-IsValid = from_d i.reg1 _ λ a _. from_f i.reg0 _ λ b _.
      Holds-bind _ IsValid (save_float m.stack_memory a b) _
        (save_float-fits m.stack_memory a b v.bytes_fit)
        λ memory h. with_stack-IsValid v memory h v.top_fits

  pub exec_set-IsValid : Holds IsValid (exec_set i m)
  unfolding exec_set
  exec_set-IsValid = set_d-IsValid v i.reg0 _ (omega arith)

  pub exec_fset-IsValid : Holds IsValid (exec_fset i m)
  unfolding exec_fset
  exec_fset-IsValid = set_f-IsValid v i.reg0 _ (omega arith)

  pub exec_rec-IsValid : Holds IsValid (exec_rec i m)
  unfolding exec_rec
  exec_rec-IsValid =
      Holds-bind _ IsValid (record_frame m.frame_memory m.frames m.stack_top) _
        (record_frame-fits m.frame_memory m.frames m.stack_top v.rip_fits)
        λ cframe h. with_frames-IsValid v cframe h v.frames_fit

  pub exec_call-IsValid : Holds IsValid (exec_call i m)
  unfolding exec_call
  exec_call-IsValid =
      Holds-bind _ IsValid
        (call_frame m.frame_memory m.frames ((m.pc + 1) % size_mod) m.stack_top
          (size_of_int (immediate i)))
        _
        (call_frame-fits m.frame_memory m.frames ((m.pc + 1) % size_mod) m.stack_top
          (size_of_int (immediate i)) v.rip_fits (omega arith))
        λ c (hf, hk, hp).
          log_line-IsValid
            (with_pc-IsValid (with_frames-IsValid v c.cframe hf hk) (rw hp (size_of_int-lt i))) _

  pub exec_getac-IsValid : Holds IsValid (exec_getac i m)
  unfolding exec_getac
  exec_getac-IsValid = set_d-IsValid v i.reg0 _ v.accum_fits

  pub exec_jmp-IsValid : Holds IsValid (exec_jmp i m)
  unfolding exec_jmp
  exec_jmp-IsValid = with_pc-IsValid v (omega arith)

  if-IsValid :
      (b : Bool) {m₁ m₂ : Machine} → IsValid m₁ → IsValid m₂ → IsValid (if b then m₁ else m₂)
  if-IsValid true h k = h
  if-IsValid false h k = k

  pub exec_ejmp-IsValid : Holds IsValid (exec_ejmp i m)
  unfolding exec_ejmp
  exec_ejmp-IsValid =
      from_d i.reg1 _
        λ a _. from_d i.reg2 _ λ b _. if-IsValid (a == b) (with_pc-IsValid v (omega arith)) v

  pub exec_nejmp-IsValid : Holds IsValid (exec_nejmp i m)
  unfolding exec_nejmp
  exec_nejmp-IsValid =
      from_d i.reg1 _
        λ a _. from_d i.reg2 _ λ b _. if-IsValid (not (a == b)) (with_pc-IsValid v (omega arith)) v

  pub exec_rjmp-IsValid : Holds IsValid (exec_rjmp i m)
  unfolding exec_rjmp
  exec_rjmp-IsValid = from_d i.reg0 _ λ a h. with_pc-IsValid v (omega arith)

  -- The part of `erjmp` and `nerjmp` behind the test.
  jump_if-IsValid :
      (b : Bool)
      → Holds IsValid
          (elim b [ true ↦ get_d m i.reg0 >>= λ t. ok (record m { pc = t }) | false ↦ ok m ])
  jump_if-IsValid true = from_d i.reg0 _ λ a h. with_pc-IsValid v (omega arith)
  jump_if-IsValid false = v

  pub exec_erjmp-IsValid : Holds IsValid (exec_erjmp i m)
  unfolding exec_erjmp
  exec_erjmp-IsValid = from_d i.reg1 _ λ a _. from_d i.reg2 _ λ b _. jump_if-IsValid (a == b)

  pub exec_nerjmp-IsValid : Holds IsValid (exec_nerjmp i m)
  unfolding exec_nerjmp
  exec_nerjmp-IsValid = from_d i.reg1 _ λ a _. from_d i.reg2 _ λ b _. jump_if-IsValid (not (a == b))
