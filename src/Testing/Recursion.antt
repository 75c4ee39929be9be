-- ===== src/Testing/Recursion.antt =====
-- The program of the native test `recursive_function_call`, with any depth in the place of 5.
use c_at.Base.{
  out_of_bounds, ◌≢◌, ◌^◌, ◌≡◌, suc, get_elem?, ◌-◌, ◌%◌, ◌+◌, ◌<◌, ◌==◌, ◌∷◌, [], none, some,
  update, true, false, arith, refl, lt→ltb, List, ℕ,
}
use c_at.Inst.Defs.{Instruction}
use c_at.Inst.Macros.{
  make_push, make_pop, make_set, make_add, make_rec, make_call, make_ret, make_reg_dump, make_nejmp,
}
use c_at.Machine.Defs.{
  size_mod, frame_count, Machine, Host, Globals, CallFrame, empty_frame, uint_mod, init_machine,
}
use c_at.Machine.State.{emit}
use c_at.Machine.Frames.{record_frame, call_frame}
use c_at.Machine.Memory.{get_word, put_word, push_decimal, pop_decimal}
use c_at.Exec.Memory.{exec_push, exec_pop, exec_set}
use c_at.Exec.Integer.{exec_add}
use c_at.Exec.Control.{
  exec_rec, exec_call, exec_ret, ret_frame, ret_root, exec_reg_dump, exec_nejmp,
}
use c_at.Exec.Step.{execute_op, execute_inst, execute_program, stuck}
use c_at.Mains.Vm.{exit_of, exited}
use c_at.Testing.Programs.{recursive_function_call}

-- The procedure at 5 counts `r0` up through the stack and calls itself until `r0` is `n`.
abbrev pub recursion : ℕ → List Instruction
recursion n =
    make_set 0 0
    ∷ make_rec
    ∷ make_push (0 ∷ [])
    ∷ make_call 5
    ∷ make_ret (0 ∷ [])
    ∷ make_pop []
    ∷ make_set 1 1
    ∷ make_set 2 n
    ∷ make_add (0 ∷ 0 ∷ 1 ∷ [])
    ∷ make_reg_dump (0 ∷ [])
    ∷ make_nejmp 12 0 2
    ∷ make_ret (0 ∷ [])
    ∷ make_rec
    ∷ make_push (0 ∷ [])
    ∷ make_call 5
    ∷ make_ret (0 ∷ [])
    ∷ []

-- The native test has depth 5.
recursion_lem : recursion 5 ≡ recursive_function_call
recursion_lem = refl

module _ (host : Host) (g : Globals) (n : ℕ) where
  -- The machine at an instruction, with what the program changes.
  abbrev pub at_inst : ℕ → (ℕ → ℕ) → ℕ → ℕ → ℕ → (ℕ → CallFrame) → (ℕ → ℕ) → Machine
  at_inst at d acc k top fm memory = record {
    pc = at;
    program_size = 16;
    program = recursion n;
    iregisters = d;
    fregisters = g.f_registers;
    accum_register = acc;
    frames = k;
    stack_top = top;
    frame_memory = fm;
    stack_memory = memory;
    is_running = true;
    core_logger = none;
    events = [];
  }

  -- The registers where the procedure compares: the count that it popped, plus one, in `r0`.
  abbrev pub counted : (ℕ → ℕ) → ℕ → ℕ → ℕ
  counted d w = update (update (update (update d 0 w) 1 1) 2 n) 0 ((w + 1) % uint_mod)

  -- From the start of the procedure to the comparison, which sends it on to 12 or 11.
  pub to_compare :
      (f : ℕ) (d : ℕ → ℕ) (k : ℕ) (fm : ℕ → CallFrame) (memory : ℕ → ℕ)
      → n < uint_mod
      → execute_program host (suc (suc (suc (suc (suc f))))) (at_inst 5 d 0 k 4 fm memory)
        ≡ execute_program host f (at_inst 10 (counted d (get_word memory 4)) 0 k 0 fm memory)
  unfolding execute_program execute_op execute_inst exec_pop pop_decimal exec_set exec_add
      exec_reg_dump emit make_set make_rec make_push make_call make_ret make_pop make_add
      make_reg_dump make_nejmp
  to_compare f d k fm memory small =
      let value : n % 2 ^ 32 % uint_mod ≡ n = omega arith in rw value refl

  -- The comparison that sends the procedure to the next call.
  pub to_rec :
      (f : ℕ) (d : ℕ → ℕ) (k : ℕ) (fm : ℕ → CallFrame) (memory : ℕ → ℕ)
      → d 2 ≢ d 0
      → execute_program host (suc f) (at_inst 10 d 0 k 0 fm memory)
        ≡ execute_program host f (at_inst 12 d 0 k 0 fm memory)
  unfolding execute_program execute_op execute_inst exec_nejmp make_set make_rec make_push make_call
      make_ret make_pop make_add make_reg_dump make_nejmp
  to_rec f d k fm memory differs =
      let other : (d 2 == d 0) ≡ false = ground (arith, differs) in rw other refl

  pub to_push :
      (f : ℕ) (d : ℕ → ℕ) (k : ℕ) (fm : ℕ → CallFrame) (memory : ℕ → ℕ)
      → k < frame_count
      → execute_program host (suc (suc f)) (at_inst 12 d 0 k 0 fm memory)
        ≡ execute_program host f (
            at_inst 14 d 0 k 4
              (update fm k (record { rip = 0; bfp = 0; lvp = 0 }))
              (put_word memory 4 (d 0)))
  unfolding execute_program execute_op execute_inst exec_rec record_frame exec_push push_decimal
      make_set make_rec make_push make_call make_ret make_pop make_add make_reg_dump make_nejmp
  to_push f d k fm memory room = rw (execute_program, lt→ltb _ _ room) refl

  pub to_call :
      (f : ℕ) (d : ℕ → ℕ) (k : ℕ) (fm : ℕ → CallFrame) (memory : ℕ → ℕ)
      → k < frame_count
      → execute_program host (suc f) (at_inst 14 d 0 k 4 fm memory)
        ≡ execute_program host f
            (at_inst 5 d 0 (k + 1) 4 (update fm k (record { rip = 16; bfp = 0; lvp = 4 })) memory)
  unfolding execute_program execute_op execute_inst exec_call call_frame make_set make_rec make_push
      make_call make_ret make_pop make_add make_reg_dump make_nejmp
  to_call f d k fm memory room = rw (execute_program, lt→ltb _ _ room) refl

  -- The comparison that finds `n`.
  pub to_return :
      (f : ℕ) (d : ℕ → ℕ) (k : ℕ) (fm : ℕ → CallFrame) (memory : ℕ → ℕ)
      → d 2 ≡ d 0
      → execute_program host (suc f) (at_inst 10 d 0 k 0 fm memory)
        ≡ execute_program host f (at_inst 11 d 0 k 0 fm memory)
  unfolding execute_program execute_op execute_inst exec_nejmp make_set make_rec make_push make_call
      make_ret make_pop make_add make_reg_dump make_nejmp
  to_return f d k fm memory same =
      let equal : (d 2 == d 0) ≡ true = ground (arith, same) in rw equal refl

  -- `rec` where no frame is left.
  pub overflow :
      (f : ℕ) (d : ℕ → ℕ) (fm : ℕ → CallFrame) (memory : ℕ → ℕ)
      → execute_program host (suc f) (at_inst 12 d 0 frame_count 0 fm memory) ≡ stuck out_of_bounds
  unfolding execute_program execute_op execute_inst exec_rec record_frame make_set make_rec
      make_push make_call make_ret make_pop make_add make_reg_dump make_nejmp
  overflow f d fm memory = refl

  abbrev pub IsReturn : ℕ → Type 0
  IsReturn at = (at < 16) × (get_elem? (recursion n) at ≡ some (make_ret (0 ∷ [])))

  -- A return from a frame.
  pub ret_round :
      (f at : ℕ) (d : ℕ → ℕ) (acc k top : ℕ) (fm : ℕ → CallFrame) (memory : ℕ → ℕ)
      → IsReturn at
      → k < frame_count
      → execute_program host (suc f) (at_inst at d acc (k + 1) top fm memory)
        ≡ execute_program host f (
            at_inst
              (((fm k).rip + size_mod - 1) % size_mod)
              d
              (d 0)
              k
              top
              (update fm k empty_frame)
              memory)
  unfolding execute_program execute_op execute_inst exec_ret ret_frame make_ret
  ret_round f at d acc k top fm memory h room =
      let some_frame : (k + 1 == 0) ≡ false = ground arith in
      let back : k + 1 - 1 ≡ k = omega arith in
      rw (execute_program, lt→ltb _ _ h.0, h.1, some_frame, back, lt→ltb _ _ room) refl

  -- From the initial machine to the procedure.
  pub first_rounds :
      (f : ℕ)
      → execute_program host (suc (suc (suc (suc f)))) (init_machine g (recursion n) 16)
        ≡ execute_program host f (
            at_inst 5
              (update g.d_registers 0 0)
              0
              1
              4
              (update
                (update (λ _. empty_frame) 0 empty_frame)
                0
                (record { rip = 5; bfp = 0; lvp = 4 }))
              (put_word g.stack 4 0))
  unfolding execute_program execute_op execute_inst exec_set exec_rec record_frame exec_push
      push_decimal exec_call call_frame make_set make_rec make_push make_call make_ret make_pop
      make_add make_reg_dump make_nejmp init_machine
  first_rounds f = refl

  -- The return from the program.
  pub last_round :
      (d : ℕ → ℕ) (acc top : ℕ) (fm : ℕ → CallFrame) (memory : ℕ → ℕ)
      → exit_of (execute_program host 1 (at_inst 4 d acc 0 top fm memory)) ≡ exited (d 0 % 256)
  unfolding execute_program execute_op execute_inst exec_ret ret_root make_set make_rec make_push
      make_call make_ret make_pop make_add make_reg_dump make_nejmp exit_of
  last_round d acc top fm memory = refl
