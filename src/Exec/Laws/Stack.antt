-- ===== src/Exec/Laws/Stack.antt =====
-- `push`, `pop`, loads and saves.
use c_at.Base.{
  update, out_of_bounds, ok, fault, refl, le→leb, lt→ltb, ◌-◌, arith, ◌%◌, ◌>>=◌, ◌≢◌, ◌≡◌, Yields,
  ◌≤◌, ◌+◌, ◌<◌, ℕ,
}
use c_at.Exec.Memory.{exec_dsave, exec_dload, exec_fload, exec_pop, exec_push}
use c_at.Machine.Defs.{reg_count, Machine, size_mod, stack_size}
use c_at.Machine.Memory.{
  save_decimal, load_decimal, get_word, load_float, push_decimal, pop_decimal,
}
use c_at.Machine.Memory.Laws.{get_word-put_word}
use c_at.Machine.State.{IsValid}
use c_at.Inst.Defs.{Instruction}

-- In a valid machine where the next word of the stack lies inside it, and with registers in
-- range, `push` then `pop` are no faults, move the value of one register to another, restore the
-- pointer and keep any other register.
pub exec_pop-exec_push :
    (i j : Instruction) (m : Machine) (r : ℕ)
    → IsValid m
    → i.reg0 < reg_count
    → j.reg0 < reg_count
    → m.stack_top + 8 ≤ stack_size
    → r ≢ j.reg0
    → Yields
        (λ m'.
          (m'.iregisters j.reg0 ≡ m.iregisters i.reg0)
          × (m'.stack_top ≡ m.stack_top)
          × (m'.iregisters r ≡ m.iregisters r))
        (exec_push i m >>= exec_pop j)
unfolding exec_push exec_pop push_decimal pop_decimal
exec_pop-exec_push i j m r v hi hj fits ne =
    let top : (m.stack_top + 4) % size_mod ≡ m.stack_top + 4 = omega arith in
    let back : (m.stack_top + 4 + size_mod - 4) % size_mod ≡ m.stack_top = omega arith in
    let room : m.stack_top + 4 + 4 ≤ stack_size = omega arith in
    rw (lt→ltb _ _ hi, top, le→leb _ _ room, exec_pop, le→leb _ _ room, lt→ltb _ _ hj, back)
      (
        ground (
          arith,
          get_word-put_word m.stack_memory (m.stack_top + 4) (m.iregisters i.reg0)
              (v.d_fits i.reg0),
        ),
        refl,
        ground (arith, ne),
      )

-- In a valid machine, with registers in range, a `dload` from the address where a `dsave` has
-- stored a register, inside the stack, is no fault and loads the value of that register.
pub exec_dload-exec_dsave :
    (i j : Instruction) (m : Machine)
    → IsValid m
    → i.reg0 < reg_count
    → i.reg1 < reg_count
    → j.reg0 < reg_count
    → j.reg1 ≡ i.reg1
    → m.iregisters i.reg1 + 4 ≤ stack_size
    → Yields (λ m'. m'.iregisters j.reg0 ≡ m.iregisters i.reg0) (exec_dsave i m >>= exec_dload j)
unfolding exec_dsave exec_dload save_decimal load_decimal
exec_dload-exec_dsave i j m v h₀ h₁ hj e room = ground (
  arith,
  get_word-put_word m.stack_memory (m.iregisters i.reg1) (m.iregisters i.reg0) (v.d_fits i.reg0),
)

-- A `dload` and a `dsave` with registers in range whose word does not lie in the stack are
-- faults.
pub exec_dload_out_of_stack :
    (i : Instruction) (m : Machine)
    → i.reg0 < reg_count
    → i.reg1 < reg_count
    → stack_size < m.iregisters i.reg1 + 4
    → (exec_dload i m ≡ fault out_of_bounds) × (exec_dsave i m ≡ fault out_of_bounds)
unfolding exec_dload exec_dsave load_decimal save_decimal
exec_dload_out_of_stack i m h₀ h₁ past = ground arith

-- `fload`, with a first register in range and a second number below 128, takes that number for
-- the address: on two machines with the same stack it loads the same value, whatever their
-- registers hold.
pub exec_fload_ignores_registers :
    (i : Instruction) (m n : Machine)
    → i.reg0 < reg_count
    → i.reg1 < 128
    → ((a : ℕ) → m.stack_memory a ≡ n.stack_memory a)
    → (w : ℕ) × (exec_fload i m ≡ ok (record m { fregisters = update m.fregisters i.reg0 w }))
      × (exec_fload i n ≡ ok (record n { fregisters = update n.fregisters i.reg0 w }))
      × (w ≡ get_word m.stack_memory i.reg1)
unfolding exec_fload load_float get_word
exec_fload_ignores_registers i m n h₀ h₁ same = (
  get_word m.stack_memory i.reg1,
  ground arith,
  ground (arith, same i.reg1, same (i.reg1 + 1), same (i.reg1 + 2), same (i.reg1 + 3)),
  refl,
)
