-- ===== src/Exec/Straight.antt =====
-- Programs without jumps, calls and returns end after one round for each instruction.
use c_at.Base.{
  inr, Result-cases, inl, Bool-cases, ◌-◌, zero, ◌≤◌, [], ap, ◌%◌, refl, get_elem?_in_range, fault,
  ◌<◌, suc, Result, ok, none, ◌+◌, get_elem?, ◌∷◌, some, List, Option, arith, false, true, Holds,
  Bool, ◌≡◌, ℕ,
}
use c_at.Machine.Defs.{size_mod, Host, Machine}
use c_at.Exec.Integer.{
  exec_mul, exec_add, exec_cmpg, exec_cmpeg, exec_and, exec_cmpe, exec_div, exec_cmpel, exec_cmpl,
  exec_or, exec_inc, exec_dec, exec_sub,
}
use c_at.Exec.Control.{
  exec_erjmp, exec_getac, exec_ret, exec_print, exec_nerjmp, exec_rjmp, exec_nejmp, exec_halt,
  exec_jmp, exec_entry, exec_nop, exec_call, exec_reg_dump, exec_rec, exec_ejmp,
}
use c_at.Inst.Defs.{
  operation_of, nop, or, and, mul, div, sub, add, dec, inc, rec, pop, ret, set, jmp, cmpeg, fload,
  cu2f, fcmpel, ci2u, fcmpeg, fmul, Instruction, erjmp, halt, fcmpe, nerjmp, cmpl, fadd, cmpel,
  fcmpg, fset, ejmp, ci2f, push, dload, dsave, cmpe, nejmp, fdiv, cf2i, rjmp, fsub, entry, fcmpl,
  Inst, fsave, cf2u, print, reg_dump, getac, cu2i, cmpg, call,
}
use c_at.Machine.Frames.{record_frame, call_frame}
use c_at.Exec.Memory.{
  exec_fsave, exec_push, exec_pop, exec_dsave, exec_fset, exec_dload, exec_set, exec_fload,
}
use c_at.Machine.Memory.{
  save_float, load_float, pop_decimal, push_decimal, save_decimal, load_decimal,
}
use c_at.Exec.Float.{
  exec_fadd, exec_cf2u, exec_cu2f, exec_ci2u, exec_fsub, exec_fcmpe, exec_cu2i, exec_fdiv,
  exec_ci2f, exec_fcmpel, exec_fmul, exec_fcmpl, exec_fcmpg, exec_cf2i, exec_fcmpeg,
}
use c_at.Exec.Step.{execute_program, dispatch, execute_op, goes_on, execute_inst}
use c_at.Machine.State.{emit, IsValid, inst_next, fetched}
use c_at.Exec.Loop.{Ends, execute_program-suc, execute_program_stops, execute_program_faults}
use c_at.Exec.Preserve.{execute_op-IsValid}
use c_at.Exec.ValidOps.{FitsWords}

-- What no instruction changes: the program and its size.
abbrev pub SameProgram : Machine → Machine → Type 0
SameProgram m m' = (m'.program ≡ m.program) × (m'.program_size ≡ m.program_size)

-- The instructions that may set `pc`.
unfoldable pub sets_pc : Inst → Bool
sets_pc call = true
sets_pc jmp = true
sets_pc ejmp = true
sets_pc nejmp = true
sets_pc rjmp = true
sets_pc erjmp = true
sets_pc nerjmp = true
sets_pc ret = true
sets_pc _ = false

-- An instruction keeps the program, and all but those of `sets_pc` keep `pc`.
abbrev KeepsCode : Inst → Machine → Machine → Type 0
KeepsCode op m m' = SameProgram m m' × (sets_pc op ≡ false → m'.pc ≡ m.pc)

pub execute_inst-KeepsCode :
    (host : Host) (i : Instruction) (m : Machine) (op : Inst)
    → Holds (KeepsCode op m) (execute_inst host op i m)
unfolding execute_inst sets_pc exec_halt exec_entry exec_dload exec_fload exec_dsave exec_fsave
    exec_set exec_fset exec_push exec_pop exec_rec exec_call exec_getac exec_inc exec_dec exec_add
    exec_sub exec_div exec_mul exec_fadd exec_fsub exec_fdiv exec_fmul exec_and exec_or exec_cu2i
    exec_ci2u exec_cf2i exec_ci2f exec_cu2f exec_cf2u exec_cmpe exec_cmpeg exec_cmpel exec_cmpg
    exec_cmpl exec_fcmpe exec_fcmpeg exec_fcmpel exec_fcmpg exec_fcmpl exec_jmp exec_ejmp exec_nejmp
    exec_rjmp exec_erjmp exec_nerjmp exec_print exec_reg_dump exec_ret exec_nop push_decimal
    pop_decimal load_decimal save_decimal load_float save_float record_frame call_frame
execute_inst-KeepsCode host i m halt = ground arith
execute_inst-KeepsCode host i m entry = ground arith
execute_inst-KeepsCode host i m dload = ground arith
execute_inst-KeepsCode host i m fload = ground arith
execute_inst-KeepsCode host i m dsave = ground arith
execute_inst-KeepsCode host i m fsave = ground arith
execute_inst-KeepsCode host i m set = ground arith
execute_inst-KeepsCode host i m fset = ground arith
execute_inst-KeepsCode host i m push = ground arith
execute_inst-KeepsCode host i m pop = ground arith
execute_inst-KeepsCode host i m rec = ground arith
execute_inst-KeepsCode host i m call = ground arith
execute_inst-KeepsCode host i m getac = ground arith
execute_inst-KeepsCode host i m inc = ground arith
execute_inst-KeepsCode host i m dec = ground arith
execute_inst-KeepsCode host i m add = ground arith
execute_inst-KeepsCode host i m sub = ground arith
execute_inst-KeepsCode host i m div = ground arith
execute_inst-KeepsCode host i m mul = ground arith
execute_inst-KeepsCode host i m fadd = ground arith
execute_inst-KeepsCode host i m fsub = ground arith
execute_inst-KeepsCode host i m fdiv = ground arith
execute_inst-KeepsCode host i m fmul = ground arith
execute_inst-KeepsCode host i m and = ground arith
execute_inst-KeepsCode host i m or = ground arith
execute_inst-KeepsCode host i m cu2i = ground arith
execute_inst-KeepsCode host i m ci2u = ground arith
execute_inst-KeepsCode host i m cf2i = ground arith
execute_inst-KeepsCode host i m ci2f = ground arith
execute_inst-KeepsCode host i m cu2f = ground arith
execute_inst-KeepsCode host i m cf2u = ground arith
execute_inst-KeepsCode host i m cmpe = ground arith
execute_inst-KeepsCode host i m cmpeg = ground arith
execute_inst-KeepsCode host i m cmpel = ground arith
execute_inst-KeepsCode host i m cmpg = ground arith
execute_inst-KeepsCode host i m cmpl = ground arith
execute_inst-KeepsCode host i m fcmpe = ground arith
execute_inst-KeepsCode host i m fcmpeg = ground arith
execute_inst-KeepsCode host i m fcmpel = ground arith
execute_inst-KeepsCode host i m fcmpg = ground arith
execute_inst-KeepsCode host i m fcmpl = ground arith
execute_inst-KeepsCode host i m jmp = ground arith
execute_inst-KeepsCode host i m ejmp = ground arith
execute_inst-KeepsCode host i m nejmp = ground arith
execute_inst-KeepsCode host i m rjmp = ground arith
execute_inst-KeepsCode host i m erjmp = ground arith
execute_inst-KeepsCode host i m nerjmp = ground arith
execute_inst-KeepsCode host i m print = ground arith
execute_inst-KeepsCode host i m reg_dump = ground arith
execute_inst-KeepsCode host i m ret = ground arith
execute_inst-KeepsCode host i m nop = ground arith

-- Every instruction but the calls, the returns and the jumps keeps `pc`, the program and its
-- size, or is a fault.
pub execute_inst_falls :
    (host : Host) (i : Instruction) (m : Machine) (op : Inst)
    → sets_pc op ≡ false
    → Holds (λ m'. SameProgram m m' × (m'.pc ≡ m.pc)) (execute_inst host op i m)
execute_inst_falls host i m op h =
    by_inst (execute_inst host op i m) (execute_inst-KeepsCode host i m op)
  where
    by_inst :
        (r : Result Machine)
        → Holds (KeepsCode op m) r
        → Holds (λ m'. SameProgram m m' × (m'.pc ≡ m.pc)) r
    by_inst (ok m') k = (k.0, k.1 h)
    by_inst (fault e) k = tt

abbrev pub Falls : Option Inst → Type 0
Falls none = Unit
Falls (some op) = sets_pc op ≡ false

-- No instruction of the program may set `pc`.
abbrev pub IsStraight : List Instruction → Type 0
IsStraight [] = Unit
IsStraight (i ∷ is) = Falls (operation_of i) × IsStraight is

Falls-get_elem :
    (is : List Instruction) (k : ℕ) {i : Instruction}
    → IsStraight is
    → get_elem? is k ≡ some i
    → Falls (operation_of i)
Falls-get_elem [] k s h = absurd (none≢some h)
  where
    none≢some : {A : Type 0} {a : A} → none ≡ some a → ⊥
    none≢some h = cc
Falls-get_elem (j ∷ is) zero {i = i} s h = let same : j ≡ i = cc in rw (← same) s.0
Falls-get_elem (j ∷ is) (suc k) s h = Falls-get_elem is k s.1 h

-- In a valid machine where the test of the loop holds, the fetch reads inside the program and
-- moves `pc` on by one.
pub inst_next-goes_on :
    (m : Machine)
    → IsValid m
    → goes_on m ≡ true
    → (i : Instruction) × (get_elem? m.program m.pc ≡ some i)
      × (inst_next m ≡ ok (i, record m { pc = m.pc + 1 }))
unfolding inst_next goes_on
inst_next-goes_on m v e =
    let inside : m.pc < m.program_size = ground arith in
    let (i, h) = get_elem?_in_range m.program m.pc (omega (arith, v.program_there)) in
    let small : (m.pc + 1) % size_mod ≡ m.pc + 1 = omega (arith, v.size_fits) in
    (i, h, rw (h, fetched) (ap (λ p. ok (i, record m { pc = p })) small))

dispatch-Falls :
    (host : Host) (i : Instruction) (m : Machine) (o : Option Inst)
    → Falls o
    → Holds (λ m'. SameProgram m m' × (m'.pc ≡ m.pc)) (dispatch host o i m)
unfolding dispatch emit
dispatch-Falls host i m none h = ((refl, refl), refl)
dispatch-Falls host i m (some op) h = execute_inst_falls host i m op h

-- A round on straight code moves `pc` on by one and leaves the program.
execute_op_falls :
    (host : Host) (m : Machine)
    → IsValid m
    → IsStraight m.program
    → goes_on m ≡ true
    → Holds (λ m'. SameProgram m m' × (m'.pc ≡ m.pc + 1)) (execute_op host m)
unfolding execute_op
execute_op_falls host m v s e =
    let (i, h, fetch) = inst_next-goes_on m v e in
    rw fetch (
      dispatch-Falls host i (record m { pc = m.pc + 1 }) (operation_of i)
        (Falls-get_elem m.program m.pc s h))

pub past_end : (m : Machine) → m.program_size ≤ m.pc → goes_on m ≡ false
unfolding goes_on
past_end m h = ground arith

-- Under a host whose float results fit 32 bits, a program without jumps, calls and returns, in a
-- valid machine, ends or stops with a fault with one round of fuel for each instruction that is
-- left.
pub straight_line-Ends :
    (host : Host) (fits : FitsWords host) (fuel : ℕ) (m : Machine)
    → IsValid m
    → IsStraight m.program
    → m.program_size - m.pc ≤ fuel
    → Ends (execute_program host fuel m)
straight_line-Ends host fits zero m v s h =
    rw (execute_program_stops host m 0 (past_end m (omega arith))) tt
straight_line-Ends host fits (suc fuel) m v s h = elim (Bool-cases (goes_on m)) [
  | inl e ↦ elim (Result-cases (execute_op host m)) [
    | inl (m', r) ↦
        let (same, moved) = rw r at (execute_op_falls host m v s e) in
        rw (execute_program-suc host m fuel e r) (
          straight_line-Ends host fits fuel m' (rw r at (execute_op-IsValid host fits m v))
            (rw (same.0) s) (rw (same.1, moved) (omega arith)))
    | inr (x, r) ↦ rw (execute_program_faults host m fuel e r) tt
  ]
  | inr e ↦ rw (execute_program_stops host m (suc fuel) e) tt
]
