-- ===== src/Exec/Forward.antt =====
-- Programs whose jumps all lead forward: they end, too.
use c_at.Base.{
  inr, Result-cases, inl, Bool-cases, ◌-◌, zero, ◌≤◌, [], refl, fault, ◌<◌, suc, Result, ok, none,
  ◌+◌, get_elem?, ◌∷◌, some, List, Option, arith, false, true, Holds, ◌≡◌, ℕ,
}
use c_at.Machine.Defs.{Host, Machine}
use c_at.Exec.Control.{immediate, exec_nejmp, exec_jmp, exec_ejmp}
use c_at.Inst.Defs.{operation_of, jmp, Instruction, ejmp, nejmp, Inst}
use c_at.Exec.Step.{execute_program, dispatch, execute_op, goes_on, execute_inst}
use c_at.Machine.State.{emit, IsValid}
use c_at.Exec.Loop.{Ends, execute_program-suc, execute_program_stops, execute_program_faults}
use c_at.Exec.Preserve.{execute_op-IsValid}
use c_at.Exec.ValidOps.{FitsWords}
use c_at.Exec.Straight.{past_end, inst_next-goes_on, SameProgram, sets_pc, execute_inst_falls}

-- The instruction at `k` falls through or jumps to a constant behind `k`.
abbrev pub IsAhead : ℕ → Instruction → Option Inst → Type 0
IsAhead k i none = Unit
IsAhead k i (some jmp) = k < immediate i
IsAhead k i (some ejmp) = k < immediate i
IsAhead k i (some nejmp) = k < immediate i
IsAhead k i (some op) = sets_pc op ≡ false

-- Every jump of the program, from the `k`-th instruction on, leads forward, and there is no call,
-- return or jump to a register.
abbrev pub IsForward : ℕ → List Instruction → Type 0
IsForward k [] = Unit
IsForward k (i ∷ is) = IsAhead k i (operation_of i) × IsForward (k + 1) is

IsForward-get_elem :
    (k : ℕ) (is : List Instruction) (j : ℕ) {i : Instruction}
    → IsForward k is
    → get_elem? is j ≡ some i
    → IsAhead (k + j) i (operation_of i)
IsForward-get_elem k [] j h at = let never : none ≡ some _ = at in absurd (cc)
IsForward-get_elem k (x ∷ is) zero {i = i} h at =
    let same : x ≡ i = cc in let place : k + 0 ≡ k = omega arith in rw (place, ← same) h.0
IsForward-get_elem k (x ∷ is) (suc j) {i = i} h at =
    let place : k + suc j ≡ k + 1 + j = omega arith in
    rw place (IsForward-get_elem (k + 1) is j h.1 at)

-- The program stays, and `pc`, already moved on from `k`, does not go back.
abbrev Advances : ℕ → Machine → Machine → Type 0
Advances k m m' = SameProgram m m' × (k < m'.pc)

falls-Advances :
    (host : Host) (i : Instruction) (m : Machine) (op : Inst) (k : ℕ)
    → k < m.pc
    → sets_pc op ≡ false
    → Holds (Advances k m) (execute_inst host op i m)
falls-Advances host i m op k h falls =
    go (execute_inst host op i m) (execute_inst_falls host i m op falls)
  where
    go :
        (r : Result Machine)
        → Holds (λ m'. SameProgram m m' × (m'.pc ≡ m.pc)) r
        → Holds (Advances k m) r
    go (ok m') (same, at) = (same, omega arith)
    go (fault e) _ = tt

jumps-Advances :
    (i : Instruction) (m : Machine) (k : ℕ)
    → k < m.pc
    → k < immediate i
    → Holds (Advances k m) (exec_jmp i m)
      × Holds (Advances k m) (exec_ejmp i m)
      × Holds (Advances k m) (exec_nejmp i m)
unfolding exec_jmp exec_ejmp exec_nejmp
jumps-Advances i m k h ahead = ground arith

dispatch-Advances :
    (host : Host) (i : Instruction) (m : Machine) (k : ℕ) (o : Option Inst)
    → k < m.pc
    → IsAhead k i o
    → Holds (Advances k m) (dispatch host o i m)
unfolding dispatch emit execute_inst
dispatch-Advances host i m k none h ahead = ((refl, refl), h)
dispatch-Advances host i m k (some jmp) h ahead = (jumps-Advances i m k h ahead).0
dispatch-Advances host i m k (some ejmp) h ahead = (jumps-Advances i m k h ahead).1
dispatch-Advances host i m k (some nejmp) h ahead = (jumps-Advances i m k h ahead).2
dispatch-Advances host i m k (some op) h ahead = falls-Advances host i m op k h ahead

-- A round on forward code moves `pc` on and leaves the program.
execute_op-Advances :
    (host : Host) (m : Machine)
    → IsValid m
    → IsForward 0 m.program
    → goes_on m ≡ true
    → Holds (λ m'. SameProgram m m' × (m.pc < m'.pc)) (execute_op host m)
unfolding execute_op
execute_op-Advances host m v s e =
    let (i, h, fetch) = inst_next-goes_on m v e in
    let place : 0 + m.pc ≡ m.pc = omega arith in
    rw fetch (
      dispatch-Advances host i (record m { pc = m.pc + 1 }) m.pc (operation_of i) (omega arith)
        (rw place at (IsForward-get_elem 0 m.program m.pc s h)))

-- Under a host whose float results fit 32 bits, a program in a valid machine, whose jumps all go
-- to an address behind their own and which has no jump to a register, call or return, ends or
-- stops with a fault with one round of fuel for each instruction from `pc` on.
pub forward_jumps-Ends :
    (host : Host) (fits : FitsWords host) (fuel : ℕ) (m : Machine)
    → IsValid m
    → IsForward 0 m.program
    → m.program_size - m.pc ≤ fuel
    → Ends (execute_program host fuel m)
forward_jumps-Ends host fits zero m v s h =
    rw (execute_program_stops host m 0 (past_end m (omega arith))) tt
forward_jumps-Ends host fits (suc fuel) m v s h = elim (Bool-cases (goes_on m)) [
  | inl e ↦ elim (Result-cases (execute_op host m)) [
    | inl (m', r) ↦
        let (same, moved) = rw r at (execute_op-Advances host m v s e) in
        rw (execute_program-suc host m fuel e r) (
          forward_jumps-Ends host fits fuel m' (rw r at (execute_op-IsValid host fits m v))
            (rw (same.0) s) (rw (same.1) (omega arith)))
    | inr (x, r) ↦ rw (execute_program_faults host m fuel e r) tt
  ]
  | inr e ↦ rw (execute_program_stops host m (suc fuel) e) tt
]
