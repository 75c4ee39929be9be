-- ===== src/Exec/StackCode/Refinement.antt =====
-- The run of such a program by the loop of the machine.
use mathlib.Core.Option.{some-injective}
use c_at.Base.{
  sym, inl, Option-cases, Result-cases, inr, ◌≡◌, ◌∙◌, ap, suc, Yields, ◌≤◌, ◌*◌, length, get_elem?,
  ◌+◌, ◌<◌, ◌∷◌, [], none, some, true, arith, refl, lt→ltb, List, ℕ,
}
use c_at.Machine.Defs.{Machine, Host, stack_size}
use c_at.Machine.State.{IsValid}
use c_at.Exec.Step.{execute_op, goes_on, execute_program, done}
use c_at.Exec.Loop.{execute_program-suc, execute_program_stops}
use c_at.Exec.Straight.{inst_next-goes_on, SameProgram, past_end}
use c_at.Exec.Preserve.{execute_op-IsValid}
use c_at.Exec.ValidOps.{FitsWords}
use c_at.Exec.StackCode.{
  StackOp, stack_inst, stack_code, WordStack, run_op, run_ops, InRange, AreInRange, IsStack,
}
use c_at.Exec.StackCode.Words.{Refines, execute_inst-Refines}

-- The instructions from `pc` on are those of the operations, up to the end of the program.
abbrev pub AtCode : Machine → List StackOp → Type 0
AtCode m ops =
    ((j : ℕ) → j < length ops → get_elem? m.program (m.pc + j) ≡ get_elem? (stack_code ops) j)
    × (m.pc + length ops ≡ m.program_size)

AtCode-goes_on :
    (op : StackOp) (ops : List StackOp) (m : Machine)
    → m.is_running ≡ true
    → AtCode m (op ∷ ops)
    → goes_on m ≡ true
unfolding goes_on
AtCode-goes_on op ops m on at =
    let inside : m.pc < m.program_size = omega (arith, at.1) in rw (lt→ltb _ _ inside, on) refl

AtCode-next :
    (op : StackOp) (ops : List StackOp) (m m' : Machine)
    → AtCode m (op ∷ ops)
    → SameProgram m m'
    → m'.pc ≡ m.pc + 1
    → AtCode m' ops
AtCode-next op ops m m' at same pc_is = (
  λ j below.
      let place : m'.pc + j ≡ m.pc + suc j = omega (arith, pc_is) in
      rw (same.0, place) (at.0 (suc j) (omega arith)),
  omega (arith, at.1, pc_is, same.1),
)

run_ops-cons :
    (op : StackOp) (ops : List StackOp) (s : WordStack) {s' : WordStack}
    → run_op op s ≡ some s'
    → run_ops (op ∷ ops) s ≡ run_ops ops s'
run_ops-cons op ops s first = rw (run_ops, first) refl

run_ops-stuck :
    (op : StackOp) (ops : List StackOp) (s : WordStack)
    → run_op op s ≡ none
    → run_ops (op ∷ ops) s ≡ none
run_ops-stuck op ops s never = rw (run_ops, never) refl

-- A round from the machine whose `pc` the fetch has moved on.
execute_op-Refines :
    (host : Host) (base : ℕ) (op : StackOp) (ops : List StackOp) (m : Machine) (ws : List ℕ)
    {s : WordStack}
    → IsValid m
    → goes_on m ≡ true
    → AtCode m (op ∷ ops)
    → InRange op
    → m.stack_top + 8 ≤ stack_size
    → IsStack base m.stack_memory m.stack_top ws
    → run_op op (m.iregisters, ws) ≡ some s
    → Yields (Refines base (record m { pc = m.pc + 1 }) s) (execute_op host m)
unfolding execute_op
execute_op-Refines host base op ops m ws v e at fits room h first =
    let (i, found, fetch) = inst_next-goes_on m v e in
    let place : m.pc + 0 ≡ m.pc = omega arith in
    let here_is : get_elem? m.program m.pc ≡ some (stack_inst op) =
      ap (get_elem? m.program) (sym place) ∙ at.0 0 (omega arith) in
    let same : i ≡ stack_inst op = some-injective _ _ (sym found ∙ here_is) in
    rw (fetch, same)
      (execute_inst-Refines base (record m { pc = m.pc + 1 }) v.d_fits host op ws fits room h first)

-- The rest of a program, of `push`, `pop`, `set`, `inc`, `dec`, `add`, `sub`, `mul`, `and`, `or`
-- and the comparisons of integers, with registers and constants in range, run in a valid machine
-- with one round for each instruction, ends with the registers and the words of the stack that
-- the specification on a list of words gives, where this pops nothing from the empty list, the
-- memory from the pointer of the stack down to some base holds the list, and every instruction
-- has four bytes of room. The float results of the host fit 32 bits.
pub execute_program-run_ops :
    (host : Host) (fits : FitsWords host) (base : ℕ) (ops : List StackOp) (m : Machine)
    (ws : List ℕ) (s : WordStack)
    → IsValid m
    → m.is_running ≡ true
    → AtCode m ops
    → AreInRange ops
    → m.stack_top + length ops * 4 + 4 ≤ stack_size
    → IsStack base m.stack_memory m.stack_top ws
    → run_ops ops (m.iregisters, ws) ≡ some s
    → (m' : Machine) × (execute_program host (length ops) m ≡ done m')
      × (m'.iregisters ≡ s.0)
      × IsStack base m'.stack_memory m'.stack_top s.1
execute_program-run_ops host fits base [] m ws s v on at range room h e =
    let same : _ = some-injective _ _ e in
    (
      m,
      execute_program_stops host m 0 (past_end m (omega (arith, at.1))),
      ap (λ (c : WordStack). c.0) same,
      rw (← same) h,
    )
execute_program-run_ops host fits base (op ∷ ops) m ws s v on at range room h e =
    let on_code : goes_on m ≡ true = AtCode-goes_on op ops m on at in
    elim (Option-cases (run_op op (m.iregisters, ws))) [
      | inl (s', first) ↦ elim (Result-cases (execute_op host m)) [
        | inl (m', r) ↦
            let (regs, stack, code, pc_is, running_is, top_le) = rw r at (
              execute_op-Refines host base op ops m ws v on_code at range.0 (omega arith) h
                first) in
            let (m'', run, regs', stack') =
              execute_program-run_ops host fits base ops m' s'.1 s
                (rw r at (execute_op-IsValid host fits m v)) (running_is ∙ on)
                (AtCode-next op ops m m' at code pc_is) range.1 (omega arith) stack
                (ap (λ (d : ℕ → ℕ). run_ops ops (d, s'.1)) regs
                  ∙ sym (run_ops-cons op ops _ first)
                  ∙ e) in
            (m'', execute_program-suc host m (length ops) on_code r ∙ run, regs', stack')
        | inr (x, r) ↦ absurd (
            rw r at
              (execute_op-Refines host base op ops m ws v on_code at range.0 (omega arith) h first))
      ]
      | inr never ↦ let empty = run_ops-stuck op ops (m.iregisters, ws) never in absurd (cc)
    ]
