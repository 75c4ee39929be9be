-- ===== src/Exec/Loop.antt =====
-- The equations of `execute_program`: how a run with one more round of fuel goes.
use c_at.Exec.Step.{goes_on, running, done, execute_op, stuck, Run, execute_program}
use c_at.Machine.Defs.{Host, Machine}
use c_at.Base.{fault, Fault, arith, zero, suc, ok, false, true, ◌≡◌, ℕ}

abbrev pub RunHolds : (Machine → Type 0) → Run → Type 0
RunHolds P (done m) = P m
RunHolds P (running m) = P m
RunHolds P (stuck e) = Unit

abbrev pub Ends : Run → Type 0
Ends (done m) = Unit
Ends (stuck e) = Unit
Ends (running m) = ⊥

-- The equations of the loop, by its test and the outcome of a round.
module _ (host : Host) (m : Machine) where
  pub execute_program_stops : (fuel : ℕ) → goes_on m ≡ false → execute_program host fuel m ≡ done m
  unfolding execute_program
  execute_program_stops zero e = ground (arith, e)
  execute_program_stops (suc fuel) e = ground (arith, e)

  pub execute_program-zero : goes_on m ≡ true → execute_program host 0 m ≡ running m
  unfolding execute_program
  execute_program-zero e = ground (arith, e)

  pub execute_program-suc :
      (fuel : ℕ) {m' : Machine}
      → goes_on m ≡ true
      → execute_op host m ≡ ok m'
      → execute_program host (suc fuel) m ≡ execute_program host fuel m'
  unfolding execute_program
  execute_program-suc fuel e s = ground (arith, e, s)

  pub execute_program_faults :
      (fuel : ℕ) {x : Fault}
      → goes_on m ≡ true
      → execute_op host m ≡ fault x
      → execute_program host (suc fuel) m ≡ stuck x
  unfolding execute_program
  execute_program_faults fuel e s = ground (arith, e, s)
