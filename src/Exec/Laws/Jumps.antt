-- ===== src/Exec/Laws/Jumps.antt =====
-- The conditional jumps as their macros build them.
use c_at.Base.{◌==◌, if◌then◌else◌, ok, ◌≡◌, ◌<◌, ℕ, arith}
use c_at.Exec.Control.{exec_nejmp, exec_ejmp}
use c_at.Machine.Defs.{Machine, uint_mod, reg_count}
use c_at.Inst.Macros.{make_ejmp, instruction, make_nejmp}

-- `EJMP(a, r0, r1)` and `NEJMP(a, r0, r1)`, executed with a register `r1` in range and an address
-- below 2 ^ 32, compare register `r1` with register 0, whatever `r0` is, and jump to `a` on equal
-- and on different values.
pub exec_ejmp-make_ejmp :
    (a r0 r1 : ℕ) (m : Machine)
    → r1 < reg_count
    → a < uint_mod
    → (exec_ejmp (make_ejmp a r0 r1) m
        ≡ ok (if m.iregisters r1 == m.iregisters 0 then record m { pc = a } else m))
      × (exec_nejmp (make_nejmp a r0 r1) m
          ≡ ok (if m.iregisters r1 == m.iregisters 0 then m else record m { pc = a }))
unfolding exec_ejmp exec_nejmp make_ejmp make_nejmp instruction
exec_ejmp-make_ejmp a r0 r1 m h k = ground arith
