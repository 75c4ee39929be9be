-- ===== src/Machine/Report.antt =====
-- `log_regs`, `log_debug_registers` and `time_in_microsec` of src/vm/set.c.
use c_at.Base.{
  ◌^◌, ◌≡◌, ◌≤◌, ◌<◌, ◌⊎◌, arith, ◌++◌, ◌+◌, ◌*◌, ◌/◌, ◌%◌, [], suc, zero, codes, Bytes, ℕ,
}
use c_at.Machine.Defs.{Machine, reg_count, size_mod}
use c_at.Disassembler.Show.{show_int, show_uint}

-- The lines of `rounds` registers from `i` on; `show_float` is what `%f` prints of a float.
unfoldable pub regs_from : (ℕ → Bytes) → ℕ → (ℕ → ℕ) → (ℕ → ℕ) → ℕ → Bytes
unfolding show_int
regs_from show_float zero iregisters fregisters i = []
regs_from show_float (suc rounds) iregisters fregisters i =
    codes "\t | $dr"
    ++ (show_int i
        ++ (codes ": "
            ++ (show_int (iregisters i)
                ++ (codes ",\t  $fr"
                    ++ (show_int i
                        ++ (codes ": "
                            ++ (show_float (fregisters i)
                                ++ (codes "\n"
                                    ++ regs_from show_float rounds iregisters fregisters
                                        (i + 1)))))))))

unfoldable pub log_regs : (ℕ → Bytes) → (ℕ → ℕ) → (ℕ → ℕ) → Bytes
unfolding regs_from
log_regs show_float iregisters fregisters = regs_from show_float reg_count iregisters fregisters 0

unfoldable pub log_debug_registers : (ℕ → Bytes) → Machine → Bytes
unfolding show_uint log_regs
log_debug_registers show_float m =
    codes " $PC: dec("
    ++ (show_uint m.pc
        ++ (codes ")----------------------------\n"
            ++ (log_regs show_float m.iregisters m.fregisters
                ++ codes "----------------------------\n")))

-- The clock gives seconds and microseconds; the result is in milliseconds.
unfoldable pub time_in_microsec : ℕ → ℕ → ℕ
time_in_microsec sec usec = (sec * 1000 + usec / 1000) % size_mod

-- A later time is not smaller, so that the difference of the caller does not wrap around.
pub time_in_microsec-le :
    (sec usec sec' usec' : ℕ)
    → usec < 1000000
    → usec' < 1000000
    → sec' < 2 ^ 50
    → (sec < sec') ⊎ ((sec ≡ sec') × (usec ≤ usec'))
    → time_in_microsec sec usec ≤ time_in_microsec sec' usec'
unfolding time_in_microsec
time_in_microsec-le sec usec sec' usec' h h' small order = omega (arith, order)
