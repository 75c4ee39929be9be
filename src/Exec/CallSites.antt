-- ===== src/Exec/CallSites.antt =====
-- The saved addresses of the open frames, in every run.
use c_at.Base.{get_elem?, ◌%◌, ◌<◌, ◌+◌, some, List, ◌≡◌, ℕ}
use c_at.Machine.Defs.{size_mod, Machine}
use c_at.Inst.Defs.{operation_of, Instruction, Inst, call}
use c_at.Exec.Opens.{Opens}

-- The address is the one behind the next instruction of a `call` of the program, from which a return
-- goes back by one.
abbrev pub IsCallSite : List Instruction → ℕ → Type 0
IsCallSite program rip =
    (c : ℕ) × (i : Instruction) × (get_elem? program c ≡ some i)
    × (operation_of i ≡ some call)
    × (rip ≡ (c + 2) % size_mod)

-- The machine runs the program, and every frame that is open holds the address of a call site.
abbrev pub SavesCalls : List Instruction → Machine → Type 0
SavesCalls program m =
    (m.program ≡ program) × ((k : ℕ) → k < m.frames → IsCallSite program (m.frame_memory k).rip)
