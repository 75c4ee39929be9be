-- ===== src/Mains/Vm.antt =====
-- `main` of src/vm/vm.c, without `BRUTE_FORCE_PROGRAM`.
use c_at.Base.{none, some, Bytes, [], List, ◌%◌, Option, Fault, ℕ, ◌∷◌}
use c_at.Files.Defs.{Disk, load_from_file}
use c_at.Exec.Step.{Run, running, stuck, done, execute_program}
use c_at.Machine.Defs.{Host, init_machine, Globals}
use c_at.Inst.Defs.{Instruction}

-- How a process ends: `exited` with its status, or by a signal; `cut` says that the fuel was used up.
pub data Exit : Type 0 where
  exited : ℕ → Exit
  crashed : Fault → Exit
  cut : Exit

-- `return m.accum_register`: the status has 8 bits.
unfoldable pub exit_of : Run → Exit
exit_of (done m) = exited (m.accum_register % 256)
exit_of (stuck e) = crashed e
exit_of (running m) = cut

-- The instructions behind the pointer; a null pointer comes with the size 0.
abbrev pub loaded_program : Option (List Instruction) → List Instruction
loaded_program none = []
loaded_program (some is) = is

-- `main`: `-1` for another number of arguments than one. `g` is what the globals hold at the start,
-- zeros in C.
unfoldable pub vm_main : Host → ℕ → Globals → Disk → List Bytes → Exit
unfolding load_from_file init_machine execute_program exit_of
vm_main host fuel g disk (path ∷ file ∷ []) =
    let loaded = load_from_file disk file 0 in
    exit_of (
      execute_program host fuel
        (init_machine g (loaded_program loaded.instructions) loaded.program_size))
vm_main host fuel g disk _ = exited 255
