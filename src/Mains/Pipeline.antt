-- ===== src/Mains/Pipeline.antt =====
-- A source that is assembled to a file, and the file run by the machine.
use c_at.Base.{
  ap, ◌>>=◌, ◌∙◌, length, ok, ℕ, str_eq_iff, [], some, true, ◌∷◌, ◌≡◌, codes, ◌≢◌, List, str_eq,
  Bytes, refl, arith,
}
use c_at.Mains.Vm.{exit_of, loaded_program, vm_main}
use c_at.Cli.Laws.{arg_find_value-flag, arg_find_value-IsAbsent}
use c_at.Mains.Caasm.{main_disassemble, assemble_to, main_assemble, Toolchain, caasm_main, out_path}
use c_at.Files.Defs.{write_to_file, Loaded, Disk}
use c_at.Machine.Defs.{Globals, init_machine, Host}
use c_at.Exec.Step.{execute_program}
use c_at.Inst.Defs.{Instruction}
use c_at.Files.RoundTrip.{AllFit, load_from_file-write_to_file}
use c_at.Mains.Emitted.{assemble_source-AllFit}
use c_at.Disassembler.Print.{print_program_asm}
use c_at.Assembler.Program.{assemble_source}

-- `caasm path -o out`.
abbrev pub assemble_args : Bytes → Bytes → List Bytes
assemble_args source out = codes "caasm" ∷ source ∷ codes "-o" ∷ out ∷ []

-- Neither path is one of the flags.
abbrev pub IsPath : Bytes → Type 0
IsPath path = (path ≢ codes "-o") × (path ≢ codes "-d")

different : codes "-o" ≢ codes "-d"
unfolding str_eq
different e = let same : str_eq (codes "-o") (codes "-d") ≡ true = (str_eq_iff _ _).1 e in cc

pub caasm_main-assemble_args :
    (t : Toolchain) (source out file : Bytes) (disk : Disk)
    → IsPath source
    → IsPath out
    → disk.contents source ≡ some file
    → caasm_main t (assemble_args source out) disk ≡ assemble_to t file out disk
unfolding caasm_main main_assemble out_path
caasm_main-assemble_args t source out file disk hs ho stands =
    let no_d =
      arg_find_value-IsAbsent (codes "caasm") (codes "-d") (source ∷ codes "-o" ∷ out ∷ [])
        (hs.1, (different, (ho.1, tt))) in
    let with_o = arg_find_value-flag (codes "caasm") (codes "-o") out (source ∷ []) [] (ho.0, tt) in
    ground (arith, no_d.0, with_o.0, with_o.1, stands)

-- A file that is written and not empty is run as the program that was written.
vm_main-write_to_file :
    (host : Host) (fuel : ℕ) (g : Globals) (padding : ℕ → ℕ → ℕ) (path out : Bytes)
    (i : Instruction) (is : List Instruction) (disk : Disk)
    → disk.can_create out ≡ true
    → AllFit (i ∷ is)
    → vm_main host fuel g (write_to_file padding out (i ∷ is) disk).1 (path ∷ out ∷ [])
      ≡ exit_of (execute_program host fuel (init_machine g (i ∷ is) (length (i ∷ is))))
unfolding vm_main
vm_main-write_to_file host fuel g padding path out i is disk can fit =
    let loaded = load_from_file-write_to_file padding out i is disk 0 can fit in
    ap
      (λ (l : Loaded).
        exit_of (
          execute_program host fuel
            (init_machine g (loaded_program l.instructions) l.program_size)))
      loaded.1

module _ (t : Toolchain) (source out file : Bytes) (i : Instruction) (is : List Instruction)
    (disk : Disk) (source_path : IsPath source) (path : IsPath out)
    (stands : disk.contents source ≡ some file) (can : disk.can_create out ≡ true)
    (made : assemble_source t.build t.residue file ≡ ok (i ∷ is)) where
  assembled :
      caasm_main t (assemble_args source out) disk
      ≡ ok (record {
        status = 0;
        disk = (write_to_file t.padding out (i ∷ is) disk).1;
        text = print_program_asm t.show_float (i ∷ is);
      })
  unfolding assemble_to
  assembled = caasm_main-assemble_args t source out file disk source_path path stands ∙ rw made refl

  -- Where the text of a file is assembled to a program with an instruction, `caasm source -o out`
  -- followed by `set out` gives the exit status of a run of that program from the initial
  -- machine, if the two paths are no flags and `out` can be created, whatever the padding of the
  -- records holds.
  pub vm_main-caasm_main :
      (host : Host) (fuel : ℕ) (g : Globals)
      → (caasm_main t (assemble_args source out) disk >>= λ e.
          ok (vm_main host fuel g e.disk (codes "set" ∷ out ∷ [])))
        ≡ ok (exit_of (execute_program host fuel (init_machine g (i ∷ is) (length (i ∷ is)))))
  vm_main-caasm_main host fuel g = rw assembled (
      ap ok (
        vm_main-write_to_file host fuel g t.padding (codes "set") out i is disk can
          (assemble_source-AllFit t.build t.residue file made)))

  -- Where the text of a file is assembled to a program with an instruction, `caasm source -o out`
  -- followed by `caasm -d out` prints the disassembly of that program, if the two paths are no
  -- flags and `out` can be created.
  pub caasm_main-disassemble :
      (caasm_main t (assemble_args source out) disk >>= λ e.
      caasm_main t (codes "caasm" ∷ codes "-d" ∷ out ∷ []) e.disk >>= λ d. ok d.text)
      ≡ ok (print_program_asm t.show_float (i ∷ is))
  unfolding caasm_main main_disassemble
  caasm_main-disassemble =
      let flag = arg_find_value-flag (codes "caasm") (codes "-d") out [] [] (path.1, tt) in
      let loaded =
        load_from_file-write_to_file t.padding out i is disk 0 can
          (assemble_source-AllFit t.build t.residue file made) in
      rw assembled (ground (arith, flag.0, flag.1, loaded.1))
