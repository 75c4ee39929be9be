-- ===== src/Mains/Caasm.antt =====
-- `main`, `main_assemble` and `main_disassemble` of src/assembler/basic_assembler.c. Of what is
-- printed only the text of the disassembler is kept.
use c_at.Base.{
  length, some, ◌==◌, ltb, [], ok, not, none, get_or, ◌>>=◌, if◌then◌else◌, List, Result, codes,
  Bytes, ℕ,
}
use c_at.Files.Defs.{Disk, write_to_file, load_from_file}
use c_at.Cli.Defs.{args_init, arg_find_value, arg_find, Args}
use c_at.Disassembler.Print.{print_program_asm}
use c_at.Assembler.Program.{assemble_source}
use c_at.Assembler.Line.{Build}
use c_at.Mains.Vm.{loaded_program}

-- A process that ends by itself: its status, the file system after it, and the disassembled text.
pub record Ended : Type 0 where
  pub status : ℕ
  pub disk : Disk
  pub text : Bytes

-- What the assembler takes from its compiler, from the C library and from uninitialised memory.
pub record Toolchain : Type 0 where
  pub build : Build
  pub residue : ℕ → ℕ → ℕ
  pub padding : ℕ → ℕ → ℕ
  pub show_float : ℕ → Bytes

-- `args_out_path` after the two tests.
unfoldable pub out_path : Args → Bytes
unfolding arg_find arg_find_value
out_path a =
    let value = arg_find_value a (codes "-o") in
    if not (arg_find a (codes "-o") == 0)
    then (elim value [ none ↦ codes "./out.caic" | some path ↦ path ])
    else codes "./out.caic"

-- `main_assemble` once the input is open: the program is printed under `FULL_DEBUG_VIEW`, which is
-- defined, and written to the path. Nothing is done about a path that cannot be created.
unfoldable pub assemble_to : Toolchain → Bytes → Bytes → Disk → Result Ended
unfolding assemble_source write_to_file print_program_asm
assemble_to t source path disk = do
  program ← assemble_source t.build t.residue source
  ok (record {
    status = 0;
    disk = (write_to_file t.padding path program disk).1;
    text = print_program_asm t.show_float program;
  })

-- `main_assemble`, called with two arguments at least; the input is `argv[1]`.
unfoldable pub main_assemble : Toolchain → List Bytes → Disk → Result Ended
unfolding args_init out_path assemble_to
main_assemble t argv disk = elim (disk.contents (get_or argv 1 [])) [
  | none ↦ ok (record { status = 255; disk = disk; text = [] })
  | some source ↦ assemble_to t source (out_path (args_init argv)) disk
]

-- `main_disassemble`. `main` does not look at what it returns.
unfoldable pub main_disassemble : Toolchain → List Bytes → Disk → Ended
unfolding args_init arg_find_value load_from_file print_program_asm
main_disassemble t argv disk = elim (arg_find_value (args_init argv) (codes "-d")) [
  | none ↦ record { status = 0; disk = disk; text = [] }
  | some path ↦ record {
    status = 0;
    disk = disk;
    text =
        print_program_asm t.show_float (loaded_program (load_from_file disk path 0).instructions);
  }
]

-- `main`.
unfoldable pub caasm_main : Toolchain → List Bytes → Disk → Result Ended
unfolding arg_find args_init main_assemble main_disassemble
caasm_main t argv disk =
    if ltb (length argv) 2
    then ok (record { status = 255; disk = disk; text = [] })
    else if not (arg_find (args_init argv) (codes "-d") == 0)
    then ok (main_disassemble t argv disk)
    else main_assemble t argv disk
