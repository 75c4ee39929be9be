-- ===== src/Examples/Programs.antt =====
-- Examples of the command line, program files and the two programs.
use mathlib.Core.List.{Memᴰ}
use c_at.Mains.Caasm.{Toolchain, caasm_main}
use c_at.Mains.Vm.{exited, vm_main, exit_of}
use c_at.Examples.Data.{regs_inst, test_host, test_globals, test_build}
use c_at.Inst.Macros.{make_set, make_add}
use c_at.Files.RoundTrip.{load_from_file-write_to_file, Fits}
use c_at.Disassembler.Injective.{print_inst_injective, has_three}
use c_at.Disassembler.Print.{print_inst, print_program_asm}
use c_at.Cli.Laws.{arg_find_value-flag}
use c_at.Mains.Pipeline.{assemble_args, caasm_main-disassemble, vm_main-caasm_main, IsPath}
use c_at.Cli.Defs.{args_init, arg_find_value, arg_find}
use c_at.Files.Defs.{write_to_file, load_from_file, Disk}
use c_at.Disassembler.Operands.{SameArgs}
use c_at.Exec.Step.{execute_program}
use c_at.Machine.Defs.{init_machine}
use c_at.Assembler.Source.{AllPass-append, assemble_source-add_words}
use c_at.Assembler.Program.{assemble_source}
use c_at.Inst.Defs.{add, Instruction}
use c_at.Inst.Defs.{operation_of}
use c_at.Base.{
  zero, drop, fault, ◌<◌, ◌++◌, suc, Fault, ℕ, ◌≤◌, length, str_eq_iff, arith, refl, ◌≢◌, none,
  true, ok, false, some, [], ◌>>=◌, ◌≡◌, ◌∷◌, if◌then◌else◌, codes, ◌+◌, str_eq, Bytes,
}
use c_at.Testing.Main.{tester_main, tester_main-reported, reported, Place}
use c_at.Str.Defs.{until_nul}
use c_at.Assembler.Language.Text.{source_text}
use c_at.Mains.Countdown.{
  countdown_short, countdown_code, countdown-AreStatements, compile-countdown, countdown,
  vm_main-countdown,
}
use c_at.Assembler.Refused.{is_read}
use c_at.Tokenizer.Words.{AllPass}
use c_at.Mains.Refused.{caasm_main_too_long}
use c_at.Mains.Language.{vm_main-source_text}

abbrev test_toolchain : Toolchain
test_toolchain = record {
  build = test_build;
  residue = λ _ _. 0;
  padding = λ k j. k + j;
  show_float = λ _. codes "0.000000";
}

abbrev add_text : Bytes
add_text = codes "add r1 r12 r3 \n"

abbrev source_path : Bytes
source_path = codes "a.asm"

abbrev program_path : Bytes
program_path = codes "a.caic"

-- The one file is the source.
abbrev test_disk : Disk
test_disk = record {
  contents = λ path. if str_eq path (codes "a.asm") then some (codes "add r1 r12 r3 \n") else none;
  can_create = λ _. true;
}

abbrev test_add : Instruction
test_add = make_add (1 ∷ 12 ∷ 3 ∷ [])

-- Texts that `strcmp` tells apart.
apart : (a b : Bytes) → str_eq a b ≡ false → a ≢ b
apart a b ne e = let same = (str_eq_iff a b).1 e in cc

source_path-IsPath : IsPath source_path
unfolding str_eq
source_path-IsPath =
    (apart (codes "a.asm") (codes "-o") refl, apart (codes "a.asm") (codes "-d") refl)

program_path-IsPath : IsPath program_path
unfolding str_eq
program_path-IsPath =
    (apart (codes "a.caic") (codes "-o") refl, apart (codes "a.caic") (codes "-d") refl)

source_stands : test_disk.contents source_path ≡ some add_text
unfolding str_eq
source_stands = refl

test_add_made : assemble_source test_build (λ _ _. 0) add_text ≡ ok (test_add ∷ [])
test_add_made =
    assemble_source-add_words test_build (λ _ _. 0) 1 12 3 (λ _ _. refl) (omega arith) (omega arith)
      (omega arith)

vm_main-caasm_main_example :
    (caasm_main test_toolchain (assemble_args source_path program_path) test_disk >>= λ e.
    ok (vm_main test_host 5 test_globals e.disk (codes "set" ∷ program_path ∷ [])))
    ≡ ok (exit_of (execute_program test_host 5 (init_machine test_globals (test_add ∷ []) 1)))
vm_main-caasm_main_example =
    vm_main-caasm_main test_toolchain source_path program_path add_text test_add [] test_disk
      source_path-IsPath program_path-IsPath source_stands refl test_add_made test_host 5
      test_globals

caasm_main-disassemble_example :
    (caasm_main test_toolchain (assemble_args source_path program_path) test_disk >>= λ e.
    caasm_main test_toolchain (codes "caasm" ∷ codes "-d" ∷ program_path ∷ []) e.disk >>= λ d.
    ok d.text)
    ≡ ok (codes "\n\tadd @r1, @r12, @r3")
unfolding print_program_asm operation_of make_add
caasm_main-disassemble_example =
    caasm_main-disassemble test_toolchain source_path program_path add_text test_add [] test_disk
      source_path-IsPath program_path-IsPath source_stands refl test_add_made

load_from_file-write_to_file_example :
    ((write_to_file
        (λ k j. k + j)
        program_path
        (regs_inst 15 1 2 3 ∷ regs_inst 0 0 0 0 ∷ [])
        test_disk).0
      ≡ true)
    × (load_from_file
          (write_to_file
            (λ k j. k + j)
            program_path
            (regs_inst 15 1 2 3 ∷ regs_inst 0 0 0 0 ∷ [])
            test_disk).1
          program_path
          9
        ≡ record {
          instructions = some (regs_inst 15 1 2 3 ∷ regs_inst 0 0 0 0 ∷ []);
          program_size = 2;
        })
load_from_file-write_to_file_example =
    load_from_file-write_to_file (λ k j. k + j) program_path (regs_inst 15 1 2 3)
      (regs_inst 0 0 0 0 ∷ []) test_disk 9 refl (regs_inst-Fits, (halt-Fits, tt))
  where
    regs_inst-Fits : Fits (regs_inst 15 1 2 3)
    regs_inst-Fits = record {
      operation_fits = omega arith;
      reg0_fits = omega arith;
      reg1_fits = omega arith;
      reg2_fits = omega arith;
      storage_fits = omega arith;
    }

    halt-Fits : Fits (regs_inst 0 0 0 0)
    halt-Fits = record {
      operation_fits = omega arith;
      reg0_fits = omega arith;
      reg1_fits = omega arith;
      reg2_fits = omega arith;
      storage_fits = omega arith;
    }

print_inst_injective_example : SameArgs (regs_inst 15 1 2 3) (regs_inst 19 1 2 3)
unfolding print_inst has_three
print_inst_injective_example =
    print_inst_injective (λ _. []) add (regs_inst 15 1 2 3) (regs_inst 19 1 2 3) refl
      (record { reg0_small = omega arith; reg1_small = omega arith; reg2_small = omega arith })
      (record { reg0_small = omega arith; reg1_small = omega arith; reg2_small = omega arith }) refl

arg_find_value-flag_example :
    (arg_find
        (args_init (codes "caasm" ∷ source_path ∷ codes "-o" ∷ program_path ∷ []))
        (codes "-o")
      ≡ 2)
    × (arg_find_value
          (args_init (codes "caasm" ∷ source_path ∷ codes "-o" ∷ program_path ∷ []))
          (codes "-o")
        ≡ some program_path)
arg_find_value-flag_example =
    arg_find_value-flag (codes "caasm") (codes "-o") program_path (source_path ∷ []) []
      (program_path-IsPath.0, tt)

abbrev test_place : Place
test_place = record {
  names = codes "." ∷ codes ".git" ∷ codes "log" ∷ [];
  config = some (codes "url = git@github.com:amuerta/c-at.git\n");
  log_opens = true;
}

tester_main-reported_example : tester_main test_host 100 test_globals test_place ≡ reported true 7
unfolding until_nul
tester_main-reported_example =
    tester_main-reported test_host test_globals test_place
      (codes "url = git@github.com:amuerta/c-at.git\n") 0x41A80000 (Memᴰ.tail (Memᴰ.head refl))
      (Memᴰ.tail (Memᴰ.tail (Memᴰ.head refl))) refl (omega arith)
      (codes "url = ", (codes "\n", refl)) refl (omega arith) refl refl

abbrev countdown_disk : Disk
countdown_disk = record {
  contents = λ path. if str_eq path source_path then some (source_text (countdown 3)) else none;
  can_create = λ _. true;
}

vm_main-countdown_example :
    (caasm_main test_toolchain (assemble_args source_path program_path) countdown_disk >>= λ e.
    ok (vm_main test_host 12 test_globals e.disk (codes "set" ∷ program_path ∷ [])))
    ≡ ok (exited 3)
unfolding str_eq
vm_main-countdown_example =
    vm_main-countdown test_toolchain source_path program_path countdown_disk test_host test_globals
      3 source_path-IsPath program_path-IsPath refl refl (λ _ _. refl) (λ _ _. refl) refl
      (omega arith) (omega arith)

-- The source text with NULs behind it.
abbrev nuls : ℕ → Bytes
nuls zero = []
nuls (suc n) = 0 ∷ nuls n

nuls-is_read : (n : ℕ) → AllPass is_read (nuls n)
nuls-is_read zero = tt
nuls-is_read (suc n) = (refl, nuls-is_read n)

length-nuls : (n : ℕ) → length (nuls n) ≡ n
length-nuls zero = refl
length-nuls (suc n) = let rest = length-nuls n in omega arith

abbrev padded_text : ℕ → Bytes
padded_text n = codes "add r1 r12 r3 \n" ++ nuls n

abbrev padded_disk : Disk
padded_disk = record test_disk {
  contents = λ path. if str_eq path (codes "a.asm") then some (padded_text 3000) else none;
}

padded_text-is_read : (n : ℕ) → AllPass is_read (padded_text n)
padded_text-is_read n =
    AllPass-append is_read (codes "add r1 r12 r3 \n") (nuls n)
      (
        refl,
        (
          refl,
          (
            refl,
            (
              refl,
              (
                refl,
                (refl, (refl, (refl, (refl, (refl, (refl, (refl, (refl, (refl, (refl, tt)))))))))),
              ),
            ),
          ),
        ),
      )
      (nuls-is_read n)

padded_text-long : (n : ℕ) → 3000 ≤ n → 2048 < length (padded_text n)
padded_text-long n h = omega (arith, length-nuls n)

caasm_main_too_long_example :
    (e : Fault) × (caasm_main test_toolchain (assemble_args source_path program_path) padded_disk
      ≡ fault e)
unfolding str_eq
caasm_main_too_long_example =
    caasm_main_too_long test_toolchain source_path program_path (padded_text 3000) padded_disk
      source_path-IsPath program_path-IsPath refl (padded_text-is_read 3000)
      (padded_text-long 3000 (omega arith))

vm_main-source_text_example :
    (caasm_main test_toolchain (assemble_args source_path program_path) countdown_disk >>= λ e.
    ok (vm_main test_host 3 test_globals e.disk (codes "set" ∷ program_path ∷ [])))
    ≡ ok (exit_of (execute_program test_host 3 (init_machine test_globals (countdown_code 3) 6)))
unfolding str_eq
vm_main-source_text_example =
    vm_main-source_text test_toolchain source_path program_path (countdown 3) (make_set 1 3)
      (drop 1 (countdown_code 3)) countdown_disk test_host 3 test_globals source_path-IsPath
      program_path-IsPath refl refl (λ _ _. refl) (λ _ _. refl)
      (countdown-AreStatements 3 (omega arith)) (countdown_short 3) (omega arith) (omega arith)
      (omega arith) (compile-countdown test_build 3)
