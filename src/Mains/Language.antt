-- ===== src/Mains/Language.antt =====
-- A program of the source language, assembled to a file and run.
use c_at.Mains.Caasm.{caasm_main, Toolchain}
use c_at.Mains.Pipeline.{vm_main-caasm_main, assemble_args, IsPath}
use c_at.Assembler.Lines.Defs.{label_list, code_count}
use c_at.Inst.Defs.{Instruction}
use c_at.Assembler.Language.Operands.{AreClear}
use c_at.Assembler.Language.Defs.{statement_lines, Statement, compile, AreStatements}
use c_at.Assembler.Labels.{label_limit}
use c_at.Assembler.Program.{max_size, program_limit}
use c_at.Machine.Defs.{Globals, init_machine, Host}
use c_at.Exec.Step.{execute_program}
use c_at.Assembler.Language.Correct.{assemble_source-source_text}
use c_at.Tokenizer.Next.{tokens_block_size}
use c_at.Tokenizer.Pieces.{pieces_tokens}
use c_at.Mains.Vm.{vm_main, exit_of}
use c_at.Tokenizer.Stream.{IsZeroed}
use c_at.Assembler.Language.Text.{source_pieces, source_text}
use c_at.Files.Defs.{Disk}
use c_at.Base.{
  ap, ◌∙◌, [], codes, ok, ◌>>=◌, ◌∷◌, ◌≤◌, ◌<◌, length, false, true, some, ◌≡◌, ℕ, List, Bytes,
}

-- Where a file holds the text of a list of statements that stand for a program with an
-- instruction, `caasm source -o out` followed by `set out` gives the exit status of a run of the
-- instructions that the statements stand for, from the initial machine, if the two paths are no
-- flags, `out` can be created, and the uninitialised arrays of the tokenizer and members
-- `is_value` are 0. The statements have operands in range, labels that exist, and as many
-- operands as each instruction takes; none is `fadd`, and none without operands stands below a
-- label with no instruction in between. The text is shorter than 2048, with at most 1024 tokens,
-- 128 labels and 128 instructions.
pub vm_main-source_text :
    (t : Toolchain) (source out : Bytes) (ss : List Statement) (i : Instruction)
    (is : List Instruction) (disk : Disk) (host : Host) (fuel : ℕ) (g : Globals)
    → IsPath source
    → IsPath out
    → disk.contents source ≡ some (source_text ss)
    → disk.can_create out ≡ true
    → IsZeroed t.residue
    → ((lc : ℕ) → AreClear (t.build.junk lc))
    → AreStatements ss false ss
    → length (source_text ss) < max_size
    → length (pieces_tokens (source_pieces ss)) ≤ tokens_block_size
    → length (label_list 0 (statement_lines ss)) ≤ label_limit
    → code_count (statement_lines ss) ≤ program_limit
    → compile t.build ss ≡ i ∷ is
    → (caasm_main t (assemble_args source out) disk >>= λ e.
        ok (vm_main host fuel g e.disk (codes "set" ∷ out ∷ [])))
      ≡ ok (exit_of (execute_program host fuel (init_machine g (i ∷ is) (length (i ∷ is)))))
vm_main-source_text t source out ss i is disk host fuel g source_path path stands can zeroed clear h
      short room labels code made =
    vm_main-caasm_main t source out (source_text ss) i is disk source_path path stands can
      (assemble_source-source_text t.build t.residue ss zeroed clear h short room labels code
        ∙ ap ok made)
      host fuel g
