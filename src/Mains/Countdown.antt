-- ===== src/Mains/Countdown.antt =====
-- A program with a loop, from its text to the exit status.
use c_at.Base.{
  length-append, ok, ◌>>=◌, some, Bytes, drop, ◌≤◌, length, zero, ap, ◌∙◌, ◌*◌, false, arith, ◌==◌,
  ◌^◌, ◌-◌, ◌%◌, ◌+◌, none, ◌<◌, suc, update, true, codes, refl, [], ◌≡◌, ◌∷◌, str_eq, List, ℕ,
}
use c_at.Assembler.Emit.{get_instuction_count, assemble, is_float_instr}
use c_at.Inst.Macros.{make_inc, make_set, make_dec, make_nejmp, make_ret}
use c_at.Assembler.Language.Defs.{
  AreStatements, code_statement, label_ref, compile, number, Statement, register, label_statement,
}
use c_at.Inst.Defs.{ret, nejmp, dec, inc, set, Instruction}
use c_at.Assembler.Line.{Build}
use c_at.Machine.Defs.{Globals, empty_frame, uint_mod, init_machine, Machine, Host}
use c_at.Exec.Integer.{exec_dec, exec_inc}
use c_at.Exec.Control.{exec_ret, ret_root, exec_nejmp}
use c_at.Exec.Memory.{exec_set}
use c_at.Exec.Step.{execute_op, execute_program, execute_inst}
use c_at.Mains.Vm.{vm_main, exited, exit_of}
use c_at.Assembler.Line.Constants.{number_text}
use c_at.Assembler.Language.Operands.{AreClear}
use c_at.Mains.Language.{vm_main-source_text}
use c_at.Mains.Pipeline.{IsPath, assemble_args}
use c_at.Files.Defs.{Disk}
use c_at.Assembler.Keywords.Mnemonics.{mnemonic}
use c_at.Tokenizer.Pieces.{Piece, pieces_text, line_end_piece}
use c_at.Tokenizer.Stream.{IsZeroed}
use c_at.Assembler.Program.{max_size}
use c_at.Assembler.Language.Text.{source_pieces, source_text}
use c_at.Tokenizer.Next.{word_character}
use c_at.Tokenizer.Defs.{is_number, is_character}
use c_at.Mains.Caasm.{caasm_main, Toolchain}

-- `set r1 n`, `set r2 0`, and then `inc r2`, `dec r1` until `r1` is 0; `r2` is returned.
abbrev pub countdown : ℕ → List Statement
countdown n =
    code_statement set (register 1 ∷ number n ∷ [])
    ∷ code_statement set (register 2 ∷ number 0 ∷ [])
    ∷ label_statement b'l' (codes "p")
    ∷ code_statement inc (register 2 ∷ [])
    ∷ code_statement dec (register 1 ∷ [])
    ∷ code_statement nejmp (label_ref b'l' (codes "p") ∷ register 0 ∷ register 1 ∷ [])
    ∷ code_statement ret (register 2 ∷ [])
    ∷ []

-- Its instructions.
abbrev pub countdown_code : ℕ → List Instruction
countdown_code n =
    make_set 1 n
    ∷ make_set 2 0
    ∷ make_inc (2 ∷ [])
    ∷ make_dec (1 ∷ [])
    ∷ make_nejmp 2 0 1
    ∷ make_ret (2 ∷ [])
    ∷ []

pub compile-countdown : (b : Build) (n : ℕ) → compile b (countdown n) ≡ countdown_code n
unfolding assemble is_float_instr str_eq
compile-countdown b n = refl

module _ (host : Host) (g : Globals) (n : ℕ) where
  -- The machine at the instruction `at`, with these registers.
  abbrev at_inst : ℕ → (ℕ → ℕ) → Machine
  at_inst at d = record {
    pc = at;
    program_size = 6;
    program = countdown_code n;
    iregisters = d;
    fregisters = g.f_registers;
    accum_register = 0;
    frames = 0;
    stack_top = 0;
    frame_memory = λ _. empty_frame;
    stack_memory = g.stack;
    is_running = true;
    core_logger = none;
    events = [];
  }

  -- The registers after one turn of the loop.
  abbrev turned : (ℕ → ℕ) → ℕ → ℕ
  turned d = update (update d 2 ((d 2 + 1) % uint_mod)) 1 ((d 1 + uint_mod - 1) % uint_mod)

  first_rounds :
      (f : ℕ)
      → n < 10000
      → execute_program host (suc (suc f)) (init_machine g (countdown_code n) 6)
        ≡ execute_program host f (at_inst 2 (update (update g.d_registers 1 n) 2 0))
  unfolding execute_program execute_op execute_inst exec_set init_machine make_set make_inc make_dec
      make_nejmp make_ret
  first_rounds f small = let value : n % 2 ^ 32 % uint_mod ≡ n = omega arith in rw value refl

  turn_again :
      (f : ℕ) (d : ℕ → ℕ)
      → d 0 ≡ 0
      → 1 < d 1
      → d 1 < uint_mod
      → execute_program host (suc (suc (suc f))) (at_inst 2 d)
        ≡ execute_program host f (at_inst 2 (turned d))
  unfolding execute_program execute_op execute_inst exec_inc exec_dec exec_nejmp make_set make_inc
      make_dec make_nejmp make_ret
  turn_again f d zero_is more fits =
      let other : (((d 1 + uint_mod - 1) % uint_mod) == d 0) ≡ false =
        ground (arith, zero_is, more, fits) in
      rw other refl

  last_turn :
      (f : ℕ) (d : ℕ → ℕ)
      → d 0 ≡ 0
      → d 1 ≡ 1
      → execute_program host (suc (suc (suc f))) (at_inst 2 d)
        ≡ execute_program host f (at_inst 5 (turned d))
  unfolding execute_program execute_op execute_inst exec_inc exec_dec exec_nejmp make_set make_inc
      make_dec make_nejmp make_ret
  last_turn f d zero_is one =
      let same : (((d 1 + uint_mod - 1) % uint_mod) == d 0) ≡ true = ground (arith, zero_is, one) in
      rw same refl

  returned : (d : ℕ → ℕ) → exit_of (execute_program host 1 (at_inst 5 d)) ≡ exited (d 2 % 256)
  unfolding execute_program execute_op execute_inst exec_ret ret_root make_set make_inc make_dec
      make_nejmp make_ret exit_of
  returned d = refl

  -- `k + 1` turns from `d 1 ≡ k + 1`.
  turns :
      (k : ℕ) (d : ℕ → ℕ)
      → d 0 ≡ 0
      → d 1 ≡ suc k
      → d 2 + suc k ≡ n
      → n < 10000
      → exit_of (execute_program host (suc (k * 3 + 3)) (at_inst 2 d)) ≡ exited (n % 256)
  turns zero d zero_is one sum small =
      ap exit_of (last_turn 1 d zero_is one) ∙ returned (turned d) ∙ ap exited (omega arith)
  turns (suc k) d zero_is more sum small =
      let fuel : suc (suc k * 3 + 3) ≡ suc (suc (suc (suc (k * 3 + 3)))) = omega arith in
      ap (λ (f : ℕ). exit_of (execute_program host f (at_inst 2 d))) fuel
      ∙ ap exit_of (turn_again (suc (k * 3 + 3)) d zero_is (omega arith) (omega arith))
      ∙ turns k (turned d) zero_is (omega arith) (omega arith) small

pub countdown-AreStatements : (n : ℕ) → n < 10000 → AreStatements (countdown n) false (countdown n)
unfolding get_instuction_count str_eq is_character word_character is_number
countdown-AreStatements n small = (
  λ e. cc,
  refl,
  tt,
  (omega arith, (small, tt)),
  (
    λ e. cc,
    refl,
    tt,
    (omega arith, (omega arith, tt)),
    (
      (refl, (refl, tt), omega arith),
      (
        λ e. cc,
        refl,
        tt,
        (omega arith, tt),
        (
          λ e. cc,
          refl,
          tt,
          (omega arith, tt),
          (
            λ e. cc,
            refl,
            tt,
            (
              ((refl, (refl, tt), omega arith), omega arith, (2, refl)),
              (omega arith, (omega arith, tt)),
            ),
            (λ e. cc, refl, tt, (omega arith, tt), tt),
          ),
        ),
      ),
    ),
  ),
)

length-number_text : (n : ℕ) → length (number_text n) ≤ 4
length-number_text n = ground arith

-- The text behind the number.
abbrev countdown_rest : List Piece
countdown_rest = line_end_piece ∷ source_pieces (drop 1 (countdown 0))

pub countdown_short : (n : ℕ) → length (source_text (countdown n)) < max_size
unfolding mnemonic
countdown_short n =
    omega (arith, length-append (number_text n) (pieces_text countdown_rest), length-number_text n)

module _ (t : Toolchain) (source out : Bytes) (disk : Disk) (host : Host) (g : Globals)
    (n : ℕ) where
  -- For `n` from 1 to 9999, where a file holds the text of the program that counts `r2` up and
  -- `r1` down from `n` until `r1` is 0, with a label for its loop, `caasm source -o out` followed
  -- by `set out` exits with `n` modulo 256, within n * 3 + 3 rounds, if the two paths are no
  -- flags, `out` can be created, and the uninitialised arrays of the tokenizer and members
  -- `is_value`, and register 0, are 0.
  pub vm_main-countdown :
      IsPath source
      → IsPath out
      → disk.contents source ≡ some (source_text (countdown n))
      → disk.can_create out ≡ true
      → IsZeroed t.residue
      → ((lc : ℕ) → AreClear (t.build.junk lc))
      → g.d_registers 0 ≡ 0
      → 0 < n
      → n < 10000
      → (caasm_main t (assemble_args source out) disk >>= λ e.
          ok (vm_main host (n * 3 + 3) g e.disk (codes "set" ∷ out ∷ [])))
        ≡ ok (exited (n % 256))
  vm_main-countdown source_path path stands can zeroed clear zero_is some_turn small =
      let whole =
        vm_main-source_text t source out (countdown n) (make_set 1 n) (drop 1 (countdown_code n))
          disk host (n * 3 + 3) g source_path path stands can zeroed clear
          (countdown-AreStatements n small) (countdown_short n) (omega arith) (omega arith)
          (omega arith) (compile-countdown t.build n) in
      let fuel : n * 3 + 3 ≡ suc (suc (suc ((n - 1) * 3 + 3))) = omega arith in
      whole
      ∙ ap ok (
          ap (λ (f : ℕ). exit_of (execute_program host f (init_machine g (countdown_code n) 6)))
            fuel
          ∙ ap exit_of (first_rounds host g n (suc ((n - 1) * 3 + 3)) small)
          ∙ turns host g n (n - 1) (update (update g.d_registers 1 n) 2 0) zero_is (omega arith)
              (omega arith) small)
