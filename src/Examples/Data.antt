-- ===== src/Examples/Data.antt =====
-- The machines, instructions and lines of the examples.
use c_at.Base.{
  length, false, some, ◌&&◌, true, [], ◌==◌, codes, none, ◌∷◌, ◌%◌, if◌then◌else◌, List, ℕ, arith,
}
use c_at.Assembler.Lines.Defs.{label_line, Line, code_line, blank_line, comment_line, word_token}
use c_at.Machine.Defs.{empty_frame, Machine, Globals, Host}
use c_at.Assembler.Line.{Build}
use c_at.Assembler.Line.Registers.{register_token}
use c_at.Inst.Defs.{Instruction}
use c_at.Exec.ValidOps.{FitsWords}
use c_at.Machine.State.{IsValid}
use c_at.Assembler.Operands.{Reg}

-- Floats of a host that knows one sum, 10.5 + 10.5, and one cast, of 21.0.
abbrev pub test_host : Host
test_host = record {
  float_add = λ a b. if a == 0x41280000 && b == 0x41280000 then 0x41A80000 else 0;
  float_sub = λ _ _. 0;
  float_mul = λ _ _. 0;
  float_div = λ _ _. 0;
  float_eq = λ a b. a == b;
  float_ge = λ _ _. false;
  float_le = λ _ _. false;
  float_gt = λ _ _. false;
  float_lt = λ _ _. false;
  float_of_uint = λ _. 0;
  int_of_float = λ a. if a == 0x41A80000 then 21 else 0;
  uint_of_float = λ _. 0;
  write = λ _ bytes. length bytes;
}

pub test_host-FitsWords : FitsWords test_host
test_host-FitsWords = record {
  add_fits = λ a b. ground arith;
  sub_fits = λ a b. omega arith;
  mul_fits = λ a b. omega arith;
  div_fits = λ a b. omega arith;
  of_uint_fits = λ a. omega arith;
  to_int_fits = λ a. ground arith;
  to_uint_fits = λ a. omega arith;
}

abbrev pub test_globals : Globals
test_globals = record { d_registers = λ r. r % 7; f_registers = λ _. 0; stack = λ a. a % 5 }

-- `op r0 r1 r2`, and an instruction with a constant.
abbrev pub regs_inst : ℕ → ℕ → ℕ → ℕ → Instruction
regs_inst op a b c = record { operation = op; reg0 = a; reg1 = b; reg2 = c; storage = 0 }

abbrev pub const_inst : ℕ → ℕ → Instruction
const_inst op n = record { operation = op; reg0 = 0; reg1 = 0; reg2 = 0; storage = n }

-- `add r1 r2 r3`, `inc r1`, `sub r1 r2 r2`.
abbrev pub straight_program : List Instruction
straight_program = regs_inst 15 1 2 3 ∷ regs_inst 13 1 0 0 ∷ regs_inst 16 1 2 2 ∷ []

-- One frame is open, `pc` is past the first instruction, and the registers hold 0 to 99.
abbrev pub test_machine : Machine
test_machine = record {
  pc = 1;
  program_size = 3;
  program = straight_program;
  iregisters = λ r. r % 100;
  fregisters = λ _. 0;
  accum_register = 0;
  frames = 1;
  stack_top = 8;
  frame_memory = λ _. empty_frame;
  stack_memory = λ a. a % 5;
  is_running = true;
  core_logger = some [];
  events = [];
}

pub test_machine-IsValid : IsValid test_machine
test_machine-IsValid = record {
  pc_fits = omega arith;
  size_fits = omega arith;
  program_there = omega arith;
  d_fits = λ r. omega arith;
  f_fits = λ r. omega arith;
  accum_fits = omega arith;
  frames_fit = omega arith;
  top_fits = omega arith;
  rip_fits = λ k. omega arith;
  bytes_fit = λ a. omega arith;
}

-- The same machine with every frame in use.
abbrev pub full_machine : Machine
full_machine = record test_machine { frames = 128 }

abbrev pub test_reg : Reg
test_reg = record {
  is_reg_n = 3;
  reg_n = 5;
  is_value = 0;
  is_float = 1;
  is_label = 0;
  error_id = 9;
  value_literall = 4;
  value_label = none;
}

abbrev pub test_build : Build
test_build = record { float_of_uint = λ n. n; atof = λ _. 0; junk = λ _ _. test_reg }

-- A comment, a label, an instruction, an empty line, a second label and two instructions.
abbrev pub test_lines : List Line
test_lines =
    comment_line (word_token (codes "counts") ∷ [])
    ∷ label_line (codes "main")
    ∷ code_line (codes "inc") (register_token 3 ∷ [])
    ∷ blank_line
    ∷ label_line (codes "last")
    ∷ code_line (codes "push") (register_token 3 ∷ [])
    ∷ code_line (codes "halt") []
    ∷ []
