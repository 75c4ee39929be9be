-- ===== src/Machine/Defs.antt =====
-- `Machine`, `CallFrame` and the globals of src/vm/set.c. Registers, memory bytes and counters are
-- unsigned bit patterns; an array is a function of its index, and each access tests the bounds.
-- `cfg`, `wide_accum_register` and `heap_address_space` are left out: nothing reads them.
use c_at.Base.{ℕ, ◌^◌, Bool, true, List, [], Option, none, Bytes}
use c_at.Inst.Defs.{Instruction}

-- `INT_REG_COUNT` and `FLT_REG_COUNT`.
abbrev pub reg_count : ℕ
reg_count = 16

abbrev pub frame_count : ℕ
frame_count = 128

abbrev pub stack_size : ℕ
stack_size = 16384

abbrev pub uint_mod : ℕ
uint_mod = 2 ^ 32

abbrev pub size_mod : ℕ
size_mod = 2 ^ 64

pub record CallFrame : Type 0 where
  pub rip : ℕ
  pub bfp : ℕ
  pub lvp : ℕ

-- `(CallFrame) {0}`.
abbrev pub empty_frame : CallFrame
empty_frame = record { rip = 0; bfp = 0; lvp = 0 }

-- A line that `execute_op` prints to `core_logger`.
pub data LogLine : Type 0 where
  call_line : (frames ip : ℕ) → LogLine
  write_line : (stream buffer len : ℕ) → LogLine
  regdump_line : (index value : ℕ) → LogLine
  ret_line : (frames ip : ℕ) → LogLine
  rootret_line : (frames ip : ℕ) → LogLine

-- What the process does outside: a `write` to a descriptor, or the message about an unsupported
-- instruction on stderr.
pub data Event : Type 0 where
  wrote : ℕ → Bytes → Event
  unsupported : Event

-- `Machine`, and beside its fields the outside events so far. A null `core_logger` is `none`.
pub record Machine : Type 0 where
  pub pc : ℕ
  pub program_size : ℕ
  pub program : List Instruction
  pub iregisters : ℕ → ℕ
  pub fregisters : ℕ → ℕ
  pub accum_register : ℕ
  pub frames : ℕ
  pub stack_top : ℕ
  pub frame_memory : ℕ → CallFrame
  pub stack_memory : ℕ → ℕ
  pub is_running : Bool
  pub core_logger : Option (List LogLine)
  pub events : List Event

-- `D_REGISTERS`, `F_REGISTERS` and `STACK`, which the machines of one process share.
pub record Globals : Type 0 where
  pub d_registers : ℕ → ℕ
  pub f_registers : ℕ → ℕ
  pub stack : ℕ → ℕ

unfoldable pub init_machine : Globals → List Instruction → ℕ → Machine
init_machine g p pl = record {
  pc = 0;
  program_size = pl;
  program = p;
  iregisters = g.d_registers;
  fregisters = g.f_registers;
  accum_register = 0;
  frames = 0;
  stack_top = 0;
  frame_memory = λ _. empty_frame;
  stack_memory = g.stack;
  is_running = true;
  core_logger = none;
  events = [];
}

-- What the C implementation, the processor and the system supply: arithmetic on `float` values,
-- given by their bit patterns, and `write`, whose result is also a bit pattern.
pub record Host : Type 0 where
  pub float_add : ℕ → ℕ → ℕ
  pub float_sub : ℕ → ℕ → ℕ
  pub float_mul : ℕ → ℕ → ℕ
  pub float_div : ℕ → ℕ → ℕ
  pub float_eq : ℕ → ℕ → Bool
  pub float_ge : ℕ → ℕ → Bool
  pub float_le : ℕ → ℕ → Bool
  pub float_gt : ℕ → ℕ → Bool
  pub float_lt : ℕ → ℕ → Bool
  pub float_of_uint : ℕ → ℕ
  pub int_of_float : ℕ → ℕ
  pub uint_of_float : ℕ → ℕ
  pub write : ℕ → Bytes → ℕ
