-- ===== src/Files/Defs.antt =====
-- `write_to_file` and `load_from_file`. A file is its bytes; the structure `Instruction` has 16 of
-- them on x86-64: the operation, three arguments, one byte of padding, and the union, of which only
-- the low word is ever read. What padding and the upper half hold is the parameter `padding`, by the
-- number of the instruction and of the byte.
use c_at.Base.{
  ◌==◌, length, false, some, ◌^◌, true, [], ◌/◌, str_eq, none, ◌*◌, ◌∷◌, ◌%◌, if◌then◌else◌, Bool,
  Option, ◌+◌, List, Bytes, ℕ,
}
use c_at.Inst.Defs.{Instruction}

-- The file system: what stands under a path, and which paths `fopen` can create.
pub record Disk : Type 0 where
  pub contents : Bytes → Option Bytes
  pub can_create : Bytes → Bool

unfoldable pub store : Disk → Bytes → Bytes → Disk
store disk fpath bytes = record disk {
  contents = λ path. if str_eq path fpath then some bytes else disk.contents path;
}

abbrev pub word_bytes : ℕ → Bytes → Bytes
word_bytes v rest = v % 256 ∷ v / 2 ^ 8 % 256 ∷ v / 2 ^ 16 % 256 ∷ v / 2 ^ 24 % 256 ∷ rest

-- The 16 bytes of one instruction, before `rest`.
unfoldable pub inst_bytes : (ℕ → ℕ) → Instruction → Bytes → Bytes
inst_bytes padding i rest = word_bytes i.operation (
    i.reg0
    ∷ i.reg1
    ∷ i.reg2
    ∷ padding 0
    ∷ word_bytes i.storage (padding 1 ∷ padding 2 ∷ padding 3 ∷ padding 4 ∷ rest))

-- `fwrite(program, sizeof(Instruction), psize, fptr)`, from the `k`-th instruction on.
unfoldable pub program_bytes : (ℕ → ℕ → ℕ) → ℕ → List Instruction → Bytes
unfolding inst_bytes
program_bytes padding k [] = []
program_bytes padding k (i ∷ is) = inst_bytes (padding k) i (program_bytes padding (k + 1) is)

-- `write_to_file`: whether it returns 1, and the file system after it.
unfoldable pub write_to_file : (ℕ → ℕ → ℕ) → Bytes → List Instruction → Disk → Bool × Disk
unfolding program_bytes store
write_to_file padding fpath program disk =
    if disk.can_create fpath
    then (true, store disk fpath (program_bytes padding 0 program))
    else (false, disk)

abbrev pub word_of : ℕ → ℕ → ℕ → ℕ → ℕ
word_of a b c d = a + b * 2 ^ 8 + c * 2 ^ 16 + d * 2 ^ 24

-- The bytes read as an array of instructions; fewer than 16 at the end make none.
unfoldable pub instructions_of : Bytes → List Instruction
instructions_of
      (o0 ∷ o1 ∷ o2 ∷ o3 ∷ r0 ∷ r1 ∷ r2 ∷ p ∷ s0 ∷ s1 ∷ s2 ∷ s3 ∷ p0 ∷ p1 ∷ p2 ∷ p3 ∷ rest) =
    record {
      operation = word_of o0 o1 o2 o3;
      reg0 = r0;
      reg1 = r1;
      reg2 = r2;
      storage = word_of s0 s1 s2 s3;
    }
    ∷ instructions_of rest
instructions_of _ = []

-- The pointer that `load_from_file` returns, and `*program_size`.
pub record Loaded : Type 0 where
  pub instructions : Option (List Instruction)
  pub program_size : ℕ

-- `size` is what `*program_size` holds before. Of an empty file `fread` reads no item.
unfoldable pub load_from_file : Disk → Bytes → ℕ → Loaded
unfolding instructions_of
load_from_file disk fpath size = elim (disk.contents fpath) [
  | none ↦ record { instructions = none; program_size = size }
  | some bytes ↦
      if length bytes == 0
      then record { instructions = none; program_size = size }
      else record { instructions = some (instructions_of bytes); program_size = length bytes / 16 }
]
