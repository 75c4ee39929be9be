-- ===== src/Files/RoundTrip.antt =====
-- A program that is written and loaded again.
use c_at.Base.{
  ◌∙◌, str_eq_iff, true, some, Bytes, ◌/◌, ◌*◌, ◌+◌, ◌%◌, [], length, ◌≡◌, ◌∷◌, ◌^◌, ℕ, List, ◌<◌,
  refl, arith,
}
use c_at.Inst.Defs.{Instruction}
use c_at.Files.Defs.{
  load_from_file, write_to_file, store, Disk, instructions_of, word_of, program_bytes,
}
use mathlib.Core.Path.{ap₂}

-- The members have the sizes of their C types.
pub record Fits (i : Instruction) : Type 0 where
  pub operation_fits : i.operation < 2 ^ 32
  pub reg0_fits : i.reg0 < 256
  pub reg1_fits : i.reg1 < 256
  pub reg2_fits : i.reg2 < 256
  pub storage_fits : i.storage < 2 ^ 32

abbrev pub AllFit : List Instruction → Type 0
AllFit [] = Unit
AllFit (i ∷ is) = Fits i × AllFit is

word_of-word_bytes :
    (v : ℕ)
    → v < 2 ^ 32
    → word_of (v % 256) (v / 2 ^ 8 % 256) (v / 2 ^ 16 % 256) (v / 2 ^ 24 % 256) ≡ v
word_of-word_bytes v h = omega arith

instructions_of-program_bytes :
    (padding : ℕ → ℕ → ℕ) (k : ℕ) (is : List Instruction)
    → AllFit is
    → instructions_of (program_bytes padding k is) ≡ is
unfolding instructions_of program_bytes
instructions_of-program_bytes padding k [] h = refl
instructions_of-program_bytes padding k (i ∷ is) h = rw (
  word_of-word_bytes i.operation h.0.operation_fits,
  word_of-word_bytes i.storage h.0.storage_fits,
  instructions_of-program_bytes padding (k + 1) is h.1,
)

length-program_bytes :
    (padding : ℕ → ℕ → ℕ) (k : ℕ) (is : List Instruction)
    → length (program_bytes padding k is) ≡ length is * 16
unfolding program_bytes
length-program_bytes padding k [] = omega arith
length-program_bytes padding k (i ∷ is) = omega (arith, length-program_bytes padding (k + 1) is)

-- As many instructions as `load_from_file` counts.
pub length-instructions_of : (bytes : Bytes) → length (instructions_of bytes) ≡ length bytes / 16
unfolding instructions_of
length-instructions_of
      (o0 ∷ o1 ∷ o2 ∷ o3 ∷ r0 ∷ r1 ∷ r2 ∷ p ∷ s0 ∷ s1 ∷ s2 ∷ s3 ∷ p0 ∷ p1 ∷ p2 ∷ p3 ∷ rest) =
    omega (arith, length-instructions_of rest)
length-instructions_of _ = omega arith

-- What stands in a file after it was written.
pub contents-store :
    (disk : Disk) (fpath bytes : Bytes) → (store disk fpath bytes).contents fpath ≡ some bytes
unfolding store
contents-store disk fpath bytes = rw ((str_eq_iff fpath fpath).1 refl)

load_from_file-contents :
    (disk : Disk) (fpath : Bytes) (size : ℕ) (bytes : Bytes)
    → disk.contents fpath ≡ some bytes
    → 0 < length bytes
    → load_from_file disk fpath size
      ≡ record { instructions = some (instructions_of bytes); program_size = length bytes / 16 }
unfolding load_from_file
load_from_file-contents disk fpath size bytes stands some_byte = ground (arith, stands, some_byte)

-- A program with an instruction, whose members have the sizes of their C types, written to a path
-- that can be created, is loaded from it as it is, with its length for the size, whatever the
-- padding of the records holds, and `write_to_file` returns 1.
pub load_from_file-write_to_file :
    (padding : ℕ → ℕ → ℕ) (fpath : Bytes) (i : Instruction) (is : List Instruction) (disk : Disk)
    (size : ℕ)
    → disk.can_create fpath ≡ true
    → AllFit (i ∷ is)
    → ((write_to_file padding fpath (i ∷ is) disk).0 ≡ true)
      × (load_from_file (write_to_file padding fpath (i ∷ is) disk).1 fpath size
          ≡ record { instructions = some (i ∷ is); program_size = length (i ∷ is) })
unfolding write_to_file
load_from_file-write_to_file padding fpath i is disk size can fit =
    let bytes : Bytes = program_bytes padding 0 (i ∷ is) in
    let count : length bytes ≡ length (i ∷ is) * 16 = length-program_bytes padding 0 (i ∷ is) in
    let whole : length bytes / 16 ≡ length (i ∷ is) = omega arith in
    (
      rw can refl,
      rw can (
          load_from_file-contents (store disk fpath bytes) fpath size bytes
            (contents-store disk fpath bytes) (omega arith)
          ∙ ap₂
              (λ (is : List Instruction) (n : ℕ). record {
                instructions = some is;
                program_size = n;
              })
              (instructions_of-program_bytes padding 0 (i ∷ is) fit) whole),
    )
