-- ===== src/Mains/Refused.antt =====
-- `caasm` on a file that is too long.
use c_at.Base.{refl, inr, inl, Result-cases, Bytes, Fault, fault, length, some, ◌<◌, ◌∙◌, ◌≡◌}
use c_at.Assembler.Program.{assemble_source, max_size}
use c_at.Assembler.Refused.{IsFault, assemble_source-IsFault, is_read}
use c_at.Files.Defs.{Disk}
use c_at.Mains.Caasm.{Toolchain, assemble_to, caasm_main}
use c_at.Mains.Pipeline.{IsPath, assemble_args, caasm_main-assemble_args}
use c_at.Tokenizer.Words.{AllPass}

assemble_to-fault :
    (t : Toolchain) (file out : Bytes) (disk : Disk)
    → IsFault (assemble_source t.build t.residue file)
    → (e : Fault) × (assemble_to t file out disk ≡ fault e)
unfolding assemble_to
assemble_to-fault t file out disk h = elim (Result-cases (assemble_source t.build t.residue file)) [
  | inl (is, r) ↦ absurd (rw r at h)
  | inr (e, r) ↦ (e, rw r refl)
]

-- `caasm source -o out`, where the paths are no flags and the file has more than 2048 characters,
-- none of which is 255, stops with a fault, whatever the characters are, NULs too.
pub caasm_main_too_long :
    (t : Toolchain) (source out file : Bytes) (disk : Disk)
    → IsPath source
    → IsPath out
    → disk.contents source ≡ some file
    → AllPass is_read file
    → max_size < length file
    → (e : Fault) × (caasm_main t (assemble_args source out) disk ≡ fault e)
caasm_main_too_long t source out file disk source_path path stands read long =
    let (e, stops) =
      assemble_to-fault t file out disk
        (assemble_source-IsFault t.build t.residue file read long) in
    (e, caasm_main-assemble_args t source out file disk source_path path stands ∙ stops)
