-- ===== src/Assembler/Refused.antt =====
-- Files that are too long for the reading loop of `main_assemble`.
use c_at.Base.{
  ◌>>=◌, ok, Bool, Bytes, Result, arith, false, fault, inl, inr, leb, length, ltb, not, Bool-cases,
  ◌+◌, ◌<◌, ◌==◌, ◌≡◌, ◌≤◌, ◌∷◌, ℕ, [],
}
use c_at.Assembler.Line.{Build}
use c_at.Assembler.Program.{assemble_source, file_text, max_size, read_text}
use c_at.Tokenizer.Words.{AllPass}

-- Not the character that compares equal to `EOF`.
abbrev pub is_read : ℕ → Bool
is_read c = not (c == 255)

abbrev pub IsFault : {A : Type 0} → Result A → Type 0
IsFault (ok t) = ⊥
IsFault (fault e) = Unit

read_text-IsFault :
    (fsize : ℕ) (fb w : Bytes)
    → AllPass is_read w
    → fsize ≤ max_size
    → max_size < fsize + length w
    → IsFault (read_text fsize fb w)
unfolding read_text
read_text-IsFault fsize fb [] h below long = absurd (omega arith)
read_text-IsFault fsize fb (c ∷ w) h below long =
    let no_end : (c == 255) ≡ false = ground (arith, h.0) in
    elim (Bool-cases (leb (length fb + 2) max_size)) [
      | inr full ↦ rw (read_text, no_end, full) tt
      | inl room ↦ elim (Bool-cases (ltb fsize max_size)) [
        | inr late ↦ rw (read_text, no_end, room, late) tt
        | inl few ↦
            rw (read_text, no_end, room, few)
              (read_text-IsFault (fsize + 1) _ w h.1 (ground arith) (omega arith))
      ]
    ]

-- A file of more than 2048 characters is refused, even where the last of them are NULs.
pub assemble_source-IsFault :
    (b : Build) (residue : ℕ → ℕ → ℕ) (file : Bytes)
    → AllPass is_read file
    → max_size < length file
    → IsFault (assemble_source b residue file)
unfolding assemble_source file_text
assemble_source-IsFault b residue file h long =
    go (read_text 0 [] file) _ (read_text-IsFault 0 [] file h (omega arith) (omega arith))
  where
    go : {A : Type 0} (r : Result Bytes) (f : Bytes → Result A) → IsFault r → IsFault (r >>= f)
    go (ok t) f h = absurd h
    go (fault e) f h = tt
