-- ===== src/Tokenizer/Progress.antt =====
-- `token_next` moves on, and stays inside the buffer.
use c_at.Base.{
  fault, inr, some, inl, [], ok, Bool-cases, ◌∷◌, ◌>>=◌, arith, Result, suc, Holds, ◌≤◌, length,
  Bytes, ◌<◌, Bool, ℕ,
}
use c_at.Tokenizer.Next.{
  literal_token, symbol_type, symbol_width, copy_literal, token_next, word_character, next_symbol,
  read_run,
}
use c_at.Tokenizer.Defs.{
  is_space, word_literall_number, word, is_character, Token, is_number, TokenType,
}

length-read_run :
    (test : ℕ → Bool) (c : ℕ) (rest : Bytes)
    → (0 < length (read_run test c rest)) × (length (read_run test c rest) ≤ suc (length rest))
unfolding read_run
length-read_run test c [] = omega arith
length-read_run test c (d ∷ rest) = elim (Bool-cases (test d)) [
  | inl e ↦ rw e (omega (arith, length-read_run test d rest))
  | inr e ↦ rw e (omega arith)
]

-- How far a token moves the position: within `n` characters, and at least one.
abbrev pub Advances : ℕ → Token × ℕ → Type 0
Advances n (t, k) = (0 < k) × (k ≤ n)

literal_token-Advances :
    (residue : ℕ → ℕ) (t : TokenType) (w : Bytes) (n : ℕ)
    → 0 < length w
    → length w ≤ n
    → Holds (Advances n) (literal_token residue t w)
unfolding literal_token
literal_token-Advances residue t w n h k = by_copy (copy_literal residue w)
  where
    by_copy :
        (r : Result Bytes)
        → Holds (Advances n) (r >>= λ l. ok (record { literall = some l; kind = t }, length w))
    by_copy (ok l) = (h, k)
    by_copy (fault e) = tt

symbol-Advances :
    (c : ℕ) (rest : Bytes)
    → (0 < symbol_width (symbol_type c (next_symbol rest)))
      × (symbol_width (symbol_type c (next_symbol rest)) ≤ suc (length rest))
unfolding symbol_width symbol_type next_symbol
symbol-Advances c [] = ground arith
symbol-Advances c (d ∷ rest) = ground arith

-- A token of a buffer that is not used up takes at least one character, and stays inside the
-- buffer.
pub token_next-Advances :
    (residue : ℕ → ℕ) (c : ℕ) (rest : Bytes)
    → Holds (Advances (suc (length rest))) (token_next residue (c ∷ rest))
unfolding token_next
token_next-Advances residue c rest = elim (Bool-cases (is_space c)) [
  | inl e ↦ rw e (omega arith)
  | inr e ↦ rw e (elim (Bool-cases (is_number c)) [
    | inl f ↦ rw f (
        literal_token-Advances residue word_literall_number (read_run is_number c rest) _
          (length-read_run is_number c rest).0 (length-read_run is_number c rest).1)
    | inr f ↦ rw f (elim (Bool-cases (is_character c)) [
      | inl g ↦ rw g (
          literal_token-Advances residue word (read_run word_character c rest) _
            (length-read_run word_character c rest).0 (length-read_run word_character c rest).1)
      | inr g ↦ rw g (symbol-Advances c rest)
    ])
  ])
]
