-- ===== src/Tokenizer/Words.antt =====
-- What `token_next` reads where a word or a number stands.
use c_at.Base.{
  ◌==◌, le→leb, some, ◌-◌, inr, refl, ok, inl, ap, suc, arith, ◌+◌, ◌<◌, Bool-cases, ◌++◌, [],
  length, true, false, ◌∷◌, ◌≡◌, Bytes, Bool, ℕ,
}
use c_at.Tokenizer.Next.{
  literal_size, copy_literal, token_next, stale_tail, word_character, read_run, next_symbol,
}
use c_at.Tokenizer.Defs.{is_space, word_literall_number, word, is_character, is_number}
use mathlib.Core.List.{append-nil}

abbrev pub AllPass : (ℕ → Bool) → Bytes → Type 0
AllPass test [] = Unit
AllPass test (c ∷ w) = (test c ≡ true) × AllPass test w

pub read_run-append :
    (test : ℕ → Bool) (c : ℕ) (w rest : Bytes)
    → AllPass test w
    → test (next_symbol rest) ≡ false
    → read_run test c (w ++ rest) ≡ c ∷ w
unfolding read_run next_symbol
read_run-append test c [] [] h stop = refl
read_run-append test c [] (d ∷ rest) h stop = rw stop
read_run-append test c (d ∷ w) rest h stop =
    rw h.0 (ap (◌∷◌ c) (read_run-append test d w rest h.1 stop))

read_run-AllPass :
    (test : ℕ → Bool) (c : ℕ) (rest : Bytes) → test c ≡ true → AllPass test (read_run test c rest)
unfolding read_run
read_run-AllPass test c [] h = (h, tt)
read_run-AllPass test c (d ∷ rest) h = elim (Bool-cases (test d)) [
  | inl e ↦ rw e (h, read_run-AllPass test d rest e)
  | inr e ↦ rw e (h, tt)
]

-- A NUL in the residue just behind a word that leaves room for it ends the literal there.
pub copy_literal_clean :
    (residue : ℕ → ℕ) (w : Bytes)
    → length w < literal_size
    → residue (length w) ≡ 0
    → copy_literal residue w ≡ ok w
unfolding copy_literal
copy_literal_clean residue w h z =
    let room : literal_size - length w ≡ suc (literal_size - length w - 1) = omega arith in
    rw (le→leb (length w) literal_size (omega arith), room, stale_tail, z, append-nil)

copy_literal_dirty :
    (residue : ℕ → ℕ) (w : Bytes)
    → length w + 1 < literal_size
    → 0 < residue (length w)
    → residue (length w + 1) ≡ 0
    → copy_literal residue w ≡ ok (w ++ residue (length w) ∷ [])
unfolding copy_literal
copy_literal_dirty residue w h dirty z =
    let room : literal_size - length w ≡ suc (suc (literal_size - length w - 2)) = omega arith in
    let kept : (residue (length w) == 0) ≡ false = ground arith in
    rw (le→leb (length w) literal_size (omega arith), room)
      (rw (kept, stale_tail) (rw (z, stale_tail)))

-- A letter is neither a blank nor a digit, and a digit is no blank.
not_blank : (c : ℕ) → is_character c ≡ true → is_space c ≡ false
unfolding is_character is_space
not_blank c h = ground arith

not_digit : (c : ℕ) → is_character c ≡ true → is_number c ≡ false
unfolding is_character is_number
not_digit c h = ground arith

digit_not_blank : (c : ℕ) → is_number c ≡ true → is_space c ≡ false
unfolding is_number is_space
digit_not_blank c h = ground arith

-- A letter followed by letters and digits, and then by another character or the end, is one word
-- token with exactly these characters, if it leaves room in the local array and the array holds a
-- NUL behind them.
pub token_next_word :
    (residue : ℕ → ℕ) (c : ℕ) (w rest : Bytes)
    → is_character c ≡ true
    → AllPass word_character w
    → word_character (next_symbol rest) ≡ false
    → suc (length w) < literal_size
    → residue (suc (length w)) ≡ 0
    → token_next residue (c ∷ (w ++ rest))
      ≡ ok (record { literall = some (c ∷ w); kind = word }, suc (length w))
unfolding token_next
token_next_word residue c w rest hc hw stop room z = rw (
  not_blank c hc,
  not_digit c hc,
  hc,
  read_run-append word_character c w rest hw stop,
  copy_literal_clean residue (c ∷ w) room z,
)

-- Digits likewise make one number token.
pub token_next_number :
    (residue : ℕ → ℕ) (c : ℕ) (w rest : Bytes)
    → is_number c ≡ true
    → AllPass is_number w
    → is_number (next_symbol rest) ≡ false
    → suc (length w) < literal_size
    → residue (suc (length w)) ≡ 0
    → token_next residue (c ∷ (w ++ rest))
      ≡ ok (record { literall = some (c ∷ w); kind = word_literall_number }, suc (length w))
unfolding token_next
token_next_number residue c w rest hc hw stop room z = rw (
  digit_not_blank c hc,
  hc,
  read_run-append is_number c w rest hw stop,
  copy_literal_clean residue (c ∷ w) room z,
)

-- Where the local array holds some other character and then a NUL behind the place of a word, the
-- literal of the word token ends in that character.
pub token_next_unterminated :
    (residue : ℕ → ℕ) (c : ℕ) (w rest : Bytes)
    → is_character c ≡ true
    → AllPass word_character w
    → word_character (next_symbol rest) ≡ false
    → suc (length w) + 1 < literal_size
    → 0 < residue (suc (length w))
    → residue (suc (length w) + 1) ≡ 0
    → token_next residue (c ∷ (w ++ rest))
      ≡ ok (
        record { literall = some (c ∷ (w ++ residue (suc (length w)) ∷ [])); kind = word },
        suc (length w),
      )
unfolding token_next
token_next_unterminated residue c w rest hc hw stop room dirty z = rw (
  not_blank c hc,
  not_digit c hc,
  hc,
  read_run-append word_character c w rest hw stop,
  copy_literal_dirty residue (c ∷ w) room dirty z,
)
