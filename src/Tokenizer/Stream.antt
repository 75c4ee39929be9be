-- ===== src/Tokenizer/Stream.antt =====
-- The stream of tokens of a text: words with a blank behind each, and a newline at the end.
use c_at.Base.{
  le→leb, ◌≤◌, ◌-◌, false, ◌<◌, suc, some, true, [], ◌∙◌, ap, fault, ◌+◌, ◌≡◌, ◌++◌, ◌∷◌, ok,
  length, ◌>>=◌, Bytes, List, ℕ, Result, refl, arith,
}
use c_at.Tokenizer.Next.{
  tokenize, word_character, next_symbol, tokens_block_size, literal_size, token_next, symbol_width,
  is_blank, symbol_type, tokens_from,
}
use c_at.Tokenizer.Defs.{
  word, is_space, symbol_expression_end, Token, is_character, bare, is_number,
}
use c_at.Tokenizer.Words.{AllPass, token_next_word}

pub tokens_from_skip :
    (residue : ℕ → ℕ → ℕ) (pos : ℕ) (w rest : Bytes)
    → tokens_from residue (length w) pos (w ++ rest) ≡ tokens_from residue 0 (pos + length w) rest
unfolding tokens_from
tokens_from_skip residue pos [] rest = ap (λ (p : ℕ). tokens_from residue 0 p rest) (omega arith)
tokens_from_skip residue pos (c ∷ w) rest =
    tokens_from_skip residue (pos + 1) w rest
    ∙ ap (λ (p : ℕ). tokens_from residue 0 p rest) (omega arith)

pub keep_tokens : (r : Result (List Token)) → (r >>= λ ts. ok ts) ≡ r
keep_tokens (ok ts) = refl
keep_tokens (fault e) = refl

pub blank_step :
    (residue : ℕ → ℕ → ℕ) (pos : ℕ) (rest : Bytes)
    → tokens_from residue 0 pos (b' ' ∷ rest) ≡ tokens_from residue 0 (pos + 1) rest
unfolding tokens_from token_next is_space is_blank
blank_step residue pos rest = keep_tokens (tokens_from residue 0 (pos + 1) rest)

pub end_step :
    (residue : ℕ → ℕ → ℕ) (pos : ℕ) (rest : Bytes)
    → tokens_from residue 0 pos (b'\n' ∷ rest)
      ≡ (tokens_from residue 0 (pos + 1) rest >>= λ ts. ok (bare symbol_expression_end ∷ ts))
unfolding tokens_from token_next is_space is_number is_character symbol_type symbol_width is_blank
end_step residue pos rest = refl

-- A word of the source: a letter, then letters and digits, with room for its NUL.
abbrev pub IsWord : Bytes → Type 0
IsWord [] = ⊥
IsWord (c ∷ w) =
    (is_character c ≡ true) × AllPass word_character w × (suc (length w) < literal_size)

-- The arrays hold a NUL everywhere before they are written.
abbrev pub IsZeroed : (ℕ → ℕ → ℕ) → Type 0
IsZeroed residue = (pos k : ℕ) → residue pos k ≡ 0

pub word_step :
    (residue : ℕ → ℕ → ℕ) (pos c : ℕ) (w rest : Bytes)
    → IsZeroed residue
    → IsWord (c ∷ w)
    → word_character (next_symbol rest) ≡ false
    → tokens_from residue 0 pos (c ∷ (w ++ rest)) ≡ (
        tokens_from residue 0 (pos + 1 + length w) rest >>= λ ts.
        ok (record { literall = some (c ∷ w); kind = word } ∷ ts))
unfolding tokens_from is_blank
word_step residue pos c w rest zeroed h stop =
    let length_of : suc (length w) - 1 ≡ length w = omega arith in
    rw (
      token_next_word (residue pos) c w rest h.0 h.1 stop h.2 (zeroed pos (suc (length w))),
      length_of,
      tokens_from_skip residue (pos + 1) w rest,
    )

-- The words with a blank behind each, and a newline.
abbrev pub words_text : List Bytes → Bytes
words_text [] = b'\n' ∷ []
words_text (w ∷ ws) = w ++ (b' ' ∷ words_text ws)

abbrev pub words_tokens : List Bytes → List Token
words_tokens [] = bare symbol_expression_end ∷ []
words_tokens (w ∷ ws) = record { literall = some w; kind = word } ∷ words_tokens ws

abbrev pub AreWords : List Bytes → Type 0
AreWords [] = Unit
AreWords (w ∷ ws) = IsWord w × AreWords ws

-- The tokens of the words' text from any position on, and then those of the rest.
tokens_from-words_text :
    (residue : ℕ → ℕ → ℕ) (pos : ℕ) (ws : List Bytes)
    → IsZeroed residue
    → AreWords ws
    → tokens_from residue 0 pos (words_text ws) ≡ ok (words_tokens ws)
unfolding tokens_from
tokens_from-words_text residue pos [] zeroed h = end_step residue pos []
tokens_from-words_text residue pos ([] ∷ ws) zeroed h = absurd h.0
tokens_from-words_text residue pos ((c ∷ w) ∷ ws) zeroed h =
    word_step residue pos c w (b' ' ∷ words_text ws) zeroed h.0 refl
    ∙ rw (
      blank_step residue (pos + 1 + length w) (words_text ws),
      tokens_from-words_text residue (pos + 1 + length w + 1) ws zeroed h.1,
    )

length-words_tokens : (ws : List Bytes) → length (words_tokens ws) ≡ suc (length ws)
length-words_tokens [] = refl
length-words_tokens (w ∷ ws) = ap suc (length-words_tokens ws)

-- A line of words with a blank behind each, fewer than 1024 of them, is read as one token for
-- each word, with its text, and the token of the end of the line, where the uninitialised arrays
-- hold zeros.
pub tokenize-words_text :
    (residue : ℕ → ℕ → ℕ) (ws : List Bytes)
    → IsZeroed residue
    → AreWords ws
    → length ws < tokens_block_size
    → tokenize residue (words_text ws) ≡ ok (words_tokens ws)
unfolding tokenize
tokenize-words_text residue ws zeroed h room =
    let fits : length (words_tokens ws) ≤ tokens_block_size =
      omega (arith, length-words_tokens ws) in
    rw (tokens_from-words_text residue 0 ws zeroed h, le→leb _ _ fits)
