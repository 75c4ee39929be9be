-- ===== src/Machine/Memory/Laws.antt =====
-- What is saved is loaded, and what does not overlap stays.
use c_at.Base.{out_of_bounds, ◌%◌, leb, Holds-guard, Holds, ℕ, ◌+◌, ◌<◌, ◌≤◌, ◌≡◌, ◌⊎◌, arith}
use c_at.Machine.Memory.{
  save_float, save_decimal, load_float, load_decimal, pop_decimal, push_decimal, put_word, get_word,
}
use c_at.Machine.Defs.{stack_size, size_mod, uint_mod}

pub get_word-put_word :
    (memory : ℕ → ℕ) (a v : ℕ) → v < uint_mod → get_word (put_word memory a v) a ≡ v
unfolding get_word put_word
get_word-put_word memory a v h = ground arith

-- A word that does not overlap the one written keeps its value.
pub get_word-put_word_ne :
    (memory : ℕ → ℕ) (a b v : ℕ)
    → (a + 4 ≤ b) ⊎ (b + 4 ≤ a)
    → get_word (put_word memory a v) b ≡ get_word memory b
unfolding get_word put_word
get_word-put_word_ne memory a b v h = ground arith

-- Bytes stay bytes, and a word read from bytes fits 32 bits.
pub put_word-lt :
    (memory : ℕ → ℕ) (a v : ℕ) → ((i : ℕ) → memory i < 256) → (i : ℕ) → put_word memory a v i < 256
unfolding put_word
put_word-lt memory a v h i = ground (arith, h i)

pub get_word-lt :
    (memory : ℕ → ℕ) (a : ℕ) → ((i : ℕ) → memory i < 256) → get_word memory a < uint_mod
unfolding get_word
get_word-lt memory a h = omega (arith, h a, h (a + 1), h (a + 2), h (a + 3))

abbrev pub AreBytes : (ℕ → ℕ) → Type 0
AreBytes memory = (i : ℕ) → memory i < 256

module _ (memory : ℕ → ℕ) where
  pub push_decimal-fits :
      (top v : ℕ)
      → AreBytes memory
      → Holds (λ p. AreBytes p.0 × (p.1 < size_mod)) (push_decimal memory top v)
  unfolding push_decimal
  push_decimal-fits top v h =
      Holds-guard _ (leb ((top + 4) % size_mod + 4) stack_size) out_of_bounds _
        (λ _. (put_word-lt memory _ v h, omega arith))

  pub pop_decimal-fits :
      (top : ℕ)
      → AreBytes memory
      → Holds (λ p. (p.0 < uint_mod) × (p.1 < size_mod)) (pop_decimal memory top)
  unfolding pop_decimal
  pop_decimal-fits top h =
      Holds-guard _ (leb (top + 4) stack_size) out_of_bounds _
        (λ _. (get_word-lt memory top h, omega arith))

  pub load_decimal-fits :
      (a : ℕ) → AreBytes memory → Holds (λ w. w < uint_mod) (load_decimal memory a)
  unfolding load_decimal
  load_decimal-fits a h =
      Holds-guard _ (leb (a + 4) stack_size) out_of_bounds _ (λ _. get_word-lt memory a h)

  pub load_float-fits : (a : ℕ) → AreBytes memory → Holds (λ w. w < uint_mod) (load_float memory a)
  unfolding load_float
  load_float-fits a h =
      Holds-guard _ (leb (a + 4) stack_size) out_of_bounds _ (λ _. get_word-lt memory a h)

  pub save_decimal-fits : (a v : ℕ) → AreBytes memory → Holds AreBytes (save_decimal memory a v)
  unfolding save_decimal
  save_decimal-fits a v h =
      Holds-guard AreBytes (leb (a + 4) stack_size) out_of_bounds _ (λ _. put_word-lt memory a v h)

  pub save_float-fits : (a v : ℕ) → AreBytes memory → Holds AreBytes (save_float memory a v)
  unfolding save_float
  save_float-fits a v h =
      Holds-guard AreBytes (leb (a + 4) stack_size) out_of_bounds _ (λ _. put_word-lt memory a v h)
