-- ===== src/Str/Text.antt =====
-- The text that a string holds, and what the accesses give for it.
use mathlib.Core.List.{append_assoc}
use c_at.Base.{
  take-append, ap, ◌∙◌, length-append, take, [], ◌==◌, ◌≤◌, ◌∷◌, length, ok, ◌++◌, get_elem?, some,
  ℕ, ◌≡◌, Bytes, refl, arith,
}
use c_at.Str.Defs.{copy_out, block, str_is_empty, String, char_at}

-- The block begins with the text, and `len` is its length.
pub record IsText (s : String) (t : Bytes) : Type 0 where
  pub tail : Bytes
  pub ptr_is : s.ptr ≡ some (t ++ tail)
  pub len_is : s.len ≡ length t

pub get_elem?-append_at :
    (a : Bytes) (c : ℕ) (b : Bytes) → get_elem? (a ++ c ∷ b) (length a) ≡ some c
get_elem?-append_at [] c b = refl
get_elem?-append_at (x ∷ a) c b = get_elem?-append_at a c b

char_at-ptr :
    (s : String) (bytes : Bytes) (i : ℕ) {c : ℕ}
    → s.ptr ≡ some bytes
    → get_elem? bytes i ≡ some c
    → char_at s i ≡ ok c
unfolding char_at
char_at-ptr s bytes i p e = ground (arith, p, e)

-- The character behind the first part of a text.
pub char_at-IsText :
    (s : String) (a : Bytes) (c : ℕ) (b : Bytes) (i : ℕ)
    → IsText s (a ++ c ∷ b)
    → i ≡ length a
    → char_at s i ≡ ok c
char_at-IsText s a c b i h at =
    char_at-ptr s ((a ++ c ∷ b) ++ h.tail) i h.ptr_is
      (rw (at, append_assoc) (get_elem?-append_at a c (b ++ h.tail)))

pub copy_out-ptr :
    (s : String) (bytes : Bytes) (n : ℕ)
    → s.ptr ≡ some bytes
    → n ≤ length bytes
    → copy_out s n ≡ ok (take n bytes)
unfolding copy_out
copy_out-ptr s bytes n p h = ground (arith, p, h)

pub copy_out-IsText : (s : String) (t : Bytes) → IsText s t → copy_out s s.len ≡ ok t
copy_out-IsText s t h =
    let room : length t ≤ length (t ++ h.tail) = omega (arith, length-append t h.tail) in
    ap (copy_out s) h.len_is
    ∙ copy_out-ptr s (t ++ h.tail) (length t) h.ptr_is room
    ∙ ap ok (take-append t h.tail)

pub block-IsText : (s : String) (t : Bytes) (h : IsText s t) → block s ≡ ok (t ++ h.tail)
block-IsText s t h = rw h.ptr_is refl

-- A string with a text that is not empty is not empty.
pub str_is_empty-IsText : (s : String) (t : Bytes) → IsText s t → str_is_empty s ≡ (length t == 0)
unfolding str_is_empty
str_is_empty-IsText s t h = ground (arith, h.ptr_is, h.len_is)
