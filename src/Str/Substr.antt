-- ===== src/Str/Substr.antt =====
-- `str_substr` against the texts.
use mathlib.Core.List.{append_assoc}
use c_at.Str.Find.{drop-append}
use c_at.Base.{
  take-append, sym, leb, take, true, arith, ltb, ◌∙◌, drop, length-append, ok, Yields, ◌≤◌, refl,
  length, ◌+◌, [], false, ◌<◌, ap, ◌==◌, ◌++◌, ℕ, ◌≡◌, ◌∷◌, Bytes,
}
use c_at.Str.Append.{str_create-IsText}
use c_at.Str.Defs.{str_substr, str_create, until_nul, copy_out, String}
use c_at.Str.Text.{copy_out-ptr, IsText}

-- No character is NUL.
abbrev pub HasNoNul : Bytes → Type 0
HasNoNul [] = Unit
HasNoNul (c ∷ t) = ((c == 0) ≡ false) × HasNoNul t

until_nul-HasNoNul : (t : Bytes) → HasNoNul t → until_nul t ≡ t
unfolding until_nul
until_nul-HasNoNul [] h = refl
until_nul-HasNoNul (c ∷ t) h = rw (h.0) (ap (◌∷◌ c) (until_nul-HasNoNul t h.1))

str_substr-run :
    (s : String) (index len : ℕ) (bytes m : Bytes)
    → index < s.len
    → len < s.len
    → index + len ≤ s.len
    → 0 < len
    → copy_out s (index + len) ≡ ok bytes
    → until_nul (drop index bytes) ≡ m
    → str_substr s index len ≡ str_create m
unfolding str_substr
str_substr-run s index len bytes m within short fits some_char copied cut =
    let g1 : ltb index s.len ≡ true = ground arith in
    let g2 : ltb len s.len ≡ true = ground arith in
    let g3 : leb (index + len) s.len ≡ true = ground arith in
    let g4 : (len == 0) ≡ false = ground arith in rw (g1, g2, g3, g4, copied, cut) refl

-- `str_substr` at the index and with the length of a part of the string that has a character,
-- holds no NUL, is shorter than the string and does not begin at its end, is no fault and gives
-- this part.
pub str_substr-IsText :
    (s : String) (a m b : Bytes)
    → IsText s ((a ++ m) ++ b)
    → HasNoNul m
    → 0 < length m
    → 0 < length (a ++ b)
    → 0 < length (m ++ b)
    → Yields (λ d. IsText d m) (str_substr s (length a) (length m))
str_substr-IsText s a m b h no_nul some_char shorter within =
    let whole : length ((a ++ m) ++ b) ≡ length a + length m + length b =
      length-append (a ++ m) b ∙ ap (λ (n : ℕ). n + length b) (length-append a m) in
    let copied : copy_out s (length a + length m) ≡ ok (a ++ m) =
      copy_out-ptr s (((a ++ m) ++ b) ++ h.tail) (length a + length m) h.ptr_is
        (omega (arith, whole, length-append ((a ++ m) ++ b) h.tail))
      ∙ ap ok (
          ap (λ (n : ℕ). take n (((a ++ m) ++ b) ++ h.tail)) (sym (length-append a m))
          ∙ ap (take (length (a ++ m))) (append_assoc (a ++ m) b h.tail)
          ∙ take-append (a ++ m) (b ++ h.tail)) in
    let cut : until_nul (drop (length a) (a ++ m)) ≡ m =
      ap until_nul (drop-append a m) ∙ until_nul-HasNoNul m no_nul in
    rw
      (str_substr-run s (length a) (length m) (a ++ m) m
        (omega (arith, h.len_is, whole, length-append m b))
        (omega (arith, h.len_is, whole, length-append a b)) (omega (arith, h.len_is, whole))
        some_char copied cut)
      (str_create-IsText m)
