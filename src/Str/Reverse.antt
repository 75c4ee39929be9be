-- ===== src/Str/Reverse.antt =====
-- `str_reverse` and `str_append_char` against the texts.
use mathlib.Core.List.{
  append_assoc, append-nil, reverse, reverse_aux, reverse-cons, reverse-reverse,
}
use c_at.Str.Defs.{copy_out, str_is_empty, String, str_reverse, reverse_from, write_at}
use c_at.Base.{
  false, sym, some, Yields, ◌-◌, length-append, ap, ◌∙◌, refl, drop, zero, suc, ok, ◌≤◌, [], ◌∷◌,
  arith, ◌+◌, get_or, ◌++◌, ◌≡◌, length, ℕ, Bytes,
}
use c_at.Str.Text.{copy_out-IsText, IsText, str_is_empty-IsText}
use mathlib.Core.Path.{subst}

-- Writing behind the first part of a block.
pub write_at-append :
    (a : Bytes) (x : ℕ) (b : Bytes) (i c : ℕ)
    → i ≡ length a
    → write_at (a ++ x ∷ b) i c ≡ ok (a ++ c ∷ b)
unfolding write_at
write_at-append [] x b zero c at = refl
write_at-append [] x b (suc i) c at = absurd (omega arith)
write_at-append (y ∷ a) x b zero c at = absurd (omega arith)
write_at-append (y ∷ a) x b (suc i) c at = rw (write_at-append a x b i c (omega arith)) refl

pub snoc-append : (a : Bytes) (c : ℕ) (b : Bytes) → (a ++ c ∷ []) ++ b ≡ a ++ c ∷ b
snoc-append a c b = append_assoc a (c ∷ []) b

get_or-append : (a : Bytes) (c : ℕ) (b : Bytes) (i : ℕ) → i ≡ length a → get_or (a ++ c ∷ b) i 0 ≡ c
get_or-append [] c b zero at = refl
get_or-append [] c b (suc i) at = absurd (omega arith)
get_or-append (y ∷ a) c b zero at = absurd (omega arith)
get_or-append (y ∷ a) c b (suc i) at = get_or-append a c b i (omega arith)

length-reverse_aux : (t r : Bytes) → length (reverse_aux t r) ≡ length t + length r
length-reverse_aux [] r = omega arith
length-reverse_aux (c ∷ t) r = omega (arith, length-reverse_aux t (c ∷ r))

pub length-reverse : (t : Bytes) → length (reverse t) ≡ length t
length-reverse t = omega (arith, length-reverse_aux t [])

-- The rounds for the characters `g`, which are the last ones in reverse.
reverse_from-append :
    (g back t d rest : Bytes) (i : ℕ)
    → t ≡ reverse g ++ back
    → i ≡ length back
    → i ≡ length d
    → length g ≤ length rest
    → reverse_from t (length t) i (length g) (d ++ rest) ≡ ok (d ++ (g ++ drop (length g) rest))
unfolding reverse_from
reverse_from-append [] back t d rest i e at_back at_d room = refl
reverse_from-append (c ∷ g) back t d [] i e at_back at_d room = absurd (omega arith)
reverse_from-append (c ∷ g) back t d (x ∷ rest) i e at_back at_d room =
    let e' : t ≡ reverse g ++ c ∷ back = e ∙ (rw (reverse-cons c g, append_assoc) refl) in
    let long : length t ≡ length g + suc (length back) =
      ap length e'
      ∙ length-append (reverse g) (c ∷ back)
      ∙ ap (λ (n : ℕ). n + suc (length back)) (length-reverse g) in
    let read : get_or t (length t - 1 - i) 0 ≡ c =
      ap (λ (u : Bytes). get_or u (length t - 1 - i) 0) e'
      ∙ get_or-append (reverse g) c back (length t - 1 - i) (omega (arith, length-reverse g)) in
    let next : reverse_from t (length t) (i + 1) (length g) ((d ++ c ∷ []) ++ rest)
        ≡ ok ((d ++ c ∷ []) ++ (g ++ drop (length g) rest)) =
      reverse_from-append g (c ∷ back) t (d ++ c ∷ []) rest (i + 1) e' (omega arith)
        (omega (arith, length-append d (c ∷ []))) (omega arith) in
    rw (read, write_at-append d x rest i c at_d)
      (sym (ap (reverse_from t (length t) (i + 1) (length g)) (snoc-append d c rest))
        ∙ next
        ∙ ap ok (snoc-append d c (g ++ drop (length g) rest)))

str_reverse-run :
    (s : String) (copy bytes bytes' : Bytes)
    → str_is_empty s ≡ false
    → copy_out s s.len ≡ ok copy
    → s.ptr ≡ some bytes
    → reverse_from copy s.len 0 s.len bytes ≡ ok bytes'
    → str_reverse s ≡ ok (record s { ptr = some bytes' })
unfolding str_reverse
str_reverse-run s copy bytes bytes' full copied at loop = rw (full, copied, at, loop) refl

-- The loop over a block that begins with the text.
reverse_from-reverse :
    (t tail : Bytes)
    → reverse_from t (length t) 0 (length t) (t ++ tail)
      ≡ ok (reverse t ++ drop (length t) (t ++ tail))
reverse_from-reverse t tail =
    let long : length (reverse t) ≡ length t = length-reverse t in
    let twice : t ≡ reverse (reverse t) ++ [] =
      sym (append-nil (reverse (reverse t)) ∙ reverse-reverse t) in
    let loop : reverse_from t (length t) 0 (length (reverse t)) (t ++ tail)
        ≡ ok (reverse t ++ drop (length (reverse t)) (t ++ tail)) =
      reverse_from-append (reverse t) [] t [] (t ++ tail) 0 twice refl refl
        (omega (arith, length-append t tail)) in
    subst
      (λ (n : ℕ). reverse_from t (length t) 0 n (t ++ tail) ≡ ok (reverse t ++ drop n (t ++ tail)))
      long loop

-- `str_reverse` of a string is no fault, and the new text is the old one reversed.
pub str_reverse-IsText :
    (s : String) (t : Bytes) → IsText s t → Yields (λ s'. IsText s' (reverse t)) (str_reverse s)
unfolding str_reverse
str_reverse-IsText s [] h =
    let nothing : str_reverse s ≡ ok s = ground (arith, str_is_empty-IsText s [] h) in rw nothing h
str_reverse-IsText s (c ∷ t) h =
    let loop : reverse_from (c ∷ t) s.len 0 s.len ((c ∷ t) ++ h.tail)
        ≡ ok (reverse (c ∷ t) ++ drop (length (c ∷ t)) ((c ∷ t) ++ h.tail)) =
      subst
        (λ (n : ℕ).
          reverse_from (c ∷ t) n 0 n ((c ∷ t) ++ h.tail)
          ≡ ok (reverse (c ∷ t) ++ drop (length (c ∷ t)) ((c ∷ t) ++ h.tail)))
        (sym h.len_is) (reverse_from-reverse (c ∷ t) h.tail) in
    rw
      (str_reverse-run s (c ∷ t) ((c ∷ t) ++ h.tail)
        (reverse (c ∷ t) ++ drop (length (c ∷ t)) ((c ∷ t) ++ h.tail))
        (str_is_empty-IsText s (c ∷ t) h ∙ (ground arith)) (copy_out-IsText s (c ∷ t) h) h.ptr_is
        loop)
      (record {
        tail = drop (length (c ∷ t)) ((c ∷ t) ++ h.tail);
        ptr_is = refl;
        len_is = h.len_is ∙ sym (length-reverse (c ∷ t));
      })
