-- ===== src/Str/Append.antt =====
-- `str_create`, `str_dup`, `str_append_char` and `str_append_chars` against the texts.
use mathlib.Core.List.{append-nil}
use c_at.Str.Defs.{
  block, until_nul, str_append_chars, str_append_char, str_is_empty, String, str_dup, resized,
  write_at, write_from, str_create,
}
use c_at.Str.Reverse.{snoc-append, write_at-append}
use c_at.Str.Text.{str_is_empty-IsText, copy_out-IsText, IsText}
use c_at.Base.{
  length-drop, length-take, take-drop, ◌-◌, ◌>>=◌, true, ◌==◌, false, some, sym, ◌∙◌, take,
  length-append, refl, arith, drop, [], zero, out_of_bounds, ok, ◌∷◌, fault, ◌++◌, ap, ◌<◌, ◌≤◌,
  ◌+◌, suc, ◌≡◌, length, Yields, ℕ, Bytes,
}

take_all : (t : Bytes) → take (length t) t ≡ t
take_all [] = refl
take_all (c ∷ t) = ap (◌∷◌ c) (take_all t)

pub str_create_lem :
    (cstr : Bytes) → str_create cstr ≡ ok (record { ptr = some cstr; len = length cstr })
unfolding str_create
str_create_lem cstr =
    let whole : take (length cstr) cstr ≡ cstr = take_all cstr in ground (arith, whole)

pub str_create-IsText : (cstr : Bytes) → Yields (λ s. IsText s cstr) (str_create cstr)
str_create-IsText cstr =
    rw (str_create_lem cstr)
      (record { tail = []; ptr_is = ap some (sym (append-nil cstr)); len_is = refl })

pub str_dup-IsText :
    (s : String) (t : Bytes) → IsText s t → 0 < length t → Yields (λ d. IsText d t) (str_dup s)
unfolding str_dup
str_dup-IsText s t h some_char =
    let full : str_is_empty s ≡ false = str_is_empty-IsText s t h ∙ (ground arith) in
    rw (full, copy_out-IsText s t h)
      (record { tail = []; ptr_is = ap some (sym (append-nil t)); len_is = h.len_is })

length-resized : (junk : ℕ → ℕ) (k n : ℕ) (bytes : Bytes) → length (resized junk k n bytes) ≡ n
unfolding resized
length-resized junk k zero bytes = refl
length-resized junk k (suc n) [] = ap suc (length-resized junk (k + 1) n [])
length-resized junk k (suc n) (b ∷ bytes) = ap suc (length-resized junk (k + 1) n bytes)

-- The block keeps its first part.
resized-append :
    (junk : ℕ → ℕ) (k n : ℕ) (a b : Bytes)
    → resized junk k (length a + n) (a ++ b) ≡ a ++ resized junk (k + length a) n b
unfolding resized
resized-append junk k n [] b =
    ap (λ (m : ℕ). resized junk k m b) {x = 0 + n} {y = n} (omega arith)
    ∙ ap (λ (m : ℕ). resized junk m n b) {x = k} {y = k + 0} (omega arith)
resized-append junk k n (c ∷ a) b =
    let size : suc (length a) + n ≡ suc (length a + n) = omega arith in
    let place : k + suc (length a) ≡ k + 1 + length a = omega arith in
    rw (size, place) (ap (◌∷◌ c) (resized-append junk (k + 1) n a b))

-- Characters that have room are written behind the first part.
write_from-append :
    (chars a b : Bytes) (i : ℕ)
    → i ≡ length a
    → length chars ≤ length b
    → write_from (a ++ b) i chars ≡ ok ((a ++ chars) ++ drop (length chars) b)
unfolding write_from
write_from-append [] a b i at room = rw append-nil refl
write_from-append (c ∷ chars) a [] i at room = absurd (omega arith)
write_from-append (c ∷ chars) a (x ∷ b) i at room =
    let next =
      write_from-append chars (a ++ c ∷ []) b (i + 1) (omega (arith, length-append a (c ∷ [])))
        (omega arith) in
    rw (write_at-append a x b i c at) (
      sym (ap (λ (u : Bytes). write_from u (i + 1) chars) (snoc-append a c b))
      ∙ next
      ∙ ap (λ (u : Bytes). ok (u ++ drop (length chars) b)) (snoc-append a c chars))

write_at_outside : (a : Bytes) (i c : ℕ) → length a ≤ i → write_at a i c ≡ fault out_of_bounds
unfolding write_at
write_at_outside [] i c far = refl
write_at_outside (x ∷ a) zero c far = absurd (omega arith)
write_at_outside (x ∷ a) (suc i) c far = rw (write_at_outside a i c (omega arith)) refl

-- Characters that have no room.
write_from_outside :
    (chars a b : Bytes) (i : ℕ)
    → i ≡ length a
    → length b < length chars
    → write_from (a ++ b) i chars ≡ fault out_of_bounds
unfolding write_from
write_from_outside [] a b i at room = absurd (omega arith)
write_from_outside (c ∷ chars) a [] i at room =
    rw (append-nil a, write_at_outside a i c (omega arith)) refl
write_from_outside (c ∷ chars) a (x ∷ b) i at room =
    let next =
      write_from_outside chars (a ++ c ∷ []) b (i + 1) (omega (arith, length-append a (c ∷ [])))
        (omega arith) in
    rw (write_at-append a x b i c at)
      (sym (ap (λ (u : Bytes). write_from u (i + 1) chars) (snoc-append a c b)) ∙ next)

write_from_far :
    (chars block : Bytes) (i : ℕ)
    → i ≤ length block
    → length block < i + length chars
    → write_from block i chars ≡ fault out_of_bounds
write_from_far chars block i fits far =
    ap (λ (b : Bytes). write_from b i chars) (sym (take-drop i block))
    ∙ write_from_outside chars (take i block) (drop i block) i (sym (length-take i block fits))
        (omega (arith, length-drop i block))

str_append_char-run :
    (junk : ℕ → ℕ) (s : String) (ch : ℕ) (bytes bytes' : Bytes)
    → str_is_empty s ≡ false
    → s.ptr ≡ some bytes
    → write_at (resized junk 0 (s.len + 1) bytes) s.len ch ≡ ok bytes'
    → str_append_char junk s ch ≡ ok (record { ptr = some bytes'; len = s.len + 1 })
unfolding str_append_char
str_append_char-run junk s ch bytes bytes' full at written = rw (full, at, written) refl

resized-one : (junk : ℕ → ℕ) (k : ℕ) (b : Bytes) → (x : ℕ) × (resized junk k 1 b ≡ x ∷ [])
unfolding resized
resized-one junk k [] = (junk k, refl)
resized-one junk k (x ∷ b) = (x, refl)

-- A character other than NUL is appended.
pub str_append_char-IsText :
    (junk : ℕ → ℕ) (s : String) (t : Bytes) (ch : ℕ)
    → IsText s t
    → (ch == 0) ≡ false
    → Yields (λ s'. IsText s' (t ++ ch ∷ [])) (str_append_char junk s ch)
unfolding str_append_char
str_append_char-IsText junk s [] ch h char =
    let first : str_append_char junk s ch ≡ str_create (ch ∷ []) =
      let none_yet : str_is_empty s ≡ true = str_is_empty-IsText s [] h ∙ (ground arith) in
      let nul : until_nul (ch ∷ []) ≡ ch ∷ [] = ground (arith, char) in rw (none_yet, nul) refl in
    rw first (str_create-IsText (ch ∷ []))
str_append_char-IsText junk s (c ∷ t) ch h char =
    let full : str_is_empty s ≡ false = str_is_empty-IsText s (c ∷ t) h ∙ (ground arith) in
    let (x, one) = resized-one junk (0 + length (c ∷ t)) h.tail in
    let grown : resized junk 0 (length (c ∷ t) + 1) ((c ∷ t) ++ h.tail) ≡ (c ∷ t) ++ x ∷ [] =
      resized-append junk 0 1 (c ∷ t) h.tail ∙ ap (◌++◌ (c ∷ t)) one in
    let written : write_at (resized junk 0 (s.len + 1) ((c ∷ t) ++ h.tail)) s.len ch
        ≡ ok ((c ∷ t) ++ ch ∷ []) =
      rw (h.len_is, grown) (write_at-append (c ∷ t) x [] (length (c ∷ t)) ch refl) in
    rw
      (str_append_char-run junk s ch ((c ∷ t) ++ h.tail) ((c ∷ t) ++ ch ∷ []) full h.ptr_is written)
      (record {
        tail = [];
        ptr_is = ap some (sym (append-nil ((c ∷ t) ++ ch ∷ [])));
        len_is = omega (arith, h.len_is, length-append (c ∷ t) (ch ∷ []));
      })

str_append_chars-run :
    (junk : ℕ → ℕ) (s : String) (t : Bytes) (c : ℕ) (chars : Bytes) (h : IsText s t)
    → 0 < length t
    → str_append_chars junk s (c ∷ chars) ≡ (
        write_from
          (t ++ resized junk (0 + length t) (length (c ∷ chars)) h.tail)
          (length (c ∷ chars))
          (c ∷ chars)
        >>= λ new_ptr. ok (record { ptr = some new_ptr; len = length t + length (c ∷ chars) }))
unfolding str_append_chars
str_append_chars-run junk s t c chars h some_char =
    let full : str_is_empty s ≡ false = str_is_empty-IsText s t h ∙ (ground arith) in
    let diff : length t + length (c ∷ chars) - length t ≡ length (c ∷ chars) = omega arith in
    let some_chars : (length (c ∷ chars) == 0) ≡ false = ground arith in
    rw
      (
        some_chars,
        full,
        h.ptr_is,
        h.len_is,
        diff,
        resized-append junk 0 (length (c ∷ chars)) t h.tail,
      )
      refl

-- As many characters as the string has are appended.
pub str_append_chars-IsText :
    (junk : ℕ → ℕ) (s : String) (t chars : Bytes)
    → IsText s t
    → length chars ≡ length t
    → Yields (λ s'. IsText s' (t ++ chars)) (str_append_chars junk s chars)
unfolding str_append_chars
str_append_chars-IsText junk s t [] h same = rw (append-nil t) h
str_append_chars-IsText junk s t (c ∷ chars) h same =
    let written =
      write_from-append (c ∷ chars) t (resized junk (0 + length t) (length (c ∷ chars)) h.tail)
        (length (c ∷ chars)) same
        (omega (arith, length-resized junk (0 + length t) (length (c ∷ chars)) h.tail)) in
    rw (str_append_chars-run junk s t c chars h (omega arith), written)
      (record {
        tail = drop (length (c ∷ chars)) (resized junk (0 + length t) (length (c ∷ chars)) h.tail);
        ptr_is = refl;
        len_is = sym (length-append t (c ∷ chars));
      })

-- `str_append_chars` writes outside its block where the string is not empty and shorter than the
-- characters to append.
pub str_append_chars_outside :
    (junk : ℕ → ℕ) (s : String) (t chars : Bytes)
    → IsText s t
    → 0 < length t
    → length t < length chars
    → str_append_chars junk s chars ≡ fault out_of_bounds
str_append_chars_outside junk s t [] h some_char longer = absurd (omega arith)
str_append_chars_outside junk s t (c ∷ chars) h some_char longer =
    let new = resized junk (0 + length t) (length (c ∷ chars)) h.tail in
    let outside : write_from (t ++ new) (length (c ∷ chars)) (c ∷ chars) ≡ fault out_of_bounds =
      write_from_far (c ∷ chars) (t ++ new) (length (c ∷ chars))
        (omega (
          arith,
          length-append t new,
          length-resized junk (0 + length t) (length (c ∷ chars)) h.tail,
        ))
        (omega (
          arith,
          length-append t new,
          length-resized junk (0 + length t) (length (c ∷ chars)) h.tail,
        )) in
    rw (str_append_chars-run junk s t c chars h some_char, outside) refl
