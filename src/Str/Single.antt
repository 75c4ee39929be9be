-- ===== src/Str/Single.antt =====
-- `str_has_pattern` for a pattern of one character.
use mathlib.Core.List.{append_assoc}
use c_at.Base.{
  ◌-◌, Yields-map, suc, ◌∙◌, inr, Option, length-append, ap, ◌+◌, inl, Yields, refl, ok, ◌↔◌, arith,
  Bool-cases, none, [], length, true, ◌==◌, ◌<◌, some, ◌∷◌, ◌++◌, ◌≡◌, false, if◌then◌else◌, Bytes,
  Bool, ℕ,
}
use c_at.Str.Defs.{char_at, String}
use c_at.Str.Search.{find_from, int_place, searchable, str_has_pattern, has_char, has_place}
use c_at.Str.Find.{str_has_pattern-find_from, find_from_lem, IsFirst-Occurs, Occurs, IsFirst}
use c_at.Str.Text.{char_at-IsText, IsText}

-- Whether `c` is one of the characters.
any_char : ℕ → Bytes → Bool
any_char c [] = false
any_char c (a ∷ t) = if a == c then true else any_char c t

any_char-Occurs : (c : ℕ) (t : Bytes) → any_char c t ≡ true → Occurs (c ∷ []) t
unfolding any_char
any_char-Occurs c [] h = let never : false ≡ true = h in absurd (cc)
any_char-Occurs c (a ∷ t) h = elim (Bool-cases (a == c)) [
  | inl e ↦ let same : a ≡ c = ground (arith, e) in ([], (t, ap (λ (x : ℕ). x ∷ t) same))
  | inr e ↦
      let later : any_char c t ≡ true = rw e at h in
      let (pre, (rest, at)) = any_char-Occurs c t later in (a ∷ pre, (rest, ap (◌∷◌ a) at))
]

any_char-append : (c : ℕ) (pre rest : Bytes) → any_char c (pre ++ (c ∷ rest)) ≡ true
unfolding any_char
any_char-append c [] rest = ground arith
any_char-append c (a ∷ pre) rest = ground (arith, any_char-append c pre rest)

any_char_iff : (c : ℕ) (t : Bytes) → (any_char c t ≡ true) ↔ Occurs (c ∷ []) t
any_char_iff c t =
    (any_char-Occurs c t, λ (pre, (rest, e)). ap (any_char c) e ∙ any_char-append c pre rest)

has_char-any_char :
    (src : String) (c : ℕ) (pre u : Bytes) (i : ℕ)
    → IsText src (pre ++ u)
    → i ≡ length pre
    → has_char src c i (length u) ≡ ok (any_char c u)
unfolding has_char any_char
has_char-any_char src c pre [] i h at = refl
has_char-any_char src c pre (a ∷ u) i h at =
    let next =
      has_char-any_char src c (pre ++ a ∷ []) u (i + 1) (rw append_assoc h)
        (rw length-append (omega arith)) in
    let round : has_char src c i (suc (length u))
        ≡ (elim (a == c) [ true ↦ ok true | false ↦ has_char src c (i + 1) (length u) ]) =
      rw (char_at-IsText src pre a u i h at) refl in
    rw round (elim (Bool-cases (a == c)) [ inl e ↦ rw e refl | inr e ↦ rw e next ])

-- The number is 1, wherever the character stands.
str_has_pattern_single :
    (src pat : String) (t : Bytes) (c : ℕ)
    → IsText src t
    → IsText pat (c ∷ [])
    → 1 < length t
    → str_has_pattern src pat ≡ ok (if any_char c t then some 1 else none)
unfolding str_has_pattern
str_has_pattern_single src pat t c hs hp longer =
    let tested : searchable src pat ≡ ok tt = ground (arith, hs.len_is, hp.len_is) in
    let one : (pat.len == 1) ≡ true = ground (arith, hp.len_is) in
    let first : char_at pat 0 ≡ ok c = char_at-IsText pat [] c [] 0 hp refl in
    let run : has_char src c 0 src.len ≡ ok (any_char c t) =
      ap (has_char src c 0) hs.len_is ∙ has_char-any_char src c [] t 0 hs refl in
    rw (tested, one, first, run) refl

has_place_if : (b : Bool) → has_place (if b then some 1 else none) ≡ b
has_place_if true = refl
has_place_if false = refl

has_place-int_place : (o : Option ℕ) → has_place (int_place o) ≡ has_place o
has_place-int_place none = refl
has_place-int_place (some i) = refl

-- A place is found exactly when the pattern stands somewhere.
pub str_has_pattern-Occurs :
    (src pat : String) (t p : Bytes)
    → IsText src t
    → IsText pat p
    → 0 < length p
    → length p < length t
    → Yields (λ o. (has_place o ≡ true) ↔ Occurs p t) (str_has_pattern src pat)
str_has_pattern-Occurs src pat t [] hs hp some_char shorter = absurd (omega arith)
str_has_pattern-Occurs src pat t (c ∷ []) hs hp some_char shorter =
    rw (str_has_pattern_single src pat t c hs hp shorter, has_place_if (any_char c t))
      (any_char_iff c t)
str_has_pattern-Occurs src pat t (c ∷ d ∷ p) hs hp some_char shorter =
    rw (str_has_pattern-find_from src pat t (c ∷ d ∷ p) hs hp (omega arith) shorter) (
      Yields-map int_place (IsFirst (c ∷ d ∷ p) t)
        (λ o. (has_place o ≡ true) ↔ Occurs (c ∷ d ∷ p) t)
        (λ o h. rw (has_place-int_place o) (IsFirst-Occurs (c ∷ d ∷ p) t o h))
        (find_from src pat 0 (length t - length (c ∷ d ∷ p) + 1))
        (find_from_lem src pat t (c ∷ d ∷ p) hs hp (omega arith) shorter))
