-- ===== src/Str/Compare.antt =====
-- `str_begins_with`, `str_ends_with` and `str_are_equal` against the texts.
use mathlib.Core.List.{append_assoc, append-nil}
use c_at.Base.{
  ◌∙◌, ap, Yields, ◌<◌, inr, length-append, inl, Bool-cases, ◌≤◌, sym, zero, ◌&&◌, [], ◌+◌, suc,
  ◌==◌, length, ok, ◌↔◌, ◌∷◌, ◌++◌, false, true, ℕ, ◌≡◌, Bool, Bytes, refl, arith,
}
use c_at.Str.Text.{IsText, char_at-IsText}
use c_at.Str.Defs.{String}
use c_at.Str.Search.{str_are_equal, str_begins_with, same_char, same_from}
use mathlib.Core.Path.{ap₂}

-- Whether `u` begins with `v`.
unfoldable pub is_prefix : Bytes → Bytes → Bool
is_prefix [] u = true
is_prefix (x ∷ v) [] = false
is_prefix (x ∷ v) (y ∷ u) = (y == x) && is_prefix v u

pub is_prefix-append : (v rest : Bytes) → is_prefix v (v ++ rest) ≡ true
unfolding is_prefix
is_prefix-append [] rest = refl
is_prefix-append (x ∷ v) rest = ground (arith, is_prefix-append v rest)

pub is_prefix_rest : (v u : Bytes) → is_prefix v u ≡ true → (rest : Bytes) × (u ≡ v ++ rest)
unfolding is_prefix
is_prefix_rest [] u h = (u, refl)
is_prefix_rest (x ∷ v) [] h = let never : false ≡ true = h in absurd (cc)
is_prefix_rest (x ∷ v) (y ∷ u) h =
    let (rest, e) = is_prefix_rest v u (ground (arith, h)) in
    let same : y ≡ x = ground (arith, h) in (rest, ap₂ ◌∷◌ same e)

pub is_prefix_iff : (v u : Bytes) → (is_prefix v u ≡ true) ↔ ((rest : Bytes) × (u ≡ v ++ rest))
is_prefix_iff v u = (is_prefix_rest v u, λ h. rw (h.1) (is_prefix-append v h.0))

no_rest : (t u rest : Bytes) → length t ≡ length u → t ≡ u ++ rest → t ≡ u
no_rest t u [] same h = h ∙ append-nil u
no_rest t u (c ∷ rest) same h =
    let longer = ap length h in absurd (omega (arith, longer, length-append u (c ∷ rest)))

-- A text as long as the pattern begins with it when it is the pattern.
pub is_prefix_same : (t u : Bytes) → length t ≡ length u → (is_prefix u t ≡ true) ↔ (t ≡ u)
is_prefix_same t u same = (
  λ h. let (rest, e) = is_prefix_rest u t h in no_rest t u rest same e,
  λ h. let none_left : t ≡ u ++ [] = h ∙ sym (append-nil u) in rw none_left (is_prefix-append u []),
)

same_from-false :
    (src pat : String) (offset i n : ℕ) → same_from src pat offset i n false ≡ ok false
unfolding same_from
same_from-false src pat offset i zero = refl
same_from-false src pat offset i (suc n) = same_from-false src pat offset (i + 1) n

-- A round where both texts have a character.
same_char-IsText :
    (src pat : String) (pre : Bytes) (y : ℕ) (u q : Bytes) (x : ℕ) (v : Bytes) (offset : ℕ)
    → IsText src (pre ++ y ∷ u)
    → IsText pat (q ++ x ∷ v)
    → length pre ≡ length q + offset
    → same_char src pat offset (length q) true ≡ ok (y == x)
unfolding same_char
same_char-IsText src pat pre y u q x v offset hs hp at = rw (
  char_at-IsText src pre y u (length q + offset) hs (sym at),
  char_at-IsText pat q x v (length q) hp refl,
)

IsText-snoc :
    (s : String) (a : Bytes) (c : ℕ) (b : Bytes)
    → IsText s (a ++ c ∷ b)
    → IsText s ((a ++ c ∷ []) ++ b)
IsText-snoc s a c b h = rw append_assoc h

pub same_from-is_prefix :
    (src pat : String) (pre u q v : Bytes) (offset : ℕ)
    → IsText src (pre ++ u)
    → IsText pat (q ++ v)
    → length pre ≡ length q + offset
    → length v ≤ length u
    → same_from src pat offset (length q) (length v) true ≡ ok (is_prefix v u)
unfolding same_from is_prefix
same_from-is_prefix src pat pre u q [] offset hs hp at room = refl
same_from-is_prefix src pat pre [] q (x ∷ v) offset hs hp at room = absurd (omega arith)
same_from-is_prefix src pat pre (y ∷ u) q (x ∷ v) offset hs hp at room =
    rw (same_char-IsText src pat pre y u q x v offset hs hp at) (elim (Bool-cases (y == x)) [
      | inl e ↦
          let i : length (q ++ x ∷ []) ≡ length q + 1 = length-append q (x ∷ []) in
          let next =
            same_from-is_prefix src pat (pre ++ y ∷ []) u (q ++ x ∷ []) v offset
              (IsText-snoc src pre y u hs) (IsText-snoc pat q x v hp)
              (omega (arith, i, length-append pre (y ∷ []))) (omega arith) in
          rw e (rw (← i) next)
      | inr e ↦ rw e (same_from-false src pat offset (length q + 1) (length v))
    ])

-- `str_begins_with`, where its assertions hold.
pub str_begins_with_iff :
    (src pat : String) (t p : Bytes)
    → IsText src t
    → IsText pat p
    → 0 < length p
    → length p < length t
    → Yields (λ b. (b ≡ true) ↔ ((rest : Bytes) × (t ≡ p ++ rest))) (str_begins_with src pat)
unfolding str_begins_with
str_begins_with_iff src pat t p hs hp some_char shorter =
    let run : same_from src pat 0 0 pat.len true ≡ ok (is_prefix p t) =
      ap (λ (n : ℕ). same_from src pat 0 0 n true) hp.len_is
      ∙ same_from-is_prefix src pat [] t [] p 0 hs hp (omega arith) (omega arith) in
    let whole : str_begins_with src pat ≡ ok (is_prefix p t) =
      ground (arith, hs.len_is, hp.len_is, run) in
    rw whole (is_prefix_iff p t)

-- `str_are_equal` decides equality of the texts.
pub str_are_equal_iff :
    (l r : String) (t u : Bytes)
    → IsText l t
    → IsText r u
    → Yields (λ b. (b ≡ true) ↔ (t ≡ u)) (str_are_equal l r)
unfolding str_are_equal
str_are_equal_iff l r t u hl hr = elim (Bool-cases (length t == length u)) [
  | inl e ↦
      let same : length t ≡ length u = ground (arith, e) in
      let run : same_from l r 0 0 l.len true ≡ ok (is_prefix u t) =
        ap (λ (n : ℕ). same_from l r 0 0 n true) (hl.len_is ∙ same)
        ∙ same_from-is_prefix l r [] t [] u 0 hl hr (omega arith) (omega arith) in
      let whole : str_are_equal l r ≡ ok (is_prefix u t) =
        ground (arith, hl.len_is, hr.len_is, e, run) in
      rw whole (is_prefix_same t u same)
  | inr e ↦
      let whole : str_are_equal l r ≡ ok false = ground (arith, hl.len_is, hr.len_is, e) in
      rw whole (λ h. cc, λ h. let same = ap length h in ground (arith, e, same))
]
