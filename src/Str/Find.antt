-- ===== src/Str/Find.antt =====
-- `str_has_pattern` against the texts.
use mathlib.Core.List.{append_assoc}
use c_at.Base.{
  Yields-map, ◌%◌, ◌^◌, ◌>>=◌, take-drop, sym, take, ◌↔◌, length-append, ◌≤◌, inr, inl, Bool-cases,
  ◌∙◌, ap, ok, Yields, none, ◌+◌, [], ◌-◌, zero, ◌<◌, ◌∷◌, true, false, ◌++◌, length, ◌≡◌, some,
  suc, drop, Option, ℕ, Bytes, refl, arith,
}
use c_at.Str.Text.{IsText}
use c_at.Str.Defs.{String}
use c_at.Str.Compare.{is_prefix_rest, is_prefix-append, is_prefix, same_from-is_prefix}
use c_at.Str.Search.{int_place, has_place, str_has_pattern, find_from, same_from}
use mathlib.Core.Path.{subst}

-- No place before `k` is the begin of `p` in `t`.
abbrev pub NoneBefore : Bytes → ℕ → Bytes → Type 0
NoneBefore p zero t = Unit
NoneBefore p (suc k) t = (is_prefix p t ≡ false) × NoneBefore p k (drop 1 t)

-- The first place of `p` in `t`, or none up to the last place where it has room.
abbrev pub IsFirst : Bytes → Bytes → Option ℕ → Type 0
IsFirst p t (some k) = (is_prefix p (drop k t) ≡ true) × NoneBefore p k t
IsFirst p t none = NoneBefore p (length t - length p + 1) t

NoneBefore-suc :
    (p : Bytes) (k : ℕ) (t : Bytes)
    → NoneBefore p k t
    → is_prefix p (drop k t) ≡ false
    → NoneBefore p (suc k) t
NoneBefore-suc p zero t h e = (e, tt)
NoneBefore-suc p (suc k) [] h e = (h.0, NoneBefore-suc p k [] h.1 (drop_nil k e))
  where
    drop_nil : (k : ℕ) → is_prefix p (drop (suc k) []) ≡ false → is_prefix p (drop k []) ≡ false
    drop_nil zero e = e
    drop_nil (suc k) e = e
NoneBefore-suc p (suc k) (c ∷ t) h e = (h.0, NoneBefore-suc p k t h.1 e)

pub drop-append : (pre u : Bytes) → drop (length pre) (pre ++ u) ≡ u
drop-append [] u = refl
drop-append (c ∷ pre) u = drop-append pre u

drop-at : (pre u t : Bytes) (k : ℕ) → t ≡ pre ++ u → k ≡ length pre → drop k t ≡ u
drop-at pre u t k e at = rw (e, at) (drop-append pre u)

-- The places from `k` on.
find_from-IsFirst :
    (src pat : String) (pre u t p : Bytes) (k n : ℕ)
    → IsText src t
    → IsText pat p
    → 0 < length p
    → length p ≤ length t
    → t ≡ pre ++ u
    → k ≡ length pre
    → length p + n ≡ length u + 1
    → NoneBefore p k t
    → Yields (IsFirst p t) (find_from src pat k n)
unfolding find_from
find_from-IsFirst src pat pre u t p k zero hs hp some_char fits e at room earlier =
    let long : length t ≡ length pre + length u = ap length e ∙ length-append pre u in
    let places : length t - length p + 1 ≡ k = omega arith in rw places earlier
find_from-IsFirst src pat pre [] t p k (suc n) hs hp some_char fits e at room earlier =
    absurd (omega arith)
find_from-IsFirst src pat pre (y ∷ u) t p k (suc n) hs hp some_char fits e at room earlier =
    let run : same_from src pat k 0 pat.len true ≡ ok (is_prefix p (y ∷ u)) =
      ap (λ (m : ℕ). same_from src pat k 0 m true) hp.len_is
      ∙ same_from-is_prefix src pat pre (y ∷ u) [] p k (subst (IsText src) e hs) hp (omega arith)
          (omega arith) in
    let here_is : drop k t ≡ y ∷ u = drop-at pre (y ∷ u) t k e at in
    rw run (elim (Bool-cases (is_prefix p (y ∷ u))) [
      | inl found ↦ rw found (rw here_is found, earlier)
      | inr missed ↦
          let step : k + 1 ≡ suc k = omega arith in
          let next : NoneBefore p (k + 1) t =
            rw step (NoneBefore-suc p k t earlier (rw here_is missed)) in
          rw missed (
            find_from-IsFirst src pat (pre ++ y ∷ []) u t p (k + 1) n hs hp some_char fits
              (rw append_assoc e) (rw length-append (omega arith)) (omega arith) next)
    ])

-- The loop over the places.
pub find_from_lem :
    (src pat : String) (t p : Bytes)
    → IsText src t
    → IsText pat p
    → 1 < length p
    → length p < length t
    → Yields (IsFirst p t) (find_from src pat 0 (length t - length p + 1))
find_from_lem src pat t p hs hp two_chars shorter =
    find_from-IsFirst src pat [] t t p 0 (length t - length p + 1) hs hp (omega arith) (omega arith)
      refl refl (omega arith) tt

pub str_has_pattern-find_from :
    (src pat : String) (t p : Bytes)
    → IsText src t
    → IsText pat p
    → 1 < length p
    → length p < length t
    → str_has_pattern src pat
      ≡ (find_from src pat 0 (length t - length p + 1) >>= λ place. ok (int_place place))
unfolding str_has_pattern
str_has_pattern-find_from src pat t p hs hp two_chars shorter = ground (arith, hs.len_is, hp.len_is)

prefix_some : (p u : Bytes) → 0 < length p → is_prefix p u ≡ true → 0 < length u
unfolding is_prefix
prefix_some [] u some_char h = absurd (omega arith)
prefix_some (c ∷ p) [] some_char h = let never : false ≡ true = h in absurd (cc)
prefix_some (c ∷ p) (d ∷ u) some_char h = omega arith

-- A place where the pattern begins is inside the text.
prefix_fits : (p t : Bytes) (k : ℕ) → 0 < length p → is_prefix p (drop k t) ≡ true → k < length t
prefix_fits p t zero some_char h = prefix_some p t some_char h
prefix_fits p [] (suc k) some_char h =
    let never : 0 < 0 = prefix_some p [] some_char h in absurd (omega arith)
prefix_fits p (c ∷ t) (suc k) some_char h = let less = prefix_fits p t k some_char h in omega arith

IsFirst-int_place :
    (p t : Bytes) (o : Option ℕ)
    → 0 < length p
    → length t ≤ 2 ^ 31
    → IsFirst p t o
    → IsFirst p t (int_place o)
IsFirst-int_place p t none some_char short h = h
IsFirst-int_place p t (some k) some_char short h =
    let less = prefix_fits p t k some_char h.0 in
    let same : k % 2 ^ 32 ≡ k = omega arith in rw same h

-- For a pattern of two characters at least and a longer string, of at most 2 ^ 31 characters,
-- `str_has_pattern` is no fault and gives the first place of the pattern, or `STR_NOPATTERN`
-- where the pattern stands at no place that has room for it.
pub str_has_pattern-IsFirst :
    (src pat : String) (t p : Bytes)
    → IsText src t
    → IsText pat p
    → 1 < length p
    → length p < length t
    → length t ≤ 2 ^ 31
    → Yields (IsFirst p t) (str_has_pattern src pat)
str_has_pattern-IsFirst src pat t p hs hp two_chars shorter short =
    rw (str_has_pattern-find_from src pat t p hs hp two_chars shorter) (
      Yields-map int_place (IsFirst p t) (IsFirst p t)
        (λ o. IsFirst-int_place p t o (omega arith) short)
        (find_from src pat 0 (length t - length p + 1))
        (find_from_lem src pat t p hs hp two_chars shorter))

NoneBefore-misses :
    (p : Bytes) (k : ℕ) (pre rest : Bytes)
    → length pre < k
    → NoneBefore p k (pre ++ (p ++ rest))
    → ⊥
NoneBefore-misses p zero pre rest within earlier = absurd (omega arith)
NoneBefore-misses p (suc k) [] rest within earlier =
    let found = is_prefix-append p rest in let missed = earlier.0 in cc
NoneBefore-misses p (suc k) (c ∷ pre) rest within earlier =
    NoneBefore-misses p k pre rest (omega arith) earlier.1

-- Whether `t` has `p` somewhere.
abbrev pub Occurs : Bytes → Bytes → Type 0
Occurs p t = (pre : Bytes) × ((rest : Bytes) × (t ≡ pre ++ (p ++ rest)))

pub IsFirst-Occurs :
    (p t : Bytes) (o : Option ℕ) → IsFirst p t o → (has_place o ≡ true) ↔ Occurs p t
IsFirst-Occurs p t (some k) h = (
  λ _.
      let (rest, e) = is_prefix_rest p (drop k t) h.0 in
      (take k t, (rest, sym (take-drop k t) ∙ ap (◌++◌ (take k t)) e)),
  λ _. refl,
)
IsFirst-Occurs p t none h = (
  λ (never : false ≡ true). absurd (cc),
  λ (pre, (rest, e)).
      let long : length t ≡ length pre + (length p + length rest) =
        ap length e
        ∙ length-append pre (p ++ rest)
        ∙ ap (λ (n : ℕ). length pre + n) (length-append p rest) in
      absurd (
        NoneBefore-misses p (length t - length p + 1) pre rest (omega arith)
          (subst (NoneBefore p (length t - length p + 1)) e h)),
)
