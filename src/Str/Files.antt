-- ===== src/Str/Files.antt =====
-- src/format.c: `file_has_str` and the functions on a directory. A directory is the list of the
-- names that `readdir` gives after `rewinddir`; `none` is a file that cannot be opened.
use mathlib.Core.List.Memᴰ
use c_at.Base.{
  inr, str_eq_iff, sym, inl, Bool-cases, ◌↔◌, fault, refl, ◌≡◌, ◌<◌, Yields, none, [], true, ◌>>=◌,
  if◌then◌else◌, some, ◌∷◌, ok, false, length, Result, Bool, ℕ, Option, Bytes, str_eq, List,
}
use c_at.Str.Search.{has_place, str_has_pattern}
use c_at.Str.Defs.{until_nul, str_move_cstr}
use c_at.Str.Text.{IsText}
use c_at.Str.Find.{Occurs}
use mathlib.Core.List.{Memᴰ}
use c_at.Str.Single.{str_has_pattern-Occurs}

unfoldable pub dir_files_count : List Bytes → ℕ
dir_files_count d = length d

unfoldable pub dir_has : List Bytes → Bytes → Bool
unfolding str_eq
dir_has [] name = false
dir_has (e ∷ d) name = if str_eq e name then true else dir_has d name

unfoldable pub file_has_str : Option Bytes → Bytes → Result Bool
unfolding until_nul str_move_cstr str_has_pattern
file_has_str none pattern = ok false
file_has_str (some buffer) pattern = do
  let str = str_move_cstr (until_nul buffer)
  let pat = str_move_cstr pattern
  found ← str_has_pattern str pat
  ok (has_place found)

str_move_cstr-IsText : (t : Bytes) → IsText (str_move_cstr t) t
unfolding str_move_cstr
str_move_cstr-IsText t = record { tail = 0 ∷ []; ptr_is = refl; len_is = refl }

Yields-place :
    (Q : Bool → Type 0) (r : Result (Option ℕ))
    → Yields (λ o. Q (has_place o)) r
    → Yields Q (r >>= λ o. ok (has_place o))
Yields-place Q (ok o) h = h
Yields-place Q (fault e) h = h

-- For a pattern that is not empty and shorter than the text before the first NUL of the file,
-- `file_has_str` is no fault, and is true exactly when the pattern stands somewhere in that text.
pub file_has_str_iff :
    (buffer pattern : Bytes)
    → 0 < length pattern
    → length pattern < length (until_nul buffer)
    → Yields
        (λ b. (b ≡ true) ↔ Occurs pattern (until_nul buffer))
        (file_has_str (some buffer) pattern)
unfolding file_has_str
file_has_str_iff buffer pattern some_char shorter =
    let str = str_move_cstr (until_nul buffer) in
    Yields-place (λ b. (b ≡ true) ↔ Occurs pattern (until_nul buffer))
      (str_has_pattern str (str_move_cstr pattern))
      (str_has_pattern-Occurs str (str_move_cstr pattern) (until_nul buffer) pattern
        (str_move_cstr-IsText (until_nul buffer)) (str_move_cstr-IsText pattern) some_char shorter)

-- `dir_has` finds the names of the directory.
pub dir_has_iff : (d : List Bytes) (name : Bytes) → (dir_has d name ≡ true) ↔ Memᴰ name d
unfolding dir_has
dir_has_iff [] name = (λ (never : false ≡ true). absurd (cc), λ m. absurd (Memᴰ.not-nil m))
dir_has_iff (e ∷ d) name = elim (Bool-cases (str_eq e name)) [
  | inl same ↦ rw same (λ _. Memᴰ.head (sym ((str_eq_iff e name).0 same)), λ _. refl)
  | inr other ↦ rw other (
    λ h. Memᴰ.tail ((dir_has_iff d name).0 h),
    λ m. elim (Memᴰ.cases_cons m) [
      | inl at ↦ let found = (str_eq_iff e name).1 (sym at) in absurd (cc)
      | inr later ↦ (dir_has_iff d name).1 later
    ],
  )
]
