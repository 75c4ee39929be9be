-- ===== src/Examples/Strings.antt =====
-- Examples of the string library.
use c_at.Str.Defs.{str_append_chars, str_substr, str_reverse, until_nul, String}
use c_at.Base.{
  out_of_bounds, ◌↔◌, refl, length, fault, true, arith, [], ◌++◌, ◌≡◌, codes, ◌∷◌, some, Yields,
  Bytes,
}
use c_at.Str.Find.{IsFirst, Occurs, str_has_pattern-IsFirst}
use c_at.Str.Files.{file_has_str, file_has_str_iff}
use c_at.Str.Text.{IsText}
use c_at.Str.Append.{str_append_chars_outside}
use c_at.Str.Reverse.{str_reverse-IsText}
use c_at.Str.Substr.{str_substr-IsText}
use c_at.Str.Search.{str_has_pattern}

-- A string with unused memory behind the text.
abbrev held : Bytes → String
held t = record { ptr = some (t ++ 0 ∷ []); len = length t }

held-IsText : (t : Bytes) → IsText (held t) t
held-IsText t = record { tail = 0 ∷ []; ptr_is = refl; len_is = refl }

str_has_pattern-IsFirst_example :
    Yields
      (IsFirst (codes "gn") (codes "Magnum"))
      (str_has_pattern (held (codes "Magnum")) (held (codes "gn")))
str_has_pattern-IsFirst_example =
    str_has_pattern-IsFirst (held (codes "Magnum")) (held (codes "gn")) (codes "Magnum")
      (codes "gn") (held-IsText (codes "Magnum")) (held-IsText (codes "gn")) (omega arith)
      (omega arith) (omega arith)

file_has_str_iff_example :
    Yields
      (λ b. (b ≡ true) ↔ Occurs (codes "gn") (codes "Magnum"))
      (file_has_str (some (codes "Magnum")) (codes "gn"))
unfolding until_nul
file_has_str_iff_example =
    file_has_str_iff (codes "Magnum") (codes "gn") (omega arith) (omega arith)

str_reverse-IsText_example :
    Yields (λ s. IsText s (codes "olleh")) (str_reverse (held (codes "hello")))
str_reverse-IsText_example =
    str_reverse-IsText (held (codes "hello")) (codes "hello") (held-IsText (codes "hello"))

str_append_chars_outside_example :
    str_append_chars (λ k. k) (held (codes "Jo")) (codes "JoJo") ≡ fault out_of_bounds
str_append_chars_outside_example =
    str_append_chars_outside (λ k. k) (held (codes "Jo")) (codes "Jo") (codes "JoJo")
      (held-IsText (codes "Jo")) (omega arith) (omega arith)

str_substr-IsText_example :
    Yields (λ d. IsText d (codes "oJ")) (str_substr (held (codes "JoJo")) 1 2)
str_substr-IsText_example =
    str_substr-IsText (held (codes "JoJo")) (codes "J") (codes "oJ") (codes "o")
      (held-IsText (codes "JoJo")) (refl, (refl, tt)) (omega arith) (omega arith) (omega arith)
