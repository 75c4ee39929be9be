-- ===== src/Str/SelfTest.antt =====
-- `str_lib_test` of src/cliargs.c: the test program of the string library. What it prints is left
-- out; a failed assertion is a fault. `junk` is what `reallocarray` finds in new memory.
use Prim.Native.String.{String as Literal}
use c_at.Str.Defs.{
  char_at, str_reverse, str_clear, str_from_cstr, String, no_string, str_append_chars, str_get_cstr,
  str_substr, str_dup, str_create, str_append_char, until_nul, block, str_move_cstr,
}
use c_at.Str.Search.{has_place, str_has_pattern, str_is_integer, str_is_float, str_are_equal}
use c_at.Base.{
  refl, false, assertion, str_eq, ok, if◌then◌else◌, guard, ◌≡◌, ◌>>◌, ◌>>=◌, codes, ℕ, Result,
}

-- `str1` is made from a pointer and freed.
unfoldable pub test_move : Result (Unit {0})
unfolding str_move_cstr str_clear char_at
test_move = do
  let c_str = codes "World!"
  let str1 = str_move_cstr c_str
  bytes ← block str1
  guard (str_eq c_str (until_nul bytes)) assertion

unfoldable pub test_dup : Result (Unit {0})
unfolding str_dup str_create str_are_equal
test_dup = do
  str1 ← str_create (codes "Shrimp")
  str2 ← str_dup str1
  same ← str_are_equal str1 str2
  guard same assertion

unfoldable pub test_reverse : Result (Unit {0})
unfolding str_dup str_create str_reverse str_get_cstr
test_reverse = do
  str1 ← str_create (codes "hello")
  dup ← str_dup str1
  str2 ← str_reverse dup
  cpy1 ← str_get_cstr str1
  cpy2 ← str_get_cstr str2
  guard (str_eq cpy2 (codes "olleh")) assertion

unfoldable pub test_pattern : Result (Unit {0})
unfolding str_from_cstr str_has_pattern
test_pattern = do
  str1 ← str_from_cstr (codes "Magnum") 0
  str2 ← str_from_cstr (codes "gn") 0
  place ← str_has_pattern str1 str2
  guard (has_place place) assertion

unfoldable pub test_numbers : Result (Unit {0})
unfolding str_from_cstr str_is_float str_is_integer
test_numbers = do
  str1 ← str_from_cstr (codes "10.1") 0
  str2 ← str_from_cstr (codes "-3000") 0
  float ← str_is_float str1
  integer ← (if float then str_is_integer str2 else ok false)
  guard integer assertion

-- A call that appends, and the comparison with the text `whole`.
abbrev pub appended_is : Result String → Literal → Result (Unit {0})
appended_is appended whole = do
  str2 ← str_create (codes whole)
  str1 ← appended
  same ← str_are_equal str1 str2
  guard same assertion

unfoldable pub test_append_chars : (ℕ → ℕ) → Result (Unit {0})
unfolding str_create str_append_chars str_are_equal
test_append_chars junk = do
  str1 ← str_create (codes "Hello ")
  appended_is (str_append_chars junk str1 (codes "World!")) "Hello World!"
  appended_is (str_append_chars junk no_string (codes "Hello World!")) "Hello World!"

unfoldable pub test_append_char : (ℕ → ℕ) → Result (Unit {0})
unfolding str_create str_append_char str_are_equal
test_append_char junk = do
  str1 ← str_create (codes "Jo")
  appended_is (str_append_char junk str1 b'e') "Joe"
  appended_is (str_append_char junk no_string b'e') "e"

unfoldable pub test_substr : Result (Unit {0})
unfolding str_create str_substr str_are_equal
test_substr = do
  orig ← str_create (codes "JoJo")
  str2 ← str_substr orig 2 2
  str1 ← str_create (codes "Jo")
  same ← str_are_equal str1 str2
  guard same assertion

unfoldable pub str_lib_test : (ℕ → ℕ) → Result (Unit {0})
unfolding test_move test_dup test_reverse test_pattern test_numbers test_append_chars
    test_append_char test_substr
str_lib_test junk = do
  test_move
  test_dup
  test_reverse
  test_pattern
  test_numbers
  test_append_chars junk
  test_append_char junk
  test_substr

-- Every assertion holds, whatever new memory holds.
pub str_lib_test_passes : (junk : ℕ → ℕ) → str_lib_test junk ≡ ok tt
unfolding str_lib_test str_eq
str_lib_test_passes junk = refl
