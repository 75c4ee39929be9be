-- ===== src/Str/Search.antt =====
-- The functions that compare strings and search in one.
use c_at.Base.{
  ◌^◌, ◌%◌, ltb, assertion, some, zero, not, ◌+◌, ◌&&◌, none, false, ◌==◌, ◌-◌, guard, suc, ◌>>=◌,
  ◌||◌, true, leb, Option, if◌then◌else◌, ◌>>◌, ok, Result, Bool, ℕ,
}
use c_at.Str.Defs.{String, char_at}

-- `equal = equal && (src.ptr[i+offset] == pat.ptr[i])`: nothing is read once `equal` is false.
unfoldable pub same_char : String → String → ℕ → ℕ → Bool → Result Bool
unfolding char_at
same_char src pat offset i false = ok false
same_char src pat offset i true = do a ← char_at src (i + offset); b ← char_at pat i; ok (a == b)

-- The loop for `n` rounds from `i` on.
unfoldable pub same_from : String → String → ℕ → ℕ → ℕ → Bool → Result Bool
unfolding same_char
same_from src pat offset i zero equal = ok equal
same_from src pat offset i (suc n) equal =
    same_char src pat offset i equal >>= λ equal'. same_from src pat offset (i + 1) n equal'

-- The two assertions of the searches.
abbrev pub searchable : String → String → Result (Unit {0})
searchable src pat = do
  guard (not (src.len == 0) && not (pat.len == 0)) assertion
  guard (ltb pat.len src.len) assertion

unfoldable pub str_begins_with : String → String → Result Bool
unfolding same_from
str_begins_with src pat = do searchable src pat; same_from src pat 0 0 pat.len true

-- The loop of `str_ends_with` from `i = n` down to 1.
unfoldable pub same_down : String → String → ℕ → ℕ → Bool → Result Bool
unfolding same_char
same_down src pat offset zero equal = ok equal
same_down src pat offset (suc i) equal =
    same_char src pat offset (suc i) equal >>= λ equal'. same_down src pat offset i equal'

unfoldable pub str_ends_with : String → String → Result Bool
unfolding same_down
str_ends_with src pat = do
  searchable src pat
  same_down src pat (src.len - pat.len) (pat.len - 1) true

unfoldable pub str_are_equal : String → String → Result Bool
unfolding same_from
str_are_equal l r = if l.len == r.len then same_from l r 0 0 l.len true else ok false

-- The loop for a pattern of one character, for `n` rounds from `i` on.
unfoldable pub has_char : String → ℕ → ℕ → ℕ → Result Bool
unfolding char_at
has_char src c i zero = ok false
has_char src c i (suc n) =
    char_at src i >>= λ a. elim (a == c) [ true ↦ ok true | false ↦ has_char src c (i + 1) n ]

-- The loop over the places `src_i`.
unfoldable pub find_from : String → String → ℕ → ℕ → Result (Option ℕ)
unfolding same_from
find_from src pat src_i zero = ok none
find_from src pat src_i (suc n) = same_from src pat src_i 0 pat.len true >>= λ equal. elim equal [
  | true ↦ ok (some src_i)
  | false ↦ find_from src pat (src_i + 1) n
]

-- A place, a `uint`, as the `int` that is returned, in its bit pattern: from 2 ^ 31 on it is negative.
abbrev pub int_place : Option ℕ → Option ℕ
int_place none = none
int_place (some i) = some (i % 2 ^ 32)

-- `str_has_pattern`. `STR_NOPATTERN`, the number -1, is `none`; a place with its pattern is in no text
-- that is shorter than 2 ^ 32, and with a longer one the loop, whose counter is a `uint`, need not end.
-- For a pattern of one character `true` is returned, and so the number 1.
unfoldable pub str_has_pattern : String → String → Result (Option ℕ)
unfolding has_char find_from
str_has_pattern src pat = do
  searchable src pat
  if pat.len == 1
      then (char_at pat 0 >>= λ c.
          has_char src c 0 src.len >>= λ found. ok (if found then some 1 else none))
      else (find_from src pat 0 (src.len - pat.len + 1) >>= λ place. ok (int_place place))

-- `!= STR_NOPATTERN`.
abbrev pub has_place : Option ℕ → Bool
has_place none = false
has_place (some i) = true

abbrev pub is_number_char : ℕ → Bool
is_number_char c = (leb b'0' c && leb c b'9') || c == b'-'

-- `is_a_num = is_a_num && ...`, for `n` rounds from `i` on.
unfoldable pub all_chars : (ℕ → Bool) → String → ℕ → ℕ → Bool → Result Bool
unfolding char_at
all_chars test s i zero is_a_num = ok is_a_num
all_chars test s i (suc n) false = all_chars test s (i + 1) n false
all_chars test s i (suc n) true = char_at s i >>= λ c. all_chars test s (i + 1) n (test c)

unfoldable pub str_is_integer : String → Result Bool
unfolding all_chars
str_is_integer s = all_chars is_number_char s 0 s.len true

unfoldable pub str_is_float : String → Result Bool
unfolding all_chars
str_is_float s = all_chars (λ c. is_number_char c || c == b'.') s 0 s.len true
