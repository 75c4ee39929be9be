-- ===== src/Str/Defs.antt =====
-- `String` and the functions that make, read and change one. `ptr` is the block that the pointer
-- points to, a null pointer is `none`; a `char*` argument is the text before its NUL. Allocation
-- succeeds. Reading and writing outside a block is a fault.
use c_at.Base.{
  drop, false, assertion, take, get_or, ◌-◌, zero, ltb, true, leb, length, suc, out_of_bounds, ◌||◌,
  ◌++◌, guard, get_elem?, null_pointer, ◌+◌, ok, [], ◌∷◌, if◌then◌else◌, ◌==◌, some, ◌>>◌, ◌>>=◌,
  fault, Bool, Bytes, Result, none, Option, ℕ,
}

pub record String : Type 0 where
  pub ptr : Option Bytes
  pub len : ℕ

-- `(String) {0}`.
abbrev pub no_string : String
no_string = record { ptr = none; len = 0 }

abbrev pub block : String → Result Bytes
block s = elim s.ptr [ none ↦ fault null_pointer | some bytes ↦ ok bytes ]

-- `s.ptr[i]`.
unfoldable pub char_at : String → ℕ → Result ℕ
char_at s i =
    block s >>= λ bytes. elim (get_elem? bytes i) [ none ↦ fault out_of_bounds | some c ↦ ok c ]

-- `memcpy` of `n` bytes from the block.
unfoldable pub copy_out : String → ℕ → Result Bytes
copy_out s n =
    block s >>= λ bytes. guard (leb n (length bytes)) out_of_bounds >>= λ _. ok (take n bytes)

-- `len` 0 stands for the whole text.
unfoldable pub str_from_cstr : Bytes → ℕ → Result String
str_from_cstr cstr len = do
  guard (leb len (length cstr)) assertion
  let n = if len == 0 then length cstr else len
  ok (record { ptr = some (take n cstr); len = n })

unfoldable pub str_create : Bytes → Result String
unfolding str_from_cstr
str_create cstr = str_from_cstr cstr 0

-- The block has the NUL, too.
unfoldable pub str_move_cstr : Bytes → String
str_move_cstr cstr = record { ptr = some (cstr ++ 0 ∷ []); len = length cstr }

unfoldable pub str_is_empty : String → Bool
str_is_empty s = s.len == 0 || (elim s.ptr [ none ↦ true | some bytes ↦ false ])

unfoldable pub str_dup : String → Result String
unfolding str_is_empty copy_out
str_dup s =
    if str_is_empty s
    then ok no_string
    else copy_out s s.len >>= λ bytes. ok (record { ptr = some bytes; len = s.len })

-- What `strlen` and `memcpy` find in a buffer of zeros that was filled with `bytes`.
unfoldable pub until_nul : Bytes → Bytes
until_nul [] = []
until_nul (c ∷ bytes) = if c == 0 then [] else c ∷ until_nul bytes

-- The loop copies `len` characters from `index` on.
unfoldable pub str_substr : String → ℕ → ℕ → Result String
unfolding copy_out until_nul str_create
str_substr orig index len = do
  guard (ltb index orig.len) assertion
  guard (ltb len orig.len) assertion
  guard (leb (index + len) orig.len) assertion
  bytes ← (if len == 0 then ok [] else copy_out orig (index + len))
  str_create (until_nul (drop index bytes))

-- `ptr[i] = c`.
unfoldable pub write_at : Bytes → ℕ → ℕ → Result Bytes
write_at [] i c = fault out_of_bounds
write_at (b ∷ bytes) zero c = ok (c ∷ bytes)
write_at (b ∷ bytes) (suc i) c = write_at bytes i c >>= λ rest. ok (b ∷ rest)

-- `reallocarray`: the block cut, or followed by what the new memory holds.
unfoldable pub resized : (ℕ → ℕ) → ℕ → ℕ → Bytes → Bytes
resized junk k zero bytes = []
resized junk k (suc n) [] = junk k ∷ resized junk (k + 1) n []
resized junk k (suc n) (b ∷ bytes) = b ∷ resized junk (k + 1) n bytes

-- The loop `new_ptr[i+diff] = chars[i]`, from the place `at` on.
unfoldable pub write_from : Bytes → ℕ → Bytes → Result Bytes
unfolding write_at
write_from bytes at [] = ok bytes
write_from bytes at (c ∷ chars) = write_at bytes at c >>= λ bytes'. write_from bytes' (at + 1) chars

unfoldable pub str_append_chars : (ℕ → ℕ) → String → Bytes → Result String
unfolding str_is_empty str_create resized write_from
str_append_chars junk s chars =
    let new_len = s.len + length chars in
    let diff = new_len - s.len in
    if length chars == 0
    then ok s
    else if str_is_empty s
    then str_create chars
    else (block s >>= λ bytes. write_from (resized junk 0 new_len bytes) diff chars >>= λ new_ptr.
        ok (record { ptr = some new_ptr; len = new_len }))

-- A character NUL makes an empty C string.
unfoldable pub str_append_char : (ℕ → ℕ) → String → ℕ → Result String
unfolding str_is_empty str_create resized write_at until_nul
str_append_char junk s ch =
    if str_is_empty s
    then str_create (until_nul (ch ∷ []))
    else (block s >>= λ bytes. write_at (resized junk 0 (s.len + 1) bytes) s.len ch >>= λ new_ptr.
        ok (record { ptr = some new_ptr; len = s.len + 1 }))

-- The loop `s->ptr[i] = ptr_cpy[(s->len-1) - i]`, for the `n` rounds from `i` on.
unfoldable pub reverse_from : Bytes → ℕ → ℕ → ℕ → Bytes → Result Bytes
unfolding write_at
reverse_from copy len i zero bytes = ok bytes
reverse_from copy len i (suc n) bytes = write_at bytes i (get_or copy (len - 1 - i) 0) >>= λ bytes'.
    reverse_from copy len (i + 1) n bytes'

unfoldable pub str_reverse : String → Result String
unfolding str_is_empty copy_out reverse_from
str_reverse s =
    if str_is_empty s
    then ok s
    else (copy_out s s.len >>= λ ptr_cpy. block s >>= λ bytes.
        reverse_from ptr_cpy s.len 0 s.len bytes >>= λ bytes'. ok (record s { ptr = some bytes' }))

unfoldable pub str_get_cstr : String → Result Bytes
unfolding copy_out until_nul
str_get_cstr s = copy_out s s.len >>= λ bytes. ok (until_nul bytes)

-- `str_clear`, `str_free` in src/str.h.
unfoldable pub str_clear : String → String
str_clear s = no_string
