-- ===== src/Disassembler/Show.antt =====
-- What `printf` makes of a number: `%d` of a `char` and of an `int`, and `%lu`.
use c_at.Base.{zero, ◌-◌, ◌/◌, ◌^◌, ◌∷◌, ◌%◌, ltb, ◌+◌, if◌then◌else◌, [], suc, Bytes, ℕ}
use c_at.Machine.Defs.{uint_mod, size_mod}

-- The digits of `n`, before `out`; `places` rounds are enough for `10 ^ places`.
unfoldable pub show_digits : ℕ → ℕ → Bytes → Bytes
show_digits zero n out = out
show_digits (suc places) n out =
    let digit = b'0' + n % 10 in
    let rest = show_digits places (n / 10) (digit ∷ out) in if ltb n 10 then digit ∷ out else rest

-- A number below 2 ^ 64.
unfoldable pub show_uint : ℕ → Bytes
unfolding show_digits
show_uint n = show_digits 20 n []

-- `%d` of an argument byte, a signed `char` in its bit pattern.
unfoldable pub show_byte : ℕ → Bytes
unfolding show_uint
show_byte r = if ltb r 128 then show_uint r else b'-' ∷ show_uint (256 - r)

-- `%d` and `%i` of an `int`.
unfoldable pub show_int : ℕ → Bytes
unfolding show_uint
show_int v = if ltb v (2 ^ 31) then show_uint v else b'-' ∷ show_uint (uint_mod - v)

-- `%lu` of an `int` converted to `size_t`.
unfoldable pub show_size : ℕ → Bytes
unfolding show_uint
show_size v = if ltb v (2 ^ 31) then show_uint v else show_uint (size_mod - uint_mod + v)
