-- ===== src/Cli/Defs.antt =====
-- `Args`, `arg_find`, `arg_find_value` and `arg_get_path`. `argc` is the length of `argv`, as the C
-- start-up code gives it.
use c_at.Base.{
  some, [], if◌then◌else◌, ◌+◌, get_elem?, none, drop, ◌∷◌, Option, Bytes, str_eq, List, ℕ,
}

pub record Args : Type 0 where
  pub argv : List Bytes

unfoldable pub args_init : List Bytes → Args
args_init argv = record { argv = argv }

-- The loop of `arg_find` over the arguments from index `i` on.
unfoldable pub find_from : Bytes → ℕ → ℕ → List Bytes → ℕ
unfolding str_eq
find_from lit i ret [] = ret
find_from lit i ret (a ∷ rest) = find_from lit (i + 1) (if str_eq a lit then i else ret) rest

unfoldable pub arg_find : Args → Bytes → ℕ
unfolding find_from
arg_find a lit = find_from lit 1 0 (drop 1 a.argv)

-- The loop of `arg_find_value`; the last argument has no value behind it.
unfoldable pub value_from : Bytes → Option Bytes → List Bytes → Option Bytes
unfolding str_eq
value_from lit ret [] = ret
value_from lit ret (a ∷ []) = ret
value_from lit ret (a ∷ b ∷ rest) = value_from lit (if str_eq a lit then some b else ret) (b ∷ rest)

unfoldable pub arg_find_value : Args → Bytes → Option Bytes
unfolding value_from
arg_find_value a lit = value_from lit none (drop 1 a.argv)

-- `argv[0]`, a null pointer where there is no argument.
unfoldable pub arg_get_path : Args → Option Bytes
arg_get_path a = get_elem? a.argv 0
