-- ===== src/Cli/Laws.antt =====
-- Which argument the searches find.
use c_at.Base.{
  str_eq_other, if◌then◌else◌, ◌∙◌, none, length, Option, ◌++◌, true, str_eq_iff, [], ap, ◌≢◌, inr,
  suc, some, str_eq, ◌-◌, Bool-cases, ◌+◌, get_elem?, ◌<◌, ◌∷◌, ◌⊎◌, ◌≤◌, inl, ◌≡◌, List, ℕ, Bytes,
  refl, arith,
}
use c_at.Cli.Defs.{args_init, arg_find_value, arg_find, value_from, find_from}
use native.Mathlib.Decide.{dec_lt}

-- `r` is what the loop gives from `i` on, having found `ret` before.
abbrev IsFound : Bytes → ℕ → ℕ → List Bytes → ℕ → Type 0
IsFound lit i ret rest r = (r ≡ ret) ⊎ ((i ≤ r) × (get_elem? rest (r - i) ≡ some lit))

find_from-IsFound :
    (lit : Bytes) (i ret : ℕ) (rest : List Bytes)
    → IsFound lit i ret rest (find_from lit i ret rest)
unfolding find_from
find_from-IsFound lit i ret [] = inl refl
find_from-IsFound lit i ret (a ∷ rest) = elim (Bool-cases (str_eq a lit)) [
  | inl e ↦ rw e (
      later (find_from lit (i + 1) i rest) (find_from-IsFound lit (i + 1) i rest)
        ((str_eq_iff a lit).0 e))
  | inr e ↦
      rw e (elsewhere (find_from lit (i + 1) ret rest) (find_from-IsFound lit (i + 1) ret rest))
]
  where
    shift : (r : ℕ) → i + 1 ≤ r → r - i ≡ suc (r - (i + 1))
    shift r h = omega arith

    later : (r : ℕ) → IsFound lit (i + 1) i rest r → a ≡ lit → IsFound lit i ret (a ∷ rest) r
    later r (inl e) s =
        let none_before : r - i ≡ 0 = omega arith in inr (omega arith, rw none_before (ap some s))
    later r (inr (h, e)) s = inr (omega arith, rw (shift r h) e)

    elsewhere : (r : ℕ) → IsFound lit (i + 1) ret rest r → IsFound lit i ret (a ∷ rest) r
    elsewhere r (inl e) = inl e
    elsewhere r (inr (h, e)) = inr (omega arith, rw (shift r h) e)

find_from-le :
    (lit : Bytes) (i ret : ℕ) (rest : List Bytes) → ret ≤ i → ret ≤ find_from lit i ret rest
unfolding find_from
find_from-le lit i ret [] h = omega arith
find_from-le lit i ret (a ∷ rest) h = elim (Bool-cases (str_eq a lit)) [
  | inl e ↦ rw e (omega (arith, find_from-le lit (i + 1) i rest (omega arith)))
  | inr e ↦ rw e (find_from-le lit (i + 1) ret rest (omega arith))
]

find_from_last :
    (lit : Bytes) (i ret : ℕ) (rest : List Bytes) (j : ℕ)
    → ret ≤ i
    → i ≤ j
    → find_from lit i ret rest < j
    → get_elem? rest (j - i) ≢ some lit
unfolding find_from
find_from_last lit i ret [] j h k above e = cc
find_from_last lit i ret (a ∷ rest) j h k above e = elim (Bool-cases (str_eq a lit)) [
  | inl same ↦
      let below : find_from lit (i + 1) i rest < j = rw same at above in
      let reached = find_from-le lit (i + 1) i rest (omega arith) in
      let shift : j - i ≡ suc (j - (i + 1)) = omega arith in
      find_from_last lit (i + 1) i rest j (omega arith) (omega arith) below (rw shift at e)
  | inr other ↦ elim (dec_lt i j) [
    | yes beyond ↦
        let below : find_from lit (i + 1) ret rest < j = rw other at above in
        let shift : j - i ≡ suc (j - (i + 1)) = omega arith in
        find_from_last lit (i + 1) ret rest j (omega arith) (omega arith) below (rw shift at e)
    | no at_i ↦
        let here : j - i ≡ 0 = omega arith in
        let head : some a ≡ some lit = rw here at e in
        let same : a ≡ lit = cc in let equal : str_eq a lit ≡ true = (str_eq_iff a lit).1 same in cc
  ]
]

-- `arg_find` gives 0 or the index of an argument equal to the literal, and no argument behind that
-- index is equal to it.
pub arg_find-IsLast :
    (path : Bytes) (rest : List Bytes) (lit : Bytes) (j : ℕ)
    → arg_find (args_init (path ∷ rest)) lit < j
    → ((arg_find (args_init (path ∷ rest)) lit ≡ 0)
        ⊎ (get_elem? (path ∷ rest) (arg_find (args_init (path ∷ rest)) lit) ≡ some lit))
      × (get_elem? (path ∷ rest) j ≢ some lit)
unfolding arg_find args_init
arg_find-IsLast path rest lit j above = (
  found (find_from lit 1 0 rest) (find_from-IsFound lit 1 0 rest),
  λ e.
      let shift : j ≡ suc (j - 1) = omega arith in
      find_from_last lit 1 0 rest j (omega arith) (omega arith) above (rw shift at e),
)
  where
    found : (r : ℕ) → IsFound lit 1 0 rest r → (r ≡ 0) ⊎ (get_elem? (path ∷ rest) r ≡ some lit)
    found r (inl e) = inl e
    found r (inr (h, e)) = let shift : r ≡ suc (r - 1) = omega arith in inr (rw shift e)

-- `lit` is none of the arguments.
abbrev pub IsAbsent : Bytes → List Bytes → Type 0
IsAbsent lit [] = Unit
IsAbsent lit (a ∷ rest) = (a ≢ lit) × IsAbsent lit rest

find_from-IsAbsent :
    (lit : Bytes) (i ret : ℕ) (rest : List Bytes)
    → IsAbsent lit rest
    → find_from lit i ret rest ≡ ret
unfolding find_from
find_from-IsAbsent lit i ret [] h = refl
find_from-IsAbsent lit i ret (a ∷ rest) h =
    rw (str_eq_other a lit h.0) (find_from-IsAbsent lit (i + 1) ret rest h.1)

value_from-IsAbsent :
    (lit : Bytes) (ret : Option Bytes) (rest : List Bytes)
    → IsAbsent lit rest
    → value_from lit ret rest ≡ ret
unfolding value_from
value_from-IsAbsent lit ret [] h = refl
value_from-IsAbsent lit ret (a ∷ []) h = refl
value_from-IsAbsent lit ret (a ∷ b ∷ rest) h =
    rw (str_eq_other a lit h.0) (value_from-IsAbsent lit ret (b ∷ rest) h.1)

find_from_flag :
    (lit : Bytes) (i ret : ℕ) (before after : List Bytes)
    → IsAbsent lit after
    → find_from lit i ret (before ++ lit ∷ after) ≡ i + length before
unfolding find_from
find_from_flag lit i ret [] after h =
    let hit : find_from lit i ret (lit ∷ after) ≡ find_from lit (i + 1) i after =
      rw ((str_eq_iff lit lit).1 refl) refl in
    omega (arith, hit, find_from-IsAbsent lit (i + 1) i after h)
find_from_flag lit i ret (a ∷ before) after h =
    find_from_flag lit (i + 1) (if str_eq a lit then i else ret) before after h ∙ omega arith

value_from_flag :
    (lit : Bytes) (ret : Option Bytes) (before : List Bytes) (value : Bytes) (after : List Bytes)
    → IsAbsent lit (value ∷ after)
    → value_from lit ret (before ++ lit ∷ value ∷ after) ≡ some value
unfolding value_from
value_from_flag lit ret [] value after h =
    rw ((str_eq_iff lit lit).1 refl) (value_from-IsAbsent lit (some value) (value ∷ after) h)
value_from_flag lit ret (a ∷ []) value after h =
    value_from_flag lit (if str_eq a lit then some lit else ret) [] value after h
value_from_flag lit ret (a ∷ b ∷ before) value after h =
    value_from_flag lit (if str_eq a lit then some b else ret) (b ∷ before) value after h

-- Where a flag stands with a value behind it, and not again after the flag, `arg_find` gives the
-- index of the flag and `arg_find_value` the value.
pub arg_find_value-flag :
    (path lit value : Bytes) (before after : List Bytes)
    → IsAbsent lit (value ∷ after)
    → let a = args_init (path ∷ (before ++ lit ∷ value ∷ after)) in
      (arg_find a lit ≡ 1 + length before) × (arg_find_value a lit ≡ some value)
unfolding arg_find arg_find_value args_init
arg_find_value-flag path lit value before after h =
    (find_from_flag lit 1 0 before (value ∷ after) h, value_from_flag lit none before value after h)

-- A flag that is absent is found nowhere and has no value.
pub arg_find_value-IsAbsent :
    (path lit : Bytes) (rest : List Bytes)
    → IsAbsent lit rest
    → let a = args_init (path ∷ rest) in (arg_find a lit ≡ 0) × (arg_find_value a lit ≡ none)
unfolding arg_find arg_find_value args_init
arg_find_value-IsAbsent path lit rest h =
    (find_from-IsAbsent lit 1 0 rest h, value_from-IsAbsent lit none rest h)
