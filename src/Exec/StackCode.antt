-- ===== src/Exec/StackCode.antt =====
-- Programs of `push`, `pop`, `set` and the arithmetic of integers: what they do is told by a list of
-- words.
pub mod Words
pub mod Refinement
use c_at.Base.{
  ◌==◌, ◌||◌, ◌&&◌, ltb, leb, ◌*◌, Bool, if◌then◌else◌, ◌≡◌, ◌≤◌, ◌-◌, ◌%◌, ◌+◌, ◌<◌, ◌∷◌, [], none,
  some, update, List, Option, ℕ,
}
use c_at.Inst.Defs.{Instruction}
use c_at.Inst.Macros.{
  make_cmpe, make_and, make_cmpg, make_cmpeg, make_or, make_mul, make_cmpl, make_cmpel, make_dec,
  make_inc, make_sub, make_push, make_pop, make_set, make_add,
}
use c_at.Machine.Defs.{uint_mod, reg_count}
use c_at.Machine.Memory.{get_word}

-- The operations on two words: `add`, `sub`, `mul`, `and`, `or` and the comparisons `cmpe`, `cmpg`,
-- `cmpl`, `cmpeg` and `cmpel`.
pub data Binary : Type 0 where
  plus minus times both either equals greater less at_least at_most : Binary

-- `push r`, `pop r`, `set r n`, `inc r`, `dec r`, and an operation from two registers to a third.
pub data StackOp : Type 0 where
  push_op : ℕ → StackOp
  pop_op : ℕ → StackOp
  set_op : ℕ → ℕ → StackOp
  inc_op : ℕ → StackOp
  dec_op : ℕ → StackOp
  binary_op : Binary → ℕ → ℕ → ℕ → StackOp

abbrev pub binary_inst : Binary → List ℕ → Instruction
binary_inst plus args = make_add args
binary_inst minus args = make_sub args
binary_inst times args = make_mul args
binary_inst both args = make_and args
binary_inst either args = make_or args
binary_inst equals args = make_cmpe args
binary_inst greater args = make_cmpg args
binary_inst less args = make_cmpl args
binary_inst at_least args = make_cmpeg args
binary_inst at_most args = make_cmpel args

abbrev pub stack_inst : StackOp → Instruction
stack_inst (push_op r) = make_push (r ∷ [])
stack_inst (pop_op r) = make_pop (r ∷ [])
stack_inst (set_op r n) = make_set r n
stack_inst (inc_op r) = make_inc (r ∷ [])
stack_inst (dec_op r) = make_dec (r ∷ [])
stack_inst (binary_op f a b c) = binary_inst f (a ∷ b ∷ c ∷ [])

abbrev pub stack_code : List StackOp → List Instruction
stack_code [] = []
stack_code (op ∷ ops) = stack_inst op ∷ stack_code ops

-- The specification: registers, and a list of words. Nothing is popped from the empty list.
abbrev pub WordStack : Type 0
WordStack = (ℕ → ℕ) × List ℕ

-- The difference of two words, modulo 2 ^ 32, and 1 for a test that holds.
abbrev pub word_minus : ℕ → ℕ → ℕ
word_minus x y = if leb y x then x - y else uint_mod - (y - x)

abbrev pub flag : Bool → ℕ
flag test = if test then 1 else 0

abbrev pub binary_word : Binary → ℕ → ℕ → ℕ
binary_word plus x y = (x + y) % uint_mod
binary_word minus x y = word_minus x y
binary_word times x y = x * y % uint_mod
binary_word both x y = flag (ltb 0 x && ltb 0 y)
binary_word either x y = flag (ltb 0 x || ltb 0 y)
binary_word equals x y = flag (x == y)
binary_word greater x y = flag (ltb y x)
binary_word less x y = flag (ltb x y)
binary_word at_least x y = flag (leb y x)
binary_word at_most x y = flag (leb x y)

abbrev pub run_op : StackOp → WordStack → Option WordStack
run_op (push_op r) (d, ws) = some (d, d r ∷ ws)
run_op (pop_op r) (d, []) = none
run_op (pop_op r) (d, w ∷ ws) = some (update d r w, ws)
run_op (set_op r n) (d, ws) = some (update d r n, ws)
run_op (inc_op r) (d, ws) = some (update d r (binary_word plus (d r) 1), ws)
run_op (dec_op r) (d, ws) = some (update d r (word_minus (d r) 1), ws)
run_op (binary_op f a b c) (d, ws) = some (update d a (binary_word f (d b) (d c)), ws)

abbrev pub run_ops : List StackOp → WordStack → Option WordStack
run_ops [] s = some s
run_ops (op ∷ ops) s = elim (run_op op s) [ none ↦ none | some s' ↦ run_ops ops s' ]

-- The numbers of the registers, and the constants, are in range.
abbrev pub InRange : StackOp → Type 0
InRange (push_op r) = r < reg_count
InRange (pop_op r) = r < reg_count
InRange (set_op r n) = (r < reg_count) × (n < uint_mod)
InRange (inc_op r) = r < reg_count
InRange (dec_op r) = r < reg_count
InRange (binary_op f a b c) = (a < reg_count) × (b < reg_count) × (c < reg_count)

abbrev pub AreInRange : List StackOp → Type 0
AreInRange [] = Unit
AreInRange (op ∷ ops) = InRange op × AreInRange ops

-- The words of the memory from the pointer of the stack down to `base` are the list, the first
-- at the pointer.
abbrev pub IsStack : ℕ → (ℕ → ℕ) → ℕ → List ℕ → Type 0
IsStack base memory top [] = top ≡ base
IsStack base memory top (w ∷ ws) =
    (get_word memory top ≡ w) × (base + 4 ≤ top) × IsStack base memory (top - 4) ws
