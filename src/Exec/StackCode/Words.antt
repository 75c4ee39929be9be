-- ===== src/Exec/StackCode/Words.antt =====
-- What each of these instructions does to the registers and the words of the stack.
use mathlib.Core.Option.{some-injective}
use c_at.Base.{
  ◌^◌, inr, ◌≡◌, ◌∙◌, ap, Yields, ◌≤◌, ◌-◌, ◌%◌, ◌+◌, ◌<◌, ◌∷◌, [], some, update, arith, refl,
  lt→ltb, le→leb, List, ℕ,
}
use c_at.Inst.Defs.{cmpel, cmpeg, cmpl, cmpg, cmpe, or, and, mul, sub, add, Inst, operation_of}
use c_at.Inst.Macros.{
  make_sub, make_cmpl, make_cmpel, instruction, make_cmpe, make_mul, make_dec, make_or, make_and,
  make_cmpg, make_cmpeg, make_inc, make_push, make_pop, make_set, make_add,
}
use c_at.Machine.Defs.{Machine, Host, uint_mod, size_mod, stack_size, reg_count}
use c_at.Machine.Memory.{put_word, push_decimal, pop_decimal}
use c_at.Machine.Memory.Laws.{get_word-put_word, get_word-put_word_ne}
use c_at.Exec.Memory.{exec_push, exec_pop, exec_set}
use c_at.Exec.Integer.{
  exec_or, exec_cmpe, exec_dec, exec_inc, exec_cmpg, exec_cmpl, exec_sub, exec_cmpel, exec_cmpeg,
  binary_d, exec_mul, exec_and, exec_add,
}
use c_at.Exec.Step.{dispatch, execute_inst}
use c_at.Exec.Straight.{SameProgram}
use c_at.Exec.StackCode.{
  less, greater, make_inc, binary_word, times, inc_op, equals, at_most, binary_op, dec_op, minus,
  both, either, at_least, plus, word_minus, StackOp, stack_inst, WordStack, run_op, InRange,
  IsStack, push_op, pop_op, set_op,
}

IsStack-ge :
    (base : ℕ) (memory : ℕ → ℕ) (top : ℕ) (ws : List ℕ) → IsStack base memory top ws → base ≤ top
IsStack-ge base memory top [] h = omega (arith, h)
IsStack-ge base memory top (w ∷ ws) h = omega (arith, h.1)

-- A word written above the stack leaves it.
IsStack-put_word :
    (base : ℕ) (memory : ℕ → ℕ) (a v top : ℕ) (ws : List ℕ)
    → top + 4 ≤ a
    → IsStack base memory top ws
    → IsStack base (put_word memory a v) top ws
IsStack-put_word base memory a v top [] above h = h
IsStack-put_word base memory a v top (w ∷ ws) above h = (
  get_word-put_word_ne memory a top v (inr above) ∙ h.0,
  h.1,
  IsStack-put_word base memory a v (top - 4) ws (omega arith) h.2,
)

-- What a round does to the machine, where the list becomes `s`.
abbrev pub Refines : ℕ → Machine → WordStack → Machine → Type 0
Refines base m s m' =
    (m'.iregisters ≡ s.0)
    × IsStack base m'.stack_memory m'.stack_top s.1
    × SameProgram m m'
    × (m'.pc ≡ m.pc)
    × (m'.is_running ≡ m.is_running)
    × (m'.stack_top ≤ m.stack_top + 4)

word_minus_lem :
    (x y : ℕ) → x < uint_mod → y < uint_mod → (x + uint_mod - y) % uint_mod ≡ word_minus x y
word_minus_lem x y hx hy = ground arith

module _ (base : ℕ) (m : Machine) (d_fits : (r : ℕ) → m.iregisters r < uint_mod) where
  exec_push-Refines :
      (r : ℕ) (ws : List ℕ)
      → r < reg_count
      → m.stack_top + 8 ≤ stack_size
      → IsStack base m.stack_memory m.stack_top ws
      → Yields
          (Refines base m (m.iregisters, m.iregisters r ∷ ws))
          (exec_push (make_push (r ∷ [])) m)
  unfolding exec_push push_decimal make_push
  exec_push-Refines r ws in_range room h =
      let top : (m.stack_top + 4) % size_mod ≡ m.stack_top + 4 = omega arith in
      let back : m.stack_top + 4 - 4 ≡ m.stack_top = omega arith in
      let fits : m.stack_top + 4 + 4 ≤ stack_size = omega arith in
      let byte : r % 256 ≡ r = omega arith in
      rw (byte, lt→ltb _ _ in_range, top, le→leb _ _ fits)
        (
          refl,
          (
            get_word-put_word m.stack_memory (m.stack_top + 4) (m.iregisters r) (d_fits r),
            omega (arith, IsStack-ge base m.stack_memory m.stack_top ws h),
            rw back (
                IsStack-put_word base m.stack_memory (m.stack_top + 4) (m.iregisters r) m.stack_top
                  ws (omega arith) h),
          ),
          (refl, refl),
          refl,
          refl,
          omega arith,
        )

  exec_pop-Refines :
      (r w : ℕ) (ws : List ℕ)
      → r < reg_count
      → m.stack_top + 4 ≤ stack_size
      → IsStack base m.stack_memory m.stack_top (w ∷ ws)
      → Yields (Refines base m (update m.iregisters r w, ws)) (exec_pop (make_pop (r ∷ [])) m)
  unfolding exec_pop pop_decimal make_pop
  exec_pop-Refines r w ws in_range room h =
      let top : (m.stack_top + size_mod - 4) % size_mod ≡ m.stack_top - 4 = omega arith in
      let byte : r % 256 ≡ r = omega arith in
      rw (byte, le→leb _ _ room, lt→ltb _ _ in_range, top)
        (ap (update m.iregisters r) h.0, h.2, (refl, refl), refl, refl, omega arith)

  exec_set-Refines :
      (r n : ℕ) (ws : List ℕ)
      → r < reg_count
      → n < uint_mod
      → IsStack base m.stack_memory m.stack_top ws
      → Yields (Refines base m (update m.iregisters r n, ws)) (exec_set (make_set r n) m)
  unfolding exec_set make_set
  exec_set-Refines r n ws in_range fits h =
      let byte : r % 256 ≡ r = omega arith in
      let value : n % 2 ^ 32 % uint_mod ≡ n = omega arith in
      rw (byte, lt→ltb _ _ in_range, value) (refl, h, (refl, refl), refl, refl, omega arith)

  exec_inc-Refines :
      (r : ℕ) (ws : List ℕ)
      → r < reg_count
      → IsStack base m.stack_memory m.stack_top ws
      → Yields
          (Refines base m (update m.iregisters r (binary_word plus (m.iregisters r) 1), ws))
          (exec_inc (make_inc (r ∷ [])) m)
  unfolding exec_inc make_inc
  exec_inc-Refines r ws in_range h =
      let byte : r % 256 ≡ r = omega arith in
      rw (byte, lt→ltb _ _ in_range) (refl, h, (refl, refl), refl, refl, omega arith)

  exec_dec-Refines :
      (r : ℕ) (ws : List ℕ)
      → r < reg_count
      → IsStack base m.stack_memory m.stack_top ws
      → Yields
          (Refines base m (update m.iregisters r (word_minus (m.iregisters r) 1), ws))
          (exec_dec (make_dec (r ∷ [])) m)
  unfolding exec_dec make_dec
  exec_dec-Refines r ws in_range h =
      let byte : r % 256 ≡ r = omega arith in
      let value = word_minus_lem (m.iregisters r) 1 (d_fits r) (omega arith) in
      rw (byte, lt→ltb _ _ in_range)
        (ap (update m.iregisters r) value, h, (refl, refl), refl, refl, omega arith)

  binary_d-Refines :
      (f : ℕ → ℕ → ℕ) (op : Inst) (a b c v : ℕ) (ws : List ℕ)
      → (a < reg_count) × (b < reg_count) × (c < reg_count)
      → f (m.iregisters b) (m.iregisters c) ≡ v
      → IsStack base m.stack_memory m.stack_top ws
      → Yields
          (Refines base m (update m.iregisters a v, ws))
          (binary_d f (instruction op (a ∷ b ∷ c ∷ []) 0) m)
  unfolding binary_d instruction
  binary_d-Refines f op a b c v ws fits value h =
      let byte_a : a % 256 ≡ a = omega arith in
      let byte_b : b % 256 ≡ b = omega arith in
      let byte_c : c % 256 ≡ c = omega arith in
      rw (byte_a, byte_b, byte_c, lt→ltb _ _ fits.0, lt→ltb _ _ fits.1, lt→ltb _ _ fits.2)
        (ap (update m.iregisters a) value, h, (refl, refl), refl, refl, omega arith)

  -- Every instruction does what the specification says.
  pub execute_inst-Refines :
      (host : Host) (op : StackOp) (ws : List ℕ) {s : WordStack}
      → InRange op
      → m.stack_top + 8 ≤ stack_size
      → IsStack base m.stack_memory m.stack_top ws
      → run_op op (m.iregisters, ws) ≡ some s
      → Yields (Refines base m s) (dispatch host (operation_of (stack_inst op)) (stack_inst op) m)
  unfolding dispatch execute_inst operation_of make_push make_pop make_set make_inc make_dec
      make_add exec_add make_sub exec_sub make_mul exec_mul make_and exec_and make_or exec_or
      make_cmpe exec_cmpe make_cmpg exec_cmpg make_cmpl exec_cmpl make_cmpeg exec_cmpeg make_cmpel
      exec_cmpel
  execute_inst-Refines host (push_op r) ws fits room h e =
      rw (← some-injective _ _ e) (exec_push-Refines r ws fits room h)
  execute_inst-Refines host (pop_op r) [] fits room h e = absurd (cc)
  execute_inst-Refines host (pop_op r) (w ∷ ws) fits room h e =
      rw (← some-injective _ _ e) (exec_pop-Refines r w ws fits (omega arith) h)
  execute_inst-Refines host (set_op r n) ws fits room h e =
      rw (← some-injective _ _ e) (exec_set-Refines r n ws fits.0 fits.1 h)
  execute_inst-Refines host (inc_op r) ws fits room h e =
      rw (← some-injective _ _ e) (exec_inc-Refines r ws fits h)
  execute_inst-Refines host (dec_op r) ws fits room h e =
      rw (← some-injective _ _ e) (exec_dec-Refines r ws fits h)
  execute_inst-Refines host (binary_op plus a b c) ws fits room h e =
      rw (← some-injective _ _ e) (binary_d-Refines _ add a b c _ ws fits refl h)
  execute_inst-Refines host (binary_op minus a b c) ws fits room h e = rw (← some-injective _ _ e) (
      binary_d-Refines _ sub a b c _ ws fits
        (word_minus_lem (m.iregisters b) (m.iregisters c) (d_fits b) (d_fits c)) h)
  execute_inst-Refines host (binary_op times a b c) ws fits room h e =
      rw (← some-injective _ _ e) (binary_d-Refines _ mul a b c _ ws fits refl h)
  execute_inst-Refines host (binary_op both a b c) ws fits room h e =
      rw (← some-injective _ _ e) (binary_d-Refines _ and a b c _ ws fits (ground arith) h)
  execute_inst-Refines host (binary_op either a b c) ws fits room h e =
      rw (← some-injective _ _ e) (binary_d-Refines _ or a b c _ ws fits (ground arith) h)
  execute_inst-Refines host (binary_op equals a b c) ws fits room h e =
      rw (← some-injective _ _ e) (binary_d-Refines _ cmpe a b c _ ws fits (ground arith) h)
  execute_inst-Refines host (binary_op greater a b c) ws fits room h e =
      rw (← some-injective _ _ e) (binary_d-Refines _ cmpg a b c _ ws fits (ground arith) h)
  execute_inst-Refines host (binary_op less a b c) ws fits room h e =
      rw (← some-injective _ _ e) (binary_d-Refines _ cmpl a b c _ ws fits (ground arith) h)
  execute_inst-Refines host (binary_op at_least a b c) ws fits room h e =
      rw (← some-injective _ _ e) (binary_d-Refines _ cmpeg a b c _ ws fits (ground arith) h)
  execute_inst-Refines host (binary_op at_most a b c) ws fits room h e =
      rw (← some-injective _ _ e) (binary_d-Refines _ cmpel a b c _ ws fits (ground arith) h)
