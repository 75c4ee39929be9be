-- ===== src/Exec/Laws/Registers.antt =====
-- Arithmetic on the integer registers, and the casts.
use c_at.Base.{
  leb, not, ◌||◌, ltb, arith, update, ◌==◌, ◌>>=◌, ok, of_bool, Yields, ◌≢◌, lt→ltb, ◌≡◌, ◌<◌,
  Result, ℕ,
}
use c_at.Machine.Defs.{reg_count, Machine}
use c_at.Inst.Defs.{Instruction}
use c_at.Exec.Integer.{
  exec_inc, exec_cmpeg, exec_cmpl, exec_sub, exec_add, exec_cmpe, exec_dec, exec_cmpel, exec_cmpg,
  binary_d,
}
use c_at.Machine.State.{IsValid}

-- What an integer operation may change: the one register `r`, which gets `a`.
abbrev pub SetsOnly : ℕ → ℕ → Machine → Result Machine → Type 0
SetsOnly r a m o = o ≡ ok (record m { iregisters = update m.iregisters r a })

module _ (i : Instruction) (m : Machine) (h₀ : i.reg0 < reg_count) (h₁ : i.reg1 < reg_count)
    (h₂ : i.reg2 < reg_count) where
  -- `f(d_reg[r1], d_reg[r2])` into `d_reg[r0]`, for any `f`.
  pub binary_d_lem :
      (f : ℕ → ℕ → ℕ)
      → SetsOnly i.reg0 (f (m.iregisters i.reg1) (m.iregisters i.reg2)) m (binary_d f i m)
  unfolding binary_d
  binary_d_lem f = rw (lt→ltb _ _ h₁, lt→ltb _ _ h₂, lt→ltb _ _ h₀)

-- In a valid machine, with registers in range, `sub` takes back what `add` added, wrapping
-- included, where the sum is not put in the register of the second operand.
pub exec_sub-exec_add :
    (i j : Instruction) (m : Machine)
    → IsValid m
    → i.reg0 < reg_count
    → i.reg1 < reg_count
    → i.reg2 < reg_count
    → i.reg0 ≢ i.reg2
    → j.reg0 ≡ i.reg0
    → j.reg1 ≡ i.reg0
    → j.reg2 ≡ i.reg2
    → Yields (λ m'. m'.iregisters i.reg0 ≡ m.iregisters i.reg1) (exec_add i m >>= exec_sub j)
unfolding exec_add exec_sub binary_d
exec_sub-exec_add i j m v h₀ h₁ h₂ ne e₀ e₁ e₂ = ground (arith, v.d_fits i.reg1, v.d_fits i.reg2)

-- In a valid machine `inc` and `dec` of a register in range undo each other in both orders, at
-- the ends of the range too.
pub exec_dec-exec_inc :
    (i : Instruction) (m : Machine)
    → IsValid m
    → i.reg0 < reg_count
    → (Yields (λ m'. m'.iregisters i.reg0 ≡ m.iregisters i.reg0) (exec_inc i m >>= exec_dec i))
      × (Yields (λ m'. m'.iregisters i.reg0 ≡ m.iregisters i.reg0) (exec_dec i m >>= exec_inc i))
unfolding exec_inc exec_dec
exec_dec-exec_inc i m v h = ground (arith, v.d_fits i.reg0)

-- The five comparisons of registers in range store 1 or 0, change nothing else, and agree with
-- the order of the registers as unsigned numbers.
pub comparisons_agree :
    (i : Instruction) (m : Machine)
    → i.reg0 < reg_count
    → i.reg1 < reg_count
    → i.reg2 < reg_count
    → let a = m.iregisters i.reg1 in
      let b = m.iregisters i.reg2 in
      SetsOnly i.reg0 (of_bool (a == b)) m (exec_cmpe i m)
      × SetsOnly i.reg0 (of_bool (ltb a b || a == b)) m (exec_cmpel i m)
      × SetsOnly i.reg0 (of_bool (ltb b a || a == b)) m (exec_cmpeg i m)
      × SetsOnly i.reg0 (of_bool (not (leb b a))) m (exec_cmpl i m)
      × SetsOnly i.reg0 (of_bool (not (leb a b))) m (exec_cmpg i m)
unfolding exec_cmpe exec_cmpel exec_cmpeg exec_cmpl exec_cmpg binary_d
comparisons_agree i m h₀ h₁ h₂ = ground arith
