-- ===== src/Machine/Memory.antt =====
-- `push_decimal`, `pop_decimal` and the load and save functions of src/vm/set.c. `memcpy` of a
-- 4-byte value is little-endian, as on the x86-64 that the project targets; outside the array it
-- is undefined.
pub mod Laws
use c_at.Base.{◌>>◌, ℕ, ◌+◌, ◌-◌, ◌*◌, ◌/◌, ◌%◌, ◌^◌, update, leb, Result, ok, guard, out_of_bounds}
use c_at.Machine.Defs.{stack_size, size_mod}

-- `memcpy(&memory[address], &value, 4)` and `memcpy(&value, &memory[address], 4)`, in bounds.
unfoldable pub put_word : (ℕ → ℕ) → ℕ → ℕ → ℕ → ℕ
put_word memory a v =
    update
      (update (update (update memory a (v % 256)) (a + 1) (v / 2 ^ 8 % 256)) (a + 2)
        (v / 2 ^ 16 % 256))
      (a + 3) (v / 2 ^ 24 % 256)

unfoldable pub get_word : (ℕ → ℕ) → ℕ → ℕ
get_word memory a =
    memory a + memory (a + 1) * 2 ^ 8 + memory (a + 2) * 2 ^ 16 + memory (a + 3) * 2 ^ 24

abbrev pub in_stack : ℕ → Result (Unit {0})
in_stack a = guard (leb (a + 4) stack_size) out_of_bounds

unfoldable pub push_decimal : (ℕ → ℕ) → ℕ → ℕ → Result ((ℕ → ℕ) × ℕ)
push_decimal memory top value = do
  let top' = (top + 4) % size_mod
  in_stack top'
  ok (put_word memory top' value, top')

unfoldable pub pop_decimal : (ℕ → ℕ) → ℕ → Result (ℕ × ℕ)
pop_decimal memory top = do in_stack top; ok (get_word memory top, (top + size_mod - 4) % size_mod)

unfoldable pub load_decimal : (ℕ → ℕ) → ℕ → Result ℕ
load_decimal memory address = do in_stack address; ok (get_word memory address)

unfoldable pub save_decimal : (ℕ → ℕ) → ℕ → ℕ → Result (ℕ → ℕ)
save_decimal memory address value = do in_stack address; ok (put_word memory address value)

-- A `float` moves as its four bytes.
unfoldable pub load_float : (ℕ → ℕ) → ℕ → Result ℕ
load_float memory address = do in_stack address; ok (get_word memory address)

unfoldable pub save_float : (ℕ → ℕ) → ℕ → ℕ → Result (ℕ → ℕ)
save_float memory address value = do in_stack address; ok (put_word memory address value)
