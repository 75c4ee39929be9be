-- ===== src/Testing/Programs.antt =====
-- The byte code programs of src/testing/test_list.c.
use c_at.Base.{List, [], ◌∷◌}
use c_at.Inst.Defs.{Instruction}
use c_at.Inst.Macros.{
  make_dsave, make_push, make_and, make_fadd, make_dec, make_nejmp, make_or, make_rec,
  make_reg_dump, make_fset, make_pop, make_inc, make_cf2i, make_print, make_add, make_set,
  make_call, make_ret,
}

abbrev pub simple_loop : List Instruction
simple_loop =
    make_set 0 0
    ∷ make_set 1 1
    ∷ make_set 2 10
    ∷ make_set 3 4
    ∷ make_reg_dump (0 ∷ [])
    ∷ make_add (0 ∷ 0 ∷ 1 ∷ [])
    ∷ make_nejmp 3 0 2
    ∷ make_ret (0 ∷ [])
    ∷ []

abbrev pub and_or : List Instruction
and_or =
    make_set 1 0
    ∷ make_set 2 1
    ∷ make_or (0 ∷ 1 ∷ 2 ∷ [])
    ∷ make_reg_dump (0 ∷ [])
    ∷ make_and (0 ∷ 1 ∷ 2 ∷ [])
    ∷ make_reg_dump (0 ∷ [])
    ∷ make_ret (0 ∷ [])
    ∷ []

abbrev pub inc_dec : List Instruction
inc_dec =
    make_inc (0 ∷ [])
    ∷ make_inc (0 ∷ [])
    ∷ make_inc (0 ∷ [])
    ∷ make_inc (0 ∷ [])
    ∷ make_reg_dump (0 ∷ [])
    ∷ make_dec (0 ∷ [])
    ∷ make_dec (0 ∷ [])
    ∷ make_reg_dump (0 ∷ [])
    ∷ make_ret (0 ∷ [])
    ∷ []

abbrev pub print_program : List Instruction
print_program =
    make_set 0 0
    ∷ make_set 1 0x0A6C6F6C
    ∷ make_dsave (1 ∷ 0 ∷ [])
    ∷ make_set 0 1
    ∷ make_set 1 0
    ∷ make_set 2 4
    ∷ make_print
    ∷ make_ret (1 ∷ [])
    ∷ []

abbrev pub function_call : List Instruction
function_call =
    make_set 0 44
    ∷ make_set 1 22
    ∷ make_rec
    ∷ make_push (0 ∷ [])
    ∷ make_push (1 ∷ [])
    ∷ make_call 7
    ∷ make_ret []
    ∷ make_pop (0 ∷ [])
    ∷ make_pop (1 ∷ [])
    ∷ make_add (0 ∷ 0 ∷ 1 ∷ [])
    ∷ make_reg_dump (0 ∷ [])
    ∷ make_ret (0 ∷ [])
    ∷ []

abbrev pub recursive_function_call : List Instruction
recursive_function_call =
    make_set 0 0
    ∷ make_rec
    ∷ make_push (0 ∷ [])
    ∷ make_call 5
    ∷ make_ret (0 ∷ [])
    ∷ make_pop []
    ∷ make_set 1 1
    ∷ make_set 2 5
    ∷ make_add (0 ∷ 0 ∷ 1 ∷ [])
    ∷ make_reg_dump (0 ∷ [])
    ∷ make_nejmp 12 0 2
    ∷ make_ret (0 ∷ [])
    ∷ make_rec
    ∷ make_push (0 ∷ [])
    ∷ make_call 5
    ∷ make_ret (0 ∷ [])
    ∷ []

-- The float literal 10.5 is the bit pattern of that single-precision number.
abbrev pub casting_float_to_int : List Instruction
casting_float_to_int =
    make_fset 0 0x41280000
    ∷ make_fset 1 0x41280000
    ∷ make_fadd (0 ∷ 0 ∷ 1 ∷ [])
    ∷ make_cf2i (1 ∷ 0 ∷ [])
    ∷ make_ret (1 ∷ [])
    ∷ []
