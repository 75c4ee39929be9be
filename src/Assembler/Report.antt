-- ===== src/Assembler/Report.antt =====
-- `print_labels` of src/assembler/basic_assembler.c.
use c_at.Base.{
  some, fault, none, ◌++◌, ◌∷◌, [], ok, codes, null_pointer, ◌>>=◌, Bytes, List, Result,
}
use c_at.Assembler.Line.{Label}
use c_at.Disassembler.Show.{show_int}

-- `%s` of a null pointer is a fault.
unfoldable pub print_labels : List Label → Result Bytes
unfolding show_int
print_labels [] = ok []
print_labels (l ∷ ls) = elim l.name [
  | none ↦ fault null_pointer
  | some name ↦ print_labels ls >>= λ rest. ok (
      codes "\t label '"
      ++ (name ++ (codes "' \t@address: [ " ++ (show_int l.address ++ (codes " ] \n" ++ rest)))))
]
