-- ===== src/Assembler/Lines/References.antt =====
-- From a label in the source to the constant of an instruction that refers to it.
use c_at.Base.{
  ◌>>=◌, ap, inr, ◌<◌, ◌∙◌, inl, ◌+◌, str_eq, str_eq_iff, ◌≤◌, Bool-cases, ok, length, ◌≡◌, false,
  ◌∷◌, [], ◌++◌, some, ◌≢◌, ℕ, List, Bytes, refl, arith,
}
use c_at.Assembler.Lines.Defs.{
  label_list, Tidy, code_count, lines_tokens, Line, label_line, blank_line, comment_line, code_line,
}
use c_at.Assembler.Line.Labels.{assemble_line_reference, reference_token}
use c_at.Assembler.Keywords.Mnemonics.{mnemonic}
use c_at.Inst.Defs.{fadd, Inst}
use c_at.Assembler.Lines.First.{index_labels-lines}
use c_at.Assembler.Line.{Label, Build, assemble_line, find_address}
use c_at.Assembler.Emit.{get_instuction_count, assemble}
use c_at.Assembler.Labels.{label_limit, index_labels}
use c_at.Tokenizer.Defs.{word}
use c_at.Assembler.Operands.{Reg}

-- No label of the lines has the name `n`.
abbrev pub HasNoLabel : Bytes → List Line → Type 0
HasNoLabel n [] = Unit
HasNoLabel n (label_line m ∷ ls) = (m ≢ n) × HasNoLabel n ls
HasNoLabel n (code_line w operands ∷ ls) = HasNoLabel n ls
HasNoLabel n (blank_line ∷ ls) = HasNoLabel n ls
HasNoLabel n (comment_line ts ∷ ls) = HasNoLabel n ls

find_address_first :
    (n : Bytes) (address : ℕ) (labels : List Label)
    → find_address n (record { name = some n; address = address } ∷ labels) ≡ ok (some address)
unfolding find_address
find_address_first n address labels = ground (arith, (str_eq_iff n n).1 refl)

find_address_other :
    (n m : Bytes) (address : ℕ) (labels : List Label)
    → m ≢ n
    → find_address n (record { name = some m; address = address } ∷ labels) ≡ find_address n labels
unfolding find_address
find_address_other n m address labels ne = elim (Bool-cases (str_eq m n)) [
  | inl e ↦ absurd (ne ((str_eq_iff m n).0 e))
  | inr e ↦ rw e refl
]

-- `find_label` finds the first label with the name, at the number of instructions above it.
find_address-label_list :
    (n : Bytes) (before after : List Line) (lc : ℕ)
    → HasNoLabel n before
    → find_address n (label_list lc (before ++ label_line n ∷ after))
      ≡ ok (some (lc + code_count before))
find_address-label_list n [] after lc h =
    find_address_first n lc (label_list lc after) ∙ ap (λ (k : ℕ). ok (some k)) (omega arith)
find_address-label_list n (label_line m ∷ ls) after lc h =
    find_address_other n m lc (label_list lc (ls ++ label_line n ∷ after)) h.0
    ∙ find_address-label_list n ls after lc h.1
find_address-label_list n (code_line w operands ∷ ls) after lc h =
    find_address-label_list n ls after (lc + 1) h ∙ ap (λ (k : ℕ). ok (some k)) (omega arith)
find_address-label_list n (blank_line ∷ ls) after lc h = find_address-label_list n ls after lc h
find_address-label_list n (comment_line ts ∷ ls) after lc h =
    find_address-label_list n ls after lc h

-- A line of an instruction other than `fadd` with one operand, a reference of up to three
-- characters to a label of tidy lines with at most 128 labels, assembles with the labels of the
-- first pass to the instruction whose constant is the number of instructions above the first
-- label with the name, where the uninitialised `is_value` of the operand is 0.
pub assemble_line-index_labels :
    (b : Build) (junk : ℕ → Reg) (op : Inst) (c : ℕ) (name : Bytes) (before after : List Line)
    → Tidy false (before ++ label_line (c ∷ name) ∷ after)
    → length (label_list 0 (before ++ label_line (c ∷ name) ∷ after)) ≤ label_limit
    → HasNoLabel (c ∷ name) before
    → op ≢ fadd
    → get_instuction_count op ≡ 1
    → length name < 3
    → (junk 1).is_value ≡ 0
    → (index_labels (lines_tokens (before ++ label_line (c ∷ name) ∷ after)) >>= λ labels.
        assemble_line b junk labels
          (record { literall = some (mnemonic op); kind = word })
          (reference_token c name ∷ []))
      ≡ ok (assemble op 0 0 0 0 (code_count before))
assemble_line-index_labels b junk op c name before after tidy room first ne one short clear =
    let found = find_address-label_list (c ∷ name) before after 0 first in
    let none_above : 0 + code_count before ≡ code_count before = omega arith in
    rw (index_labels-lines _ tidy room)
      (assemble_line_reference b junk _ op c name ne one short clear (rw none_above at found))
