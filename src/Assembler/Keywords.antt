-- ===== src/Assembler/Keywords.antt =====
-- The table `KEYWORDS` and `is_keyword`.
pub mod Table
pub mod Mnemonics
use c_at.Base.{ℕ, ◌+◌, List, [], ◌∷◌, Option, none, some, Bytes, codes, str_eq, if◌then◌else◌}

-- The word with index 19 ends in a space, as in the source.
abbrev pub keywords : List Bytes
keywords =
    codes "halt"
    ∷ codes "entry"
    ∷ codes "dload"
    ∷ codes "fload"
    ∷ codes "dsave"
    ∷ codes "fsave"
    ∷ codes "set"
    ∷ codes "fset"
    ∷ codes "push"
    ∷ codes "pop"
    ∷ codes "rec"
    ∷ codes "call"
    ∷ codes "getac"
    ∷ codes "inc"
    ∷ codes "dec"
    ∷ codes "add"
    ∷ codes "sub"
    ∷ codes "div"
    ∷ codes "mul"
    ∷ codes "fadd "
    ∷ codes "fsub"
    ∷ codes "fdiv"
    ∷ codes "fmul"
    ∷ codes "and"
    ∷ codes "or"
    ∷ codes "cu2i"
    ∷ codes "ci2u"
    ∷ codes "cf2i"
    ∷ codes "ci2f"
    ∷ codes "cu2f"
    ∷ codes "cf2u"
    ∷ codes "cmpe"
    ∷ codes "cmpeg"
    ∷ codes "cmpel"
    ∷ codes "cmpg"
    ∷ codes "cmpl"
    ∷ codes "fcmpe"
    ∷ codes "fcmpeg"
    ∷ codes "fcmpel"
    ∷ codes "fcmpg"
    ∷ codes "fcmpl"
    ∷ codes "jmp"
    ∷ codes "ejmp"
    ∷ codes "nejmp"
    ∷ codes "rjmp"
    ∷ codes "erjmp"
    ∷ codes "nerjmp"
    ∷ codes "print"
    ∷ codes "regdump"
    ∷ codes "ret"
    ∷ codes "nop"
    ∷ []

-- The index of the first word equal to `keyword`, counted from `i`.
unfoldable pub find_keyword : Bytes → ℕ → List Bytes → Option ℕ
find_keyword keyword i [] = none
find_keyword keyword i (k ∷ ks) =
    if str_eq k keyword then some i else find_keyword keyword (i + 1) ks

-- `is_keyword`; `NONE` is `none`.
unfoldable pub is_keyword : Bytes → Option ℕ
unfolding find_keyword str_eq
is_keyword keyword = find_keyword keyword 0 keywords
