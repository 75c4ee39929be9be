-- ===== src/Assembler/Keywords/Mnemonics.antt =====
-- The order of the words in the table against the order of the enumerators.
use c_at.Base.{arith, [], ◌∷◌, refl, some, ◌++◌, ◌≡◌, ◌≢◌, Bytes, codes}
use c_at.Inst.Defs.{
  halt, entry, dload, fload, dsave, fsave, set, fset, push, pop, rec, call, getac, inc, dec, add,
  sub, div, mul, fadd, fsub, fdiv, fmul, and, or, cu2i, ci2u, cf2i, ci2f, cu2f, cf2u, cmpe, cmpeg,
  cmpel, cmpg, cmpl, fcmpe, fcmpeg, fcmpel, fcmpg, fcmpl, jmp, ejmp, nejmp, rjmp, erjmp, nerjmp,
  print, reg_dump, ret, nop, Inst, inst_code,
}
use c_at.Assembler.Keywords.Table.{is_keyword_iff}
use c_at.Tokenizer.Next.{word_character}
use c_at.Tokenizer.Words.{AllPass}
use c_at.Assembler.Keywords.{is_keyword}

-- The name of an instruction, as the enumerator has it.
unfoldable pub mnemonic : Inst → Bytes
mnemonic halt = codes "halt"
mnemonic entry = codes "entry"
mnemonic dload = codes "dload"
mnemonic fload = codes "fload"
mnemonic dsave = codes "dsave"
mnemonic fsave = codes "fsave"
mnemonic set = codes "set"
mnemonic fset = codes "fset"
mnemonic push = codes "push"
mnemonic pop = codes "pop"
mnemonic rec = codes "rec"
mnemonic call = codes "call"
mnemonic getac = codes "getac"
mnemonic inc = codes "inc"
mnemonic dec = codes "dec"
mnemonic add = codes "add"
mnemonic sub = codes "sub"
mnemonic div = codes "div"
mnemonic mul = codes "mul"
mnemonic fadd = codes "fadd"
mnemonic fsub = codes "fsub"
mnemonic fdiv = codes "fdiv"
mnemonic fmul = codes "fmul"
mnemonic and = codes "and"
mnemonic or = codes "or"
mnemonic cu2i = codes "cu2i"
mnemonic ci2u = codes "ci2u"
mnemonic cf2i = codes "cf2i"
mnemonic ci2f = codes "ci2f"
mnemonic cu2f = codes "cu2f"
mnemonic cf2u = codes "cf2u"
mnemonic cmpe = codes "cmpe"
mnemonic cmpeg = codes "cmpeg"
mnemonic cmpel = codes "cmpel"
mnemonic cmpg = codes "cmpg"
mnemonic cmpl = codes "cmpl"
mnemonic fcmpe = codes "fcmpe"
mnemonic fcmpeg = codes "fcmpeg"
mnemonic fcmpel = codes "fcmpel"
mnemonic fcmpg = codes "fcmpg"
mnemonic fcmpl = codes "fcmpl"
mnemonic jmp = codes "jmp"
mnemonic ejmp = codes "ejmp"
mnemonic nejmp = codes "nejmp"
mnemonic rjmp = codes "rjmp"
mnemonic erjmp = codes "erjmp"
mnemonic nerjmp = codes "nerjmp"
mnemonic print = codes "print"
mnemonic reg_dump = codes "regdump"
mnemonic ret = codes "ret"
mnemonic nop = codes "nop"

-- The name of an instruction other than `fadd` is a keyword, and its index is the enumerator.
pub is_keyword-mnemonic : (op : Inst) → op ≢ fadd → is_keyword (mnemonic op) ≡ some (inst_code op)
unfolding is_keyword mnemonic inst_code
is_keyword-mnemonic halt ne = refl
is_keyword-mnemonic entry ne = refl
is_keyword-mnemonic dload ne = refl
is_keyword-mnemonic fload ne = refl
is_keyword-mnemonic dsave ne = refl
is_keyword-mnemonic fsave ne = refl
is_keyword-mnemonic set ne = refl
is_keyword-mnemonic fset ne = refl
is_keyword-mnemonic push ne = refl
is_keyword-mnemonic pop ne = refl
is_keyword-mnemonic rec ne = refl
is_keyword-mnemonic call ne = refl
is_keyword-mnemonic getac ne = refl
is_keyword-mnemonic inc ne = refl
is_keyword-mnemonic dec ne = refl
is_keyword-mnemonic add ne = refl
is_keyword-mnemonic sub ne = refl
is_keyword-mnemonic div ne = refl
is_keyword-mnemonic mul ne = refl
is_keyword-mnemonic fadd ne = absurd (ne refl)
is_keyword-mnemonic fsub ne = refl
is_keyword-mnemonic fdiv ne = refl
is_keyword-mnemonic fmul ne = refl
is_keyword-mnemonic and ne = refl
is_keyword-mnemonic or ne = refl
is_keyword-mnemonic cu2i ne = refl
is_keyword-mnemonic ci2u ne = refl
is_keyword-mnemonic cf2i ne = refl
is_keyword-mnemonic ci2f ne = refl
is_keyword-mnemonic cu2f ne = refl
is_keyword-mnemonic cf2u ne = refl
is_keyword-mnemonic cmpe ne = refl
is_keyword-mnemonic cmpeg ne = refl
is_keyword-mnemonic cmpel ne = refl
is_keyword-mnemonic cmpg ne = refl
is_keyword-mnemonic cmpl ne = refl
is_keyword-mnemonic fcmpe ne = refl
is_keyword-mnemonic fcmpeg ne = refl
is_keyword-mnemonic fcmpel ne = refl
is_keyword-mnemonic fcmpg ne = refl
is_keyword-mnemonic fcmpl ne = refl
is_keyword-mnemonic jmp ne = refl
is_keyword-mnemonic ejmp ne = refl
is_keyword-mnemonic nejmp ne = refl
is_keyword-mnemonic rjmp ne = refl
is_keyword-mnemonic erjmp ne = refl
is_keyword-mnemonic nerjmp ne = refl
is_keyword-mnemonic print ne = refl
is_keyword-mnemonic reg_dump ne = refl
is_keyword-mnemonic ret ne = refl
is_keyword-mnemonic nop ne = refl

pass-ne-space : (w v : Bytes) → AllPass word_character w → w ≢ v ++ codes " "
unfolding word_character
pass-ne-space [] [] h e = cc
pass-ne-space [] (d ∷ v) h e = cc
pass-ne-space (c ∷ w) [] h e = let blank : c ≡ b' ' = cc in ground (arith, h.0)
pass-ne-space (c ∷ w) (d ∷ v) h e = let rest : w ≡ v ++ codes " " = cc in pass-ne-space w v h.1 rest

-- No word of letters and digits is the keyword of `fadd`.
pub is_keyword-ne-fadd :
    (w : Bytes) → AllPass word_character w → is_keyword w ≢ some (inst_code fadd)
unfolding inst_code
is_keyword-ne-fadd w h e =
    let entry_is : some (codes "fadd ") ≡ some w = (is_keyword_iff w 19).0 e in
    pass-ne-space w (codes "fadd") h (cc)
