-- ===== src/Examples/Texts.antt =====
-- Examples of tokens and keywords.
use c_at.Base.{◌≢◌, some, ◌==◌, ok, ◌≡◌, if◌then◌else◌, codes, Holds, refl, arith}
use c_at.Assembler.Keywords.Mnemonics.{is_keyword-ne-fadd}
use c_at.Tokenizer.Words.{token_next_unterminated}
use c_at.Tokenizer.Next.{next_symbol, word_character, token_next}
use c_at.Assembler.Emit.{assemble}
use c_at.Tokenizer.Defs.{is_character, word}
use c_at.Assembler.Keywords.{is_keyword}
use c_at.Assembler.Emit.Operations.{operation_of-assemble, emitted}
use c_at.Tokenizer.Progress.{Advances, token_next-Advances}
use c_at.Inst.Defs.{fadd, getac, inst_code, operation_of}

token_next-Advances_example : Holds (Advances 3) (token_next (λ _. 0) (codes ">= "))
token_next-Advances_example = token_next-Advances (λ _. 0) b'>' (codes "= ")

token_next_unterminated_example :
    token_next (λ k. if k == 3 then b'i' else 0) (codes "add r1")
    ≡ ok (record { literall = some (codes "addi"); kind = word }, 3)
unfolding is_character word_character next_symbol
token_next_unterminated_example =
    token_next_unterminated (λ k. if k == 3 then b'i' else 0) b'a' (codes "dd") (codes " r1") refl
      (refl, (refl, tt)) refl (omega arith) (omega arith) refl

is_keyword-ne-fadd_example : is_keyword (codes "fadd") ≢ some (inst_code fadd)
unfolding word_character
is_keyword-ne-fadd_example = is_keyword-ne-fadd (codes "fadd") (refl, (refl, (refl, (refl, tt))))

operation_of-assemble_example : operation_of (assemble getac 3 0 0 0 0) ≡ some (emitted getac)
operation_of-assemble_example = operation_of-assemble getac 3 0 0 0 0
