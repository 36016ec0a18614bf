-- ===== src/Classfile/Code/Lengths.antt =====
-- The operand lengths of the opcodes (graph_core/bytecode/classfile.py, `_init_operand_lengths`)
-- against JVMS chapter 6.
use graph_ingest_test.Prelude.{
  passes_under, passes_under_lem, ℕ, ◌<◌, ◌≡◌, refl, ap, Option, none, some, Bool, true, false,
  ◌==◌, ==_iff,
}
use graph_ingest_test.Classfile.Code.{operand_len}
use graph_ingest_test.Classfile.Code.Assembly.{jvms_length}

-- Both are variable, or both have the same length.
same_length : Option ℕ → Option ℕ → Bool
same_length none none = true
same_length (some a) (some b) = a == b
same_length _ _ = false

same_length→eq : (a b : Option ℕ) → same_length a b ≡ true → a ≡ b
unfolding same_length
same_length→eq none none h = refl
same_length→eq none (some b) h = cc
same_length→eq (some a) none h = cc
same_length→eq (some a) (some b) h = ap some ((==_iff a b).0 h)

-- For every opcode the operand length that the code uses is that of JVMS chapter 6.
pub operand_len-eq : (op : ℕ) → op < 256 → operand_len op ≡ jvms_length op
operand_len-eq op h = same_length→eq _ _ (
    passes_under_lem (λ n. same_length (operand_len n) (jvms_length n)) 256 op h
      (unfold passes_under same_length operand_len jvms_length in refl))
