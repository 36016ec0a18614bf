-- ===== src/Classfile/Code/Assembly.antt =====
-- Instructions as JVMS chapter 6 lays them out, and what each contributes to a call graph: the
-- description that the walk of graph_core/bytecode/classfile.py is compared with.
use graph_ingest_test.Prelude.{
  ℕ, suc, ◌+◌, ◌*◌, ◌%◌, ◌^◌, ◌<◌, ◌≡◌, List, [], ◌∷◌, ◌++◌, Option, none, some, false, ◌⊎◌, length,
  ◌==◌, get_elem?, replicate,
}
use graph_ingest_test.Prelude.Result.{Result, ok, ◌>>=◌}
use graph_ingest_test.Prelude.Int.{pos_part, neg_part}
use graph_ingest_test.Classfile.Reader.RoundTrip.{be16, be32}
use graph_ingest_test.Classfile.Access.{Pool, member_ref, class_name}
use graph_ingest_test.Classfile.Shapes.{
  InvokeOp, invokevirtual, invokespecial, invokestatic, invokeinterface, invokedynamic, FieldOp,
  getstatic, putstatic, getfield, putfield, MethodInfo,
}
use graph_ingest_test.Classfile.Lines.{LineTable}
use graph_ingest_test.Classfile.Code.{signed, call_target, add_call, add_access, add_new}

pub data Instruction : Type 0 where
  -- an opcode with its operand bytes
  plain : ℕ → List ℕ → Instruction
  -- an index, and the two bytes that invokeinterface and invokedynamic have behind it
  invoke : InvokeOp → ℕ → ℕ → ℕ → Instruction
  access : FieldOp → ℕ → Instruction
  new : ℕ → Instruction
  -- the widened opcode and its index
  wide : ℕ → ℕ → Instruction
  wide_iinc : ℕ → ℕ → Instruction
  -- the padding, the default, low and high words, the number of jumps and their bytes
  tableswitch : List ℕ → ℕ → ℕ → ℕ → ℕ → List ℕ → Instruction
  -- the padding, the default word, the number of pairs and their bytes
  lookupswitch : List ℕ → ℕ → ℕ → List ℕ → Instruction

abbrev pub invoke_code : InvokeOp → ℕ
invoke_code invokevirtual = 0xb6
invoke_code invokespecial = 0xb7
invoke_code invokestatic = 0xb8
invoke_code invokeinterface = 0xb9
invoke_code invokedynamic = 0xba

abbrev pub field_code : FieldOp → ℕ
field_code getstatic = 0xb2
field_code putstatic = 0xb3
field_code getfield = 0xb4
field_code putfield = 0xb5

abbrev pub extra_bytes : InvokeOp → ℕ → ℕ → List ℕ
extra_bytes invokeinterface a b = a ∷ b ∷ []
extra_bytes invokedynamic a b = a ∷ b ∷ []
extra_bytes _ a b = []

abbrev pub opcode_of : Instruction → ℕ
opcode_of (plain op operands) = op
opcode_of (invoke op index a b) = invoke_code op
opcode_of (access op index) = field_code op
opcode_of (new index) = 0xbb
opcode_of (wide op index) = 0xc4
opcode_of (wide_iinc index value) = 0xc4
opcode_of (tableswitch pad d low high n jumps) = 0xaa
opcode_of (lookupswitch pad d n pairs) = 0xab

abbrev pub operands_of : Instruction → List ℕ
operands_of (plain op operands) = operands
operands_of (invoke op index a b) = be16 index ++ extra_bytes op a b
operands_of (access op index) = be16 index
operands_of (new index) = be16 index
operands_of (wide op index) = op ∷ be16 index
operands_of (wide_iinc index value) = 0x84 ∷ (be16 index ++ be16 value)
operands_of (tableswitch pad d low high n jumps) =
    pad ++ (be32 d ++ (be32 low ++ (be32 high ++ jumps)))
operands_of (lookupswitch pad d n pairs) = pad ++ (be32 d ++ (be32 n ++ pairs))

abbrev pub assemble : Instruction → List ℕ
assemble i = opcode_of i ∷ operands_of i

-- The operand lengths of JVMS chapter 6 by runs of opcodes: from 0x00 on, so many opcodes with so
-- many operand bytes each, or with none for the three of variable length.
abbrev run_of : ℕ → Option ℕ → List (Option ℕ)
run_of n x = replicate n x

abbrev pub jvms_lengths : List (Option ℕ)
jvms_lengths =
    run_of 16 (some 0)
    ++ (some 1 ∷ some 2 ∷ some 1 ∷ some 2 ∷ some 2 ∷ run_of 5 (some 1))
    ++ run_of 28 (some 0)
    ++ run_of 5 (some 1)
    ++ run_of 73 (some 0)
    ++ (some 2 ∷ run_of 20 (some 0))
    ++ run_of 16 (some 2)
    ++ (some 1 ∷ none ∷ none ∷ run_of 6 (some 0))
    ++ run_of 7 (some 2)
    ++ (some 4
        ∷ some 4
        ∷ some 2
        ∷ some 1
        ∷ some 2
        ∷ some 0
        ∷ some 0
        ∷ some 2
        ∷ some 2
        ∷ some 0
        ∷ some 0
        ∷ none
        ∷ some 3
        ∷ some 2
        ∷ some 2
        ∷ some 4
        ∷ some 4
        ∷ [])
    ++ run_of 54 (some 0)

abbrev pub length_at : Option (Option ℕ) → Option ℕ
length_at (some l) = l
length_at none = none

-- `none` for the variable lengths.
unfoldable pub jvms_length : ℕ → Option ℕ
jvms_length op = length_at (get_elem? jvms_lengths op)

-- An instruction that makes no edge has another opcode and the operand bytes of the table.
abbrev pub IsPlain : ℕ → List ℕ → Type 0
IsPlain op operands =
    (op < 256) × (op < 0xb2 ⊎ 0xbb < op) × (jvms_length op ≡ some (length operands))

-- Zero to three bytes up to a multiple of four from the start of the code.
abbrev pub IsPadding : ℕ → List ℕ → Type 0
IsPadding start pad = (length pad < 4) × ((start + length pad) % 4 ≡ 0)

-- A well-formed instruction at an offset. The jumps of a tableswitch are `high - low + 1`.
abbrev pub IsInstruction : ℕ → Instruction → Type 0
IsInstruction o (plain op operands) = IsPlain op operands
IsInstruction o (invoke op index a b) = Unit
IsInstruction o (access op index) = Unit
IsInstruction o (new index) = Unit
IsInstruction o (wide op index) = op == 0x84 ≡ false
IsInstruction o (wide_iinc index value) = Unit
IsInstruction o (tableswitch pad d low high n jumps) =
    IsPadding (suc o) pad
    × (length jumps ≡ n * 4)
    × (pos_part (signed high) + neg_part (signed low) + 1
        ≡ n + (pos_part (signed low) + neg_part (signed high)))
IsInstruction o (lookupswitch pad d n pairs) =
    IsPadding (suc o) pad × (length pairs ≡ n * 8) × (n < 2 ^ 31)

-- Each instruction is well-formed where it stands.
abbrev pub IsProgram : ℕ → List Instruction → Type 0
IsProgram o [] = Unit
IsProgram o (i ∷ is) = IsInstruction o i × IsProgram (suc o + length (operands_of i)) is

module _ (pool : Pool) (lines : LineTable) where
  -- What an instruction at offset `o` adds to the method.
  abbrev pub effect : ℕ → Instruction → MethodInfo → Result MethodInfo
  effect o (invoke op index a b) m = do
    target ← call_target pool op index
    ok (add_call lines op o target m)
  effect o (access op index) m = do
    target ← member_ref pool index
    ok (add_access lines op o target m)
  effect o (new index) m = do class ← class_name pool index; ok (add_new class m)
  effect o _ m = ok m

  abbrev pub effects : ℕ → List Instruction → MethodInfo → Result MethodInfo
  effects o [] m = ok m
  effects o (i ∷ is) m = do m' ← effect o i m; effects (suc o + length (operands_of i)) is m'
