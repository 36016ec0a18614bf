-- ===== src/Classfile/Code.antt =====
-- The walk over a method's instructions (graph_core/bytecode/classfile.py: the opcode tables,
-- `_init_operand_lengths`, `_scan_code`).
pub mod Assembly
pub mod Halting
pub mod Lengths
pub mod RoundTrip
use graph_ingest_test.Prelude.{
  ℕ, zero, suc, ◌+◌, ◌-◌, ◌*◌, ◌%◌, ◌^◌, ◌≡◌, refl, List, [], ◌∷◌, ◌++◌, Option, none, some, Bool,
  true, false, not, ◌&&◌, ◌||◌, length, take, drop, get_elem?, ltb, leb, ◌==◌, if◌then◌else◌, Text,
}
use graph_ingest_test.Prelude.Result.{
  Result, ok, err, class_file_error, struct_error, out_of_fuel, ◌>>=◌,
}
use graph_ingest_test.Prelude.Int.{ℤ, pos, negsuc, pos_part, neg_part, sub_ℕ, max_zero}
use graph_ingest_test.Classfile.Reader.{unpack_h, unpack_i}
use graph_ingest_test.Classfile.Access.{Pool, member_ref, class_name, invokedynamic_nat}
use graph_ingest_test.Classfile.Shapes.{
  InvokeOp, invokevirtual, invokespecial, invokestatic, invokeinterface, invokedynamic, FieldOp,
  getstatic, putstatic, getfield, putfield, MethodInfo,
}
use graph_ingest_test.Classfile.Lines.{LineTable, line_for_offset}

-- `_INVOKE_OPS`
pub invoke_op : ℕ → Option InvokeOp
invoke_op op =
    if op == 0xb6
    then some invokevirtual
    else if op == 0xb7
    then some invokespecial
    else if op == 0xb8
    then some invokestatic
    else if op == 0xb9
    then some invokeinterface
    else if op == 0xba
    then some invokedynamic
    else none

-- `_FIELD_OPS`
pub field_op : ℕ → Option FieldOp
field_op op =
    if op == 0xb2
    then some getstatic
    else if op == 0xb3
    then some putstatic
    else if op == 0xb4
    then some getfield
    else if op == 0xb5
    then some putfield
    else none

one_byte : ℕ → Bool
one_byte op =
    op == 0x10
    || op == 0x12
    || (leb 0x15 op && leb op 0x19)
    || (leb 0x36 op && leb op 0x3a)
    || op == 0xa9
    || op == 0xbc

two_bytes : ℕ → Bool
two_bytes op =
    op == 0x11
    || op == 0x13
    || op == 0x14
    || op == 0x84
    || (leb 0xb2 op && leb op 0xb8)
    || op == 0xbb
    || op == 0xbd
    || op == 0xc0
    || op == 0xc1
    || op == 0xc6
    || op == 0xc7

-- `_OPERAND_LEN` after its initialisation, the later assignments first; -1 is `none`.
pub operand_len : ℕ → Option ℕ
unfolding one_byte two_bytes
operand_len op =
    if op == 0xaa || op == 0xab || op == 0xc4
    then none
    else if op == 0xb9 || op == 0xba || op == 0xc8 || op == 0xc9
    then some 4
    else if op == 0xc5
    then some 3
    else if leb 0x99 op && ltb op 0xa9
    then some 2
    else if two_bytes op
    then some 2
    else if one_byte op
    then some 1
    else some 0

-- A 32-bit word as the signed number that it stands for.
unfoldable pub signed : ℕ → ℤ
signed n = if ltb n (2 ^ 31) then pos n else negsuc (2 ^ 32 - n - 1)

-- `struct.unpack(">H", code[pos:pos + 2])[0]`
pub u16_at : List ℕ → ℕ → Result ℕ
u16_at code at = unpack_h (take 2 (drop at code))

-- `struct.unpack(">i", code[pos:pos + 4])[0]`
pub i32_at : List ℕ → ℕ → Result ℤ
i32_at code at = do n ← unpack_i (take 4 (drop at code)); ok (signed n)

-- `code[pos]` where `pos < len(code)`.
abbrev pub or_zero : Option ℕ → ℕ
or_zero none = 0
or_zero (some n) = n

abbrev pub byte_at : List ℕ → ℕ → ℕ
byte_at code at = or_zero (get_elem? code at)

-- `(4 - (pos % 4)) % 4`
pub padding : ℕ → ℕ
padding at = (4 - at % 4) % 4

-- `max(0, high - low + 1)`
pub jump_count : ℤ → ℤ → ℕ
jump_count low high =
    max_zero (sub_ℕ (pos_part high + neg_part low + 1) (neg_part high + pos_part low))

-- The owner, name and descriptor of a call; none has an owner for invokedynamic.
unfoldable pub call_target : Pool → InvokeOp → ℕ → Result (Text × Text × Text)
call_target pool invokedynamic index = do
  (name, desc) ← invokedynamic_nat pool index
  ok ([], name, desc)
call_target pool _ index = member_ref pool index

-- invokeinterface and invokedynamic have two operand bytes more.
abbrev pub invoke_len : InvokeOp → ℕ
invoke_len invokeinterface = 4
invoke_len invokedynamic = 4
invoke_len _ = 2

abbrev pub add_call : LineTable → InvokeOp → ℕ → Text × Text × Text → MethodInfo → MethodInfo
add_call lines opcode offset (owner, name, desc) m = record m {
  invocations =
      m.invocations
      ++ (record {
        opcode = opcode;
        owner = owner;
        name = name;
        descriptor = desc;
        line = line_for_offset lines offset;
        offset = offset;
      }
          ∷ []);
}

abbrev pub add_access : LineTable → FieldOp → ℕ → Text × Text × Text → MethodInfo → MethodInfo
add_access lines opcode offset (owner, name, desc) m = record m {
  field_accesses =
      m.field_accesses
      ++ (record {
        opcode = opcode;
        owner = owner;
        name = name;
        descriptor = desc;
        line = line_for_offset lines offset;
      }
          ∷ []);
}

abbrev pub add_new : Text → MethodInfo → MethodInfo
add_new class m = record m { instantiations = m.instantiations ++ (class ∷ []) }

-- wide, tableswitch and lookupswitch: the position behind them.
pub skip_variable : List ℕ → ℕ → ℕ → Result ℕ
skip_variable code op start =
    if op == 0xc4
    then (if ltb start (length code)
        then ok (if byte_at code start == 0x84 then start + 5 else start + 3)
        else err class_file_error)
    else (let base = start + padding start in
        if op == 0xaa
        then (do
          low ← i32_at code (base + 4)
          high ← i32_at code (base + 8)
          ok (base + (12 + jump_count low high * 4)))
        else (do npairs ← i32_at code (base + 4); ok (base + (8 + max_zero npairs * 8))))

module _ (pool : Pool) (lines : LineTable) (code : List ℕ) where
  -- The branches of the loop's body, by what the tables say of the opcode: `_INVOKE_OPS`,
  -- `_FIELD_OPS`, whether it is `_NEW_OP`, and `_OPERAND_LEN`.
  pub scan_as :
      Option InvokeOp
      → Option FieldOp
      → Bool
      → Option ℕ
      → ℕ
      → ℕ
      → MethodInfo
      → Result (ℕ × MethodInfo)
  scan_as (some opcode) field is_new len offset op m = do
    index ← u16_at code (suc offset)
    target ← call_target pool opcode index
    ok (suc offset + invoke_len opcode, add_call lines opcode offset target m)
  scan_as none (some opcode) is_new len offset op m = do
    index ← u16_at code (suc offset)
    target ← member_ref pool index
    ok (suc offset + 2, add_access lines opcode offset target m)
  scan_as none none true len offset op m = do
    index ← u16_at code (suc offset)
    class ← class_name pool index
    ok (suc offset + 2, add_new class m)
  scan_as none none false (some n) offset op m = ok (suc offset + n, m)
  scan_as none none false none offset op m = do
    next ← skip_variable code op (suc offset)
    ok (next, m)

  -- The body of the loop for the instruction `op` at `offset`: the next position and the method.
  pub scan_op : ℕ → ℕ → MethodInfo → Result (ℕ × MethodInfo)
  unfolding scan_as
  scan_op offset op m =
      scan_as (invoke_op op) (field_op op) (op == 0xbb) (operand_len op) offset op m

  -- `while pos < end`. Each round moves `pos` on.
  pub scan_loop : ℕ → ℕ → MethodInfo → Result MethodInfo
  scan_loop zero offset m = if ltb offset (length code) then err out_of_fuel else ok m
  scan_loop (suc fuel) offset m = elim (ltb offset (length code)) [
    | false ↦ ok m
    | true ↦ (do (next, m') ← scan_op offset (byte_at code offset) m; scan_loop fuel next m')
  ]

pub scan_code : List ℕ → Pool → LineTable → MethodInfo → Result MethodInfo
scan_code code pool lines m = scan_loop pool lines code (length code) 0 m
