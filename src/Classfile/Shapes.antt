-- ===== src/Classfile/Shapes.antt =====
-- The parsed shapes of graph_core/bytecode/classfile.py: access flags, the dataclasses, and the
-- properties that later stages ask for.
use graph_ingest_test.Prelude.{
  ℕ, ◌/◌, ◌%◌, List, [], ◌∷◌, ◌++◌, Bool, true, false, ltb, ◌==◌, if◌then◌else◌, Text, codes,
  text_eq, starts_with, rsplit_head, rsplit_last, has_char, is_digit, is_empty, replace_char, drop,
}
use graph_ingest_test.Prelude.Int.{ℤ, negsuc, pos_part}

-- `flags & bit` for a mask of one bit, as a truth value.
abbrev pub has_flag : ℕ → ℕ → Bool
has_flag flags bit = flags / bit % 2 == 1

abbrev pub acc_private : ℕ
acc_private = 0x2

abbrev pub acc_static : ℕ
acc_static = 0x8

abbrev pub acc_bridge : ℕ
acc_bridge = 0x40

abbrev pub acc_interface : ℕ
acc_interface = 0x200

abbrev pub acc_abstract : ℕ
acc_abstract = 0x400

abbrev pub acc_synthetic : ℕ
acc_synthetic = 0x1000

pub data InvokeOp : Type 0 where
  invokevirtual invokespecial invokestatic invokeinterface invokedynamic : InvokeOp

pub data FieldOp : Type 0 where
  getstatic putstatic getfield putfield : FieldOp

-- A line is -1 where no line number table covers the offset.
abbrev pub no_line : ℤ
no_line = negsuc 0

pub record Invocation : Type 0 where
  pub opcode : InvokeOp
  pub owner : Text
  pub name : Text
  pub descriptor : Text
  pub line : ℤ
  pub offset : ℕ

pub record FieldAccess : Type 0 where
  pub opcode : FieldOp
  pub owner : Text
  pub name : Text
  pub descriptor : Text
  pub line : ℤ

pub record FieldInfo : Type 0 where
  pub name : Text
  pub descriptor : Text
  pub access_flags : ℕ

pub record MethodInfo : Type 0 where
  pub name : Text
  pub descriptor : Text
  pub access_flags : ℕ
  pub invocations : List Invocation
  pub field_accesses : List FieldAccess
  pub instantiations : List Text
  pub start_line : ℤ
  pub end_line : ℤ

pub record ClassInfo : Type 0 where
  pub name : Text
  pub super_name : Text
  pub interfaces : List Text
  pub access_flags : ℕ
  pub major_version : ℕ
  pub source_file : Text
  pub fields : List FieldInfo
  pub methods : List MethodInfo

-- FieldAccess.is_read
unfoldable pub is_read : FieldOp → Bool
is_read getfield = true
is_read getstatic = true
is_read putfield = false
is_read putstatic = false

unfoldable pub is_static : MethodInfo → Bool
is_static m = has_flag m.access_flags acc_static

unfoldable pub is_abstract : MethodInfo → Bool
is_abstract m = has_flag m.access_flags acc_abstract

unfoldable pub is_private : MethodInfo → Bool
is_private m = has_flag m.access_flags acc_private

unfoldable pub is_synthetic : MethodInfo → Bool
is_synthetic m = has_flag m.access_flags acc_synthetic

unfoldable pub is_bridge : MethodInfo → Bool
is_bridge m = has_flag m.access_flags acc_bridge

unfoldable pub is_constructor : MethodInfo → Bool
is_constructor m = text_eq m.name (codes "<init>")

unfoldable pub is_class_initializer : MethodInfo → Bool
is_class_initializer m = text_eq m.name (codes "<clinit>")

unfoldable pub is_lambda_body : MethodInfo → Bool
is_lambda_body m = starts_with (codes "lambda$") m.name

unfoldable pub has_line_numbers : MethodInfo → Bool
has_line_numbers m = ltb 0 (pos_part m.start_line)

-- `lambda$doWork$0` gives `doWork`.
unfoldable pub enclosing_of_lambda : MethodInfo → Text
unfolding is_lambda_body
enclosing_of_lambda m = if is_lambda_body m then rsplit_head b'$' (drop 7 m.name) else []

unfoldable pub is_interface : ClassInfo → Bool
is_interface c = has_flag c.access_flags acc_interface

unfoldable pub package_of : ClassInfo → Text
package_of c = if has_char b'.' c.name then rsplit_head b'.' c.name else []

unfoldable pub outer_name : ClassInfo → Text
outer_name c = if has_char b'$' c.name then rsplit_head b'$' c.name else []

unfoldable pub is_anonymous : ClassInfo → Bool
is_anonymous c = is_digit (if has_char b'$' c.name then rsplit_last b'$' c.name else [])

unfoldable pub source_path_hint : ClassInfo → Text
unfolding package_of
source_path_hint c =
    if is_empty c.source_file
    then []
    else if is_empty (package_of c)
    then c.source_file
    else replace_char b'.' b'/' (package_of c) ++ b'/' ∷ c.source_file
