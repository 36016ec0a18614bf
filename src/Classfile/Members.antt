-- ===== src/Classfile/Members.antt =====
-- Fields, methods and whole classes (graph_core/bytecode/classfile.py: `_parse_members` for its two
-- uses, `parse_class`).
pub mod RoundTrip
pub mod Halting
pub mod WholeFile
use graph_ingest_test.Prelude.{
  ℕ, zero, suc, ◌+◌, ◌*◌, List, [], ◌∷◌, Option, none, some, map, ◌==◌, ltb, if◌then◌else◌, take,
  Text, codes,
}
use graph_ingest_test.Prelude.Result.{Result, ok, err, class_file_error}
use graph_ingest_test.Prelude.Int.{ℤ, pos}
use graph_ingest_test.Classfile.Reader.{
  M, ◌>>=◌, ◌>>◌, pure, lift, unpack_h, take_bytes, u2, u4, skip, repeat, run,
}
use graph_ingest_test.Classfile.Pool.{parse_constant_pool}
use graph_ingest_test.Classfile.Access.{Pool, utf8, class_name}
use graph_ingest_test.Classfile.Attributes.{Attributes, find, skip_attributes, find_attributes}
use graph_ingest_test.Classfile.Shapes.{FieldInfo, MethodInfo, ClassInfo, no_line}
use graph_ingest_test.Classfile.Lines.{LineTable, parse_line_number_table}
use graph_ingest_test.Classfile.Code.{scan_code}

-- `min(numbers)` and `max(numbers)` of the lines of a table, from its first line on.
abbrev pub least_line : ℕ → LineTable → ℕ
least_line n [] = n
least_line n ((pc, line) ∷ t) = least_line (if ltb line n then line else n) t

abbrev pub greatest_line : ℕ → LineTable → ℕ
greatest_line n [] = n
greatest_line n ((pc, line) ∷ t) = greatest_line (if ltb n line then line else n) t

-- `if lines:` the method's range of lines is set.
unfoldable pub with_lines : LineTable → MethodInfo → MethodInfo
with_lines [] m = m
with_lines ((pc, line) ∷ t) m = record m {
  start_line = pos (least_line line t);
  end_line = pos (greatest_line line t);
}

abbrev pub line_number_table : Text
line_number_table = codes "LineNumberTable"

abbrev pub new_method : Text → Text → ℕ → MethodInfo
new_method name desc flags = record {
  name = name;
  descriptor = desc;
  access_flags = flags;
  invocations = [];
  field_accesses = [];
  instantiations = [];
  start_line = no_line;
  end_line = no_line;
}

-- An attribute that is not there gives the empty table.
abbrev pub lines_of : Option (List ℕ) → Result LineTable
lines_of none = ok []
lines_of (some body) = parse_line_number_table body

module _ (pool : Pool) where
  -- The cursor `cr` over a Code attribute: the code and its line table.
  pub read_code : M (List ℕ × LineTable)
  read_code = do
    skip 4
    size ← u4
    code ← take_bytes size
    handlers ← u2
    skip (handlers * 8)
    attrs ← find_attributes pool (line_number_table ∷ [])
    lines ← lift (lines_of (find line_number_table attrs))
    pure (code, lines)

  pub scanned : MethodInfo → Result (List ℕ × LineTable) → Result MethodInfo
  scanned m (ok (code, lines)) = scan_code code pool lines (with_lines lines m)
  scanned m (err e) = err e

  -- What the Code attribute adds to the method, if there is one.
  pub with_code : Option (List ℕ) → MethodInfo → Result MethodInfo
  with_code none m = ok m
  with_code (some body) m = scanned m (run read_code body)

  -- One round with `with_code=False`.
  pub read_field : M FieldInfo
  read_field = do
    flags ← u2
    name_index ← u2
    name ← lift (utf8 pool name_index)
    desc_index ← u2
    desc ← lift (utf8 pool desc_index)
    skip_attributes
    pure (record { name = name; descriptor = desc; access_flags = flags })

  -- One round with `with_code=True`.
  pub read_method : M MethodInfo
  read_method = do
    flags ← u2
    name_index ← u2
    name ← lift (utf8 pool name_index)
    desc_index ← u2
    desc ← lift (utf8 pool desc_index)
    attrs ← find_attributes pool (codes "Code" ∷ [])
    lift (with_code (find (codes "Code") attrs) (new_method name desc flags))

  pub parse_fields : M (List FieldInfo)
  parse_fields = do n ← u2; repeat n read_field

  pub parse_methods : M (List MethodInfo)
  parse_methods = do n ← u2; repeat n read_method

  pub read_class_name : M Text
  read_class_name = do index ← u2; lift (class_name pool index)

  -- `pool.utf8(struct.unpack(">H", attrs["SourceFile"][:2])[0])`, or '' without the attribute.
  pub source_file_of : Option (List ℕ) → M Text
  source_file_of none = pure []
  source_file_of (some body) = do index ← lift (unpack_h (take 2 body)); lift (utf8 pool index)

  -- From the access flags on, behind the constant pool.
  pub read_class : ℕ → M ClassInfo
  read_class major = do
    flags ← u2
    name ← read_class_name
    super ← read_class_name
    n ← u2
    interfaces ← repeat n read_class_name
    fields ← parse_fields
    methods ← parse_methods
    attrs ← find_attributes pool (codes "SourceFile" ∷ [])
    source_file ← source_file_of (find (codes "SourceFile") attrs)
    pure (record {
      name = name;
      super_name = super;
      interfaces = interfaces;
      access_flags = flags;
      major_version = major;
      source_file = source_file;
      fields = fields;
      methods = methods;
    })

abbrev pub magic : ℕ
magic = 0xCAFEBABE

pub check_magic : ℕ → M (Unit {0})
check_magic word = if word == magic then pure tt else lift (err class_file_error)

-- Behind the magic number.
pub read_versions : M ClassInfo
read_versions = do
  minor ← u2
  major ← u2
  count ← u2
  raw ← parse_constant_pool count
  read_class raw major

pub read_file : M ClassInfo
read_file = do word ← u4; check_magic word; read_versions

pub parse_class : List ℕ → Result ClassInfo
parse_class bytes = run read_file bytes
