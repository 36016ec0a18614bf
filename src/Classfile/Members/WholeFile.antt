-- ===== src/Classfile/Members/WholeFile.antt =====
-- Reading a whole class file back (graph_core/bytecode/classfile.py, `parse_class`), against the
-- layout of JVMS 4.1, 4.5, 4.6 and 4.7.
use graph_ingest_test.Prelude.{
  ℕ, suc, ◌≡◌, ap, refl, List, [], ◌∷◌, ◌++◌, Option, none, some, length, flat_map, map, All, Text,
  codes, arith, take,
}
use graph_ingest_test.Prelude.Result.{ok}
use graph_ingest_test.Classfile.Reader.{◌>>=◌, u2, unpack_h}
use graph_ingest_test.Classfile.Reader.RoundTrip.{
  Reads, Reads-bind, Reads-last, Reads-pure, Reads-lift, Reads-given, Reads-u2, Reads-u4,
  Reads-repeat, run-Reads, be16, be32,
}
use graph_ingest_test.Classfile.Pool.{blank, parse_constant_pool}
use graph_ingest_test.Classfile.Pool.RoundTrip.{
  Constant, write_constant, slots_of, parse_constant_pool-write,
}
use graph_ingest_test.Classfile.Access.{Pool, utf8, class_name}
use graph_ingest_test.Classfile.Attributes.RoundTrip.{
  Attribute, write_attributes, IsNamed, last_body, find_attributes-write,
}
use graph_ingest_test.Classfile.Shapes.{MethodInfo, ClassInfo}
use graph_ingest_test.Classfile.Members.RoundTrip.{
  Member, write_member, IsMember, field_info, IsMethod, Reads-field, Reads-method,
}
use graph_ingest_test.Classfile.Members.{
  read_field, read_method, parse_fields, parse_methods, read_class_name, source_file_of, read_class,
  magic, check_magic, read_versions, read_file, parse_class,
}

-- A class file as it is written: the indices with the names that they stand for.
pub record ClassFile : Type 0 where
  pub minor : ℕ
  pub major : ℕ
  pub constants : List Constant
  pub flags : ℕ
  pub this_index : ℕ
  pub this_name : Text
  pub super_index : ℕ
  pub super_name : Text
  pub interfaces : List (ℕ × Text)
  pub fields : List Member
  pub methods : List (Member × MethodInfo)
  pub attributes : List Attribute
  pub source_file : Text

abbrev write_index : ℕ × Text → List ℕ
write_index (index, name) = be16 index

abbrev write_method : Member × MethodInfo → List ℕ
write_method (f, info) = write_member f

abbrev name_of : ℕ × Text → Text
name_of (index, name) = name

abbrev info_of : Member × MethodInfo → MethodInfo
info_of (f, info) = info

-- From the access flags on.
abbrev write_tail : ClassFile → List ℕ
write_tail c =
    be16 c.flags
    ++ (be16 c.this_index
        ++ (be16 c.super_index
            ++ (be16 (length c.interfaces)
                ++ (flat_map write_index c.interfaces
                    ++ (be16 (length c.fields)
                        ++ (flat_map write_member c.fields
                            ++ (be16 (length c.methods)
                                ++ (flat_map write_method c.methods
                                    ++ write_attributes c.attributes))))))))

abbrev pub write_class : ClassFile → List ℕ
write_class c =
    be32 magic
    ++ (be16 c.minor
        ++ (be16 c.major
            ++ (be16 (suc (length (slots_of c.constants)))
                ++ (flat_map write_constant c.constants ++ write_tail c))))

abbrev pub pool_of : ClassFile → Pool
pool_of c = blank ∷ slots_of c.constants

abbrev IsIndex : Pool → ℕ × Text → Type 0
IsIndex pool (index, name) = class_name pool index ≡ ok name

abbrev IsMethodOf : Pool → Member × MethodInfo → Type 0
IsMethodOf pool (f, info) = IsMethod pool f info

-- What SourceFile attribute there is.
abbrev HasSourceFile : Pool → Option (List ℕ) → Text → Type 0
HasSourceFile pool none file = [] ≡ file
HasSourceFile pool (some body) file =
    (index : ℕ) × (body ≡ be16 index) × (utf8 pool index ≡ ok file)

-- Every index holds what it stands for, and every method body is written from a program.
pub record IsClassFile (c : ClassFile) : Type 0 where
  pub this : class_name (pool_of c) c.this_index ≡ ok c.this_name
  pub super : class_name (pool_of c) c.super_index ≡ ok c.super_name
  pub interfaces : All (IsIndex (pool_of c)) c.interfaces
  pub fields : All (IsMember (pool_of c)) c.fields
  pub methods : All (IsMethodOf (pool_of c)) c.methods
  pub named : All (IsNamed (pool_of c)) c.attributes
  pub source :
      HasSourceFile (pool_of c) (last_body (codes "SourceFile") c.attributes none) c.source_file

abbrev pub class_info : ClassFile → ClassInfo
class_info c = record {
  name = c.this_name;
  super_name = c.super_name;
  interfaces = map name_of c.interfaces;
  access_flags = c.flags;
  major_version = c.major;
  source_file = c.source_file;
  fields = map field_info c.fields;
  methods = map info_of c.methods;
}

All-indices :
    (pool : Pool) (xs : List (ℕ × Text))
    → All (IsIndex pool) xs
    → All (λ x. Reads (read_class_name pool) (write_index x) (name_of x)) xs
All-indices pool [] h = tt
All-indices pool ((index, name) ∷ xs) h = (
  unfold read_class_name in Reads-last _ (Reads-u2 index) (Reads-lift h.0),
  All-indices pool xs h.1,
)

All-fields :
    (pool : Pool) (fs : List Member)
    → All (IsMember pool) fs
    → All (λ f. Reads (read_field pool) (write_member f) (field_info f)) fs
All-fields pool [] h = tt
All-fields pool (f ∷ fs) h = (Reads-field pool f h.0, All-fields pool fs h.1)

All-methods :
    (pool : Pool) (fs : List (Member × MethodInfo))
    → All (IsMethodOf pool) fs
    → All (λ f. Reads (read_method pool) (write_method f) (info_of f)) fs
All-methods pool [] h = tt
All-methods pool ((f, info) ∷ fs) h = (Reads-method pool f info h.0, All-methods pool fs h.1)

word : (body : List ℕ) (index : ℕ) → body ≡ be16 index → unpack_h (take 2 body) ≡ ok index
word body index h = rw h (ap ok (omega arith))

Reads-source_file :
    (pool : Pool) (o : Option (List ℕ)) (file : Text)
    → HasSourceFile pool o file
    → Reads (source_file_of pool o) [] file
unfolding source_file_of
Reads-source_file pool none file h = rw (← h) (Reads-pure [])
Reads-source_file pool (some body) file (index, written, holds) =
    Reads-given _ (word body index written) (Reads-lift holds)

module _ (c : ClassFile) (h : IsClassFile c) where
  Reads-class_name :
      (index : ℕ) (name : Text)
      → class_name (pool_of c) index ≡ ok name
      → Reads (read_class_name (pool_of c)) (be16 index) name
  unfolding read_class_name
  Reads-class_name index name e = Reads-last _ (Reads-u2 index) (Reads-lift e)

  Reads-fields :
      Reads
        (parse_fields (pool_of c))
        (be16 (length c.fields) ++ flat_map write_member c.fields)
        (map field_info c.fields)
  unfolding parse_fields
  Reads-fields =
      Reads-bind _ (Reads-u2 _)
        (Reads-repeat _ write_member field_info c.fields (All-fields (pool_of c) c.fields h.fields))

  Reads-methods :
      Reads
        (parse_methods (pool_of c))
        (be16 (length c.methods) ++ flat_map write_method c.methods)
        (map info_of c.methods)
  unfolding parse_methods
  Reads-methods =
      Reads-bind _ (Reads-u2 _) (
        Reads-repeat _ write_method info_of c.methods (All-methods (pool_of c) c.methods h.methods))

  Reads-class : Reads (read_class (pool_of c) c.major) (write_tail c) (class_info c)
  unfolding read_class
  Reads-class =
      let pool = pool_of c in
      let (attrs, reads, found) =
        find_attributes-write pool (codes "SourceFile" ∷ []) (codes "SourceFile") c.attributes
          h.named refl in
      Reads-bind _ (Reads-u2 c.flags) (
        Reads-bind _ (Reads-class_name _ _ h.this) (
          Reads-bind _ (Reads-class_name _ _ h.super) (
            Reads-bind _ (Reads-u2 _) (
              Reads-bind _
                (Reads-repeat _ write_index name_of c.interfaces
                  (All-indices pool c.interfaces h.interfaces))
                (Reads-bind _ Reads-fields (
                  Reads-bind _ Reads-methods (
                    Reads-last _ reads (
                      Reads-last _ (Reads-source_file pool _ c.source_file (rw found h.source))
                        (Reads-pure _)))))))))

  Reads-versions :
      Reads read_versions
        (be16 c.minor
          ++ (be16 c.major
              ++ (be16 (suc (length (slots_of c.constants)))
                  ++ (flat_map write_constant c.constants ++ write_tail c))))
        (class_info c)
  unfolding read_versions
  Reads-versions = Reads-bind _ (Reads-u2 c.minor) (
      Reads-bind (λ major. do count ← u2; raw ← parse_constant_pool count; read_class raw major)
        (Reads-u2 c.major)
        (Reads-bind (λ count. do raw ← parse_constant_pool count; read_class raw c.major)
          (Reads-u2 _)
          (Reads-bind (λ raw. read_class raw c.major) (parse_constant_pool-write c.constants)
            Reads-class)))

-- A class file that is written part by part, with every index holding what it stands for and every
-- Code attribute written from a well-formed program, is read to the class with those names,
-- interfaces, fields and source file, and with the methods that the programs describe: the lines of
-- their tables and what each instruction contributes in order. What follows the class in the bytes
-- makes no difference.
pub parse_class-write :
    (c : ClassFile) (rest : List ℕ)
    → IsClassFile c
    → parse_class (write_class c ++ rest) ≡ ok (class_info c)
unfolding parse_class read_file check_magic
parse_class-write c rest h = run-Reads read_file rest (
    Reads-bind _ (Reads-u4 magic)
      (Reads-bind (λ _. read_versions) {bs = []} (Reads-pure tt) (Reads-versions c h)))
