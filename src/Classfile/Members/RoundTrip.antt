-- ===== src/Classfile/Members/RoundTrip.antt =====
-- Reading fields, methods and their code back (graph_core/bytecode/classfile.py,
-- `_parse_members`), against the layout of JVMS 4.5, 4.6 and 4.7.
use graph_ingest_test.Prelude.{
  ℕ, ◌*◌, ◌≡◌, refl, ap, ◌∙◌, List, [], ◌∷◌, ◌++◌, Option, none, some, length, flat_map, All, Text,
  codes, append-nil,
}
use graph_ingest_test.Prelude.Result.{ok}
use graph_ingest_test.Classfile.Reader.{skip}
use graph_ingest_test.Classfile.Reader.RoundTrip.{
  Reads, Reads-bind, Reads-last, Reads-pure, Reads-lift, Reads-given, Reads-take, Reads-skip,
  Reads-u2, Reads-u4, run-Reads, be16, be32,
}
use graph_ingest_test.Classfile.Access.{Pool, utf8}
use graph_ingest_test.Classfile.Attributes.RoundTrip.{
  Attribute, write_attributes, IsNamed, last_body, Reads-skip_attributes, find_attributes-write,
}
use graph_ingest_test.Classfile.Shapes.{FieldInfo, MethodInfo}
use graph_ingest_test.Prelude.Sorting.{sort}
use graph_ingest_test.Classfile.Lines.{LineTable, pair_leb}
use graph_ingest_test.Classfile.Lines.Order.{write_table, parse_line_number_table-sort}
use graph_ingest_test.Classfile.Code.Assembly.{Instruction, assemble, IsProgram, effects}
use graph_ingest_test.Classfile.Code.RoundTrip.{scan_code-assemble}
use graph_ingest_test.Classfile.Members.{
  line_number_table, lines_of, read_code, scanned, with_lines, with_code, new_method, read_field,
  read_method,
}

-- A field or a method as it is written.
pub record Member : Type 0 where
  pub flags : ℕ
  pub name_index : ℕ
  pub name : Text
  pub desc_index : ℕ
  pub desc : Text
  pub attributes : List Attribute

abbrev pub write_member : Member → List ℕ
write_member f =
    be16 f.flags ++ (be16 f.name_index ++ (be16 f.desc_index ++ write_attributes f.attributes))

-- The indices hold the texts.
abbrev pub IsMember : Pool → Member → Type 0
IsMember pool f = (utf8 pool f.name_index ≡ ok f.name) × (utf8 pool f.desc_index ≡ ok f.desc)

abbrev pub field_info : Member → FieldInfo
field_info f = record { name = f.name; descriptor = f.desc; access_flags = f.flags }

module _ (pool : Pool) where
  pub Reads-field :
      (f : Member) → IsMember pool f → Reads (read_field pool) (write_member f) (field_info f)
  unfolding read_field
  Reads-field f h = Reads-bind _ (Reads-u2 f.flags) (
      Reads-bind _ (Reads-u2 f.name_index) (
        Reads-given _ h.0 (
          Reads-bind _ (Reads-u2 f.desc_index) (
            Reads-given _ h.1 (Reads-last _ (Reads-skip_attributes f.attributes) (Reads-pure _))))))

-- A Code attribute: four bytes of sizes, the instructions, the handlers of eight bytes each, and
-- its own attributes.
pub record Code : Type 0 where
  pub sizes : List ℕ
  pub program : List Instruction
  pub handlers : ℕ
  pub handler_bytes : List ℕ
  pub attributes : List Attribute

abbrev pub write_code : Code → List ℕ
write_code c =
    c.sizes
    ++ (be32 (length (flat_map assemble c.program))
        ++ (flat_map assemble c.program
            ++ (be16 c.handlers ++ (c.handler_bytes ++ write_attributes c.attributes))))

-- The sizes of the parts, the instructions aligned, and the attributes named in the pool.
pub record IsLaidOut (pool : Pool) (c : Code) : Type 0 where
  pub four_bytes : length c.sizes ≡ 4
  pub handler_size : length c.handler_bytes ≡ c.handlers * 8
  pub aligned : IsProgram 0 c.program
  pub named : All (IsNamed pool) c.attributes

-- The line table that the attributes hold.
pub record IsCode (pool : Pool) (c : Code) (lines : LineTable) : Type 0 where
  pub layout : IsLaidOut pool c
  pub has_lines : lines_of (last_body line_number_table c.attributes none) ≡ ok lines

Reads-sized : (n : ℕ) (bs : List ℕ) → length bs ≡ n → Reads (skip n) bs tt
Reads-sized n bs h = rw (← h) (Reads-skip bs)

found_lines :
    {pool : Pool} {c : Code} {lines : LineTable} {found : Option (List ℕ)}
    → found ≡ last_body line_number_table c.attributes none
    → IsCode pool c lines
    → lines_of found ≡ ok lines
found_lines e h = rw e h.has_lines

Reads-code :
    (pool : Pool) (c : Code) (lines : LineTable)
    → IsCode pool c lines
    → Reads (read_code pool) (write_code c) (flat_map assemble c.program, lines)
unfolding read_code
Reads-code pool c lines h =
    let (attrs, reads, found) =
      find_attributes-write pool (line_number_table ∷ []) line_number_table c.attributes
        h.layout.named refl in
    Reads-bind _ (Reads-sized 4 c.sizes h.layout.four_bytes) (
      Reads-bind _ (Reads-u4 _) (
        Reads-bind _ (Reads-take (flat_map assemble c.program)) (
          Reads-bind _ (Reads-u2 c.handlers) (
            Reads-bind _ (Reads-sized _ c.handler_bytes h.layout.handler_size)
              (Reads-last _ reads (Reads-given _ (found_lines found h) (Reads-pure _)))))))

-- A method whose Code attribute is written with a well-formed program is read to the method with
-- the lines of its table and with what the instructions of the program contribute in order.
pub with_code-write :
    (pool : Pool) (c : Code) (lines : LineTable) (m : MethodInfo)
    → IsCode pool c lines
    → with_code pool (some (write_code c)) m ≡ effects pool lines 0 c.program (with_lines lines m)
unfolding with_code scanned
with_code-write pool c lines m h =
    rw (rw append-nil at (run-Reads (read_code pool) [] (Reads-code pool c lines h)))
      (scan_code-assemble pool lines c.program (with_lines lines m) h.layout.aligned)

-- What a line table stands for: no attribute, no lines; one that is written entry by entry, its
-- entries in the order of tuples.
abbrev pub HasLines : Option (List ℕ) → LineTable → Type 0
HasLines none lines = lines ≡ []
HasLines (some body) lines =
    (entries : LineTable) × (body ≡ write_table entries) × (lines ≡ sort pair_leb entries)

lines_of-HasLines :
    (o : Option (List ℕ)) (lines : LineTable) → HasLines o lines → lines_of o ≡ ok lines
lines_of-HasLines none lines h = rw h refl
lines_of-HasLines (some body) lines (entries, written, sorted) =
    rw (written, sorted) (parse_line_number_table-sort entries)

-- What the Code attribute of a method stands for: without one, the bare method; with one, bytes that
-- are written from a program, its lines, and what its instructions contribute in order.
abbrev pub HasCode : Pool → Option (List ℕ) → MethodInfo → MethodInfo → Type 0
HasCode pool none bare info = bare ≡ info
HasCode pool (some body) bare info =
    (c : Code) × (lines : LineTable) × (body ≡ write_code c)
    × IsLaidOut pool c
    × HasLines (last_body line_number_table c.attributes none) lines
    × (effects pool lines 0 c.program (with_lines lines bare) ≡ ok info)

with_code-HasCode :
    (pool : Pool) (o : Option (List ℕ)) (bare info : MethodInfo)
    → HasCode pool o bare info
    → with_code pool o bare ≡ ok info
unfolding with_code
with_code-HasCode pool none bare info h = ap ok h
with_code-HasCode pool (some body) bare info (c, lines, written, layout, table, done) =
    rw written (
      with_code-write pool c lines bare
        (record { layout = layout; has_lines = lines_of-HasLines _ lines table }))
    ∙ done

-- A method: its attributes are named in the pool, and `info` is the bare method with its code.
abbrev pub IsMethod : Pool → Member → MethodInfo → Type 0
IsMethod pool f info =
    IsMember pool f
    × All (IsNamed pool) f.attributes
    × HasCode pool (last_body (codes "Code") f.attributes none) (new_method f.name f.desc f.flags)
        info

pub Reads-method :
    (pool : Pool) (f : Member) (info : MethodInfo)
    → IsMethod pool f info
    → Reads (read_method pool) (write_member f) info
unfolding read_method
Reads-method pool f info h =
    let (attrs, reads, found) =
      find_attributes-write pool (codes "Code" ∷ []) (codes "Code") f.attributes h.1 refl in
    let scanned = with_code-HasCode pool _ _ info h.2 in
    Reads-bind _ (Reads-u2 f.flags) (
      Reads-bind _ (Reads-u2 f.name_index) (
        Reads-given _ h.0.0 (
          Reads-bind _ (Reads-u2 f.desc_index)
            (Reads-given _ h.0.1 (Reads-last _ reads (Reads-lift (rw found scanned)))))))
