-- ===== src/Tests/ClassFiles.antt =====
-- A class with a static method that calls itself, with a line table and a Long in its pool
-- (graph_core/bytecode/classfile.py).
use graph_ingest_test.Prelude.{
  suc, ◌≡◌, true, refl, List, [], ◌∷◌, ◌++◌, length, flat_map, All, none, some, codes, arith, inl,
}
use mathlib.Core.List.{Perm}
use graph_ingest_test.Prelude.Sorting.{IsOrdered, sort}
use graph_ingest_test.Prelude.Result.{ok, halts}
use graph_ingest_test.Classfile.Members.Halting.{halts-parse_class}
use graph_ingest_test.Prelude.Int.{pos}
use graph_ingest_test.Classfile.Utf8.{decode}
use graph_ingest_test.Classfile.Reader.{take_bytes, u2, repeat, run}
use graph_ingest_test.Classfile.Pool.RoundTrip.{
  Constant, utf8, long, class, method_ref, name_and_type, write_constant, slots_of,
  parse_constant_pool-write,
}
use graph_ingest_test.Classfile.Access as Access
use graph_ingest_test.Classfile.Access.{Pool, class_name, member_ref}
use graph_ingest_test.Classfile.Shapes.{MethodInfo, invokestatic}
use graph_ingest_test.Classfile.Lines.{
  LineTable, pair_leb, line_for_offset, parse_line_number_table,
}
use graph_ingest_test.Classfile.Code.{signed, call_target, scan_code, operand_len}
use graph_ingest_test.Classfile.Code.RoundTrip.{scan_code-assemble}
use graph_ingest_test.Classfile.Code.Lengths.{operand_len-eq}
use graph_ingest_test.Classfile.Attributes.{Attributes, find_attributes, find}
use graph_ingest_test.Classfile.Reader.RoundTrip.{Reads}
use graph_ingest_test.Classfile.Pool.{blank, parse_constant_pool}
use graph_ingest_test.Classfile.Lines.Order.{
  write_table, parse_line_number_table-write, line_for_offset-eq,
}
use graph_ingest_test.Classfile.Code.Assembly.{
  Instruction, plain, invoke, tableswitch, lookupswitch, effects, assemble, jvms_length, IsProgram,
}
use graph_ingest_test.Classfile.Attributes.RoundTrip.{
  write_attributes, IsNamed, last_body, find_attributes-write,
}
use graph_ingest_test.Classfile.Members.{
  parse_class, with_code, with_lines, line_number_table, new_method,
}
use graph_ingest_test.Classfile.Members.RoundTrip.{
  Member, Code, write_code, IsLaidOut, IsCode, HasLines, with_code-write,
}
use graph_ingest_test.Classfile.Members.WholeFile.{
  ClassFile, write_class, pool_of, IsClassFile, class_info, parse_class-write,
}

abbrev constants : List Constant
constants =
    utf8 (codes "a/Main")
    ∷ class 1
    ∷ utf8 (codes "f")
    ∷ utf8 (codes "()V")
    ∷ long 0 7
    ∷ utf8 (codes "Code")
    ∷ name_and_type 3 4
    ∷ method_ref 2 8
    ∷ utf8 (codes "SourceFile")
    ∷ utf8 (codes "Main.java")
    ∷ utf8 (codes "LineNumberTable")
    ∷ []

-- invokestatic #9; return
abbrev body : Code
body = record {
  sizes = 0 ∷ 0 ∷ 0 ∷ 0 ∷ [];
  program = invoke invokestatic 9 0 0 ∷ plain 0xb1 [] ∷ [];
  handlers = 0;
  handler_bytes = [];
  attributes =
      record {
        name_index = 12;
        name = codes "LineNumberTable";
        body = 0 ∷ 2 ∷ 0 ∷ 3 ∷ 0 ∷ 8 ∷ 0 ∷ 0 ∷ 0 ∷ 7 ∷ [];
      }
      ∷ [];
}

abbrev lines : LineTable
lines = (0, 7) ∷ (3, 8) ∷ []

abbrev method : Member
method = record {
  flags = 9;
  name_index = 3;
  name = codes "f";
  desc_index = 4;
  desc = codes "()V";
  attributes = record { name_index = 7; name = codes "Code"; body = write_code body } ∷ [];
}

abbrev method_info : MethodInfo
method_info = record {
  name = codes "f";
  descriptor = codes "()V";
  access_flags = 9;
  invocations =
      record {
        opcode = invokestatic;
        owner = codes "a.Main";
        name = codes "f";
        descriptor = codes "()V";
        line = pos 7;
        offset = 0;
      }
      ∷ [];
  field_accesses = [];
  instantiations = [];
  start_line = pos 7;
  end_line = pos 8;
}

abbrev main_class : ClassFile
main_class = record {
  minor = 0;
  major = 52;
  constants = constants;
  flags = 33;
  this_index = 2;
  this_name = codes "a.Main";
  super_index = 0;
  super_name = [];
  interfaces = [];
  fields = [];
  methods = (method, method_info) ∷ [];
  attributes = record { name_index = 10; name = codes "SourceFile"; body = 0 ∷ 11 ∷ [] } ∷ [];
  source_file = codes "Main.java";
}

body-IsLaidOut : IsLaidOut (pool_of main_class) body
unfolding Access.utf8 decode jvms_length
body-IsLaidOut = record {
  four_bytes = refl;
  handler_size = refl;
  aligned = (tt, ((omega arith, inl (omega arith), refl), tt));
  named = (refl, tt);
}

body-HasLines : HasLines (last_body line_number_table body.attributes none) lines
unfolding last_body sort
body-HasLines = ((3, 8) ∷ (0, 7) ∷ [], refl, refl)

body-IsCode : IsCode (pool_of main_class) body lines
unfolding last_body parse_line_number_table sort take_bytes u2 repeat run
body-IsCode = record { layout = body-IsLaidOut; has_lines = refl }

with_code-write_example :
    with_code (pool_of main_class) (some (write_code body)) (new_method (codes "f") (codes "()V") 9)
    ≡ effects
        (pool_of main_class)
        lines
        0
        body.program
        (with_lines lines (new_method (codes "f") (codes "()V") 9))
with_code-write_example =
    with_code-write (pool_of main_class) body lines (new_method (codes "f") (codes "()V") 9)
      body-IsCode

body-effects :
    effects
      (pool_of main_class)
      lines
      0
      body.program
      (with_lines lines (new_method (codes "f") (codes "()V") 9))
    ≡ ok method_info
unfolding with_lines call_target member_ref class_name Access.utf8 decode line_for_offset
body-effects = refl

main_class-IsClassFile : IsClassFile main_class
unfolding class_name Access.utf8 decode last_body
main_class-IsClassFile = record {
  this = refl;
  super = refl;
  interfaces = tt;
  fields = tt;
  methods = (
    ((refl, refl), (refl, tt), (body, lines, refl, body-IsLaidOut, body-HasLines, body-effects)),
    tt,
  );
  named = (refl, tt);
  source = (11, refl, refl);
}

parse_class-write_example :
    parse_class (write_class main_class ++ (0 ∷ [])) ≡ ok (class_info main_class)
parse_class-write_example = parse_class-write main_class (0 ∷ []) main_class-IsClassFile

parse_constant_pool-write_example :
    Reads
      (parse_constant_pool (suc (length (slots_of constants))))
      (flat_map write_constant constants)
      (blank ∷ slots_of constants)
parse_constant_pool-write_example = parse_constant_pool-write constants

-- A tableswitch at offset 1 of three jumps, and a lookupswitch of one pair behind it.
abbrev switches : List Instruction
switches =
    plain 0x1a []
    ∷ tableswitch (0 ∷ 0 ∷ []) 9 1 3 3 (0 ∷ 0 ∷ 0 ∷ 9 ∷ 0 ∷ 0 ∷ 0 ∷ 9 ∷ 0 ∷ 0 ∷ 0 ∷ 9 ∷ [])
    ∷ lookupswitch (0 ∷ 0 ∷ 0 ∷ []) 9 1 (0 ∷ 0 ∷ 0 ∷ 5 ∷ 0 ∷ 0 ∷ 0 ∷ 9 ∷ [])
    ∷ invoke invokestatic 9 0 0
    ∷ []

switches-IsProgram : IsProgram 0 switches
unfolding jvms_length signed
switches-IsProgram = (
  (omega arith, inl (omega arith), refl),
  (((omega arith, refl), refl, refl), (((omega arith, refl), refl, omega arith), (tt, tt))),
)

scan_code-assemble_example :
    scan_code (flat_map assemble switches) (pool_of main_class) lines method_info
    ≡ effects (pool_of main_class) lines 0 switches method_info
scan_code-assemble_example =
    scan_code-assemble (pool_of main_class) lines switches method_info switches-IsProgram

operand_len-eq_example : operand_len 0xc5 ≡ jvms_length 0xc5
operand_len-eq_example = operand_len-eq 0xc5 (omega arith)

parse_line_number_table-write_example :
    (qs : LineTable) × (parse_line_number_table (write_table ((3, 8) ∷ (0, 7) ∷ [])) ≡ ok qs)
    × IsOrdered pair_leb qs
    × Perm qs ((3, 8) ∷ (0, 7) ∷ [])
parse_line_number_table-write_example = parse_line_number_table-write ((3, 8) ∷ (0, 7) ∷ [])

line_for_offset-eq_example : line_for_offset lines 2 ≡ pos 7
line_for_offset-eq_example =
    line_for_offset-eq [] ((3, 8) ∷ []) 0 7 2 tt (omega arith) (omega arith, tt)

code-IsNamed : All (IsNamed (pool_of main_class)) method.attributes
unfolding Access.utf8 decode
code-IsNamed = (refl, tt)

find_attributes-write_example :
    (found : Attributes) × Reads
      (find_attributes (pool_of main_class) (codes "Code" ∷ []))
      (write_attributes method.attributes)
      found
    × (find (codes "Code") found ≡ last_body (codes "Code") method.attributes none)
find_attributes-write_example =
    find_attributes-write (pool_of main_class) (codes "Code" ∷ []) (codes "Code") method.attributes
      code-IsNamed refl

halts-parse_class_example : halts (parse_class (write_class main_class)) ≡ true
halts-parse_class_example = halts-parse_class (write_class main_class)
