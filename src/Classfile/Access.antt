-- ===== src/Classfile/Access.antt =====
-- The typed accessors of `_Pool` (graph_core/bytecode/classfile.py). A pool is the list `raw`.
pub mod Halting
use graph_ingest_test.Prelude.{
  ℕ, List, [], Option, none, some, Bool, ◌&&◌, ◌||◌, length, get_elem?, ltb, ◌==◌, if◌then◌else◌,
  Text, replace_char,
}
use graph_ingest_test.Prelude.Result.{Result, ok, err, class_file_error, ◌>>=◌}
use graph_ingest_test.Classfile.Pool.{Entry, blank, utf8_text, single, pair}

abbrev pub Pool : Type 0
Pool = List Entry

abbrev pub in_range : Pool → ℕ → Bool
in_range raw index = ltb 0 index && ltb index (length raw)

abbrev pub or_blank : Option Entry → Entry
or_blank none = blank
or_blank (some e) = e

-- `raw[index] if 0 < index < len(raw) else None`
abbrev pub entry_at : Pool → ℕ → Entry
entry_at raw index = if in_range raw index then or_blank (get_elem? raw index) else blank

abbrev pub as_text : Entry → Result Text
as_text (utf8_text t) = ok t
as_text _ = err class_file_error

unfoldable pub utf8 : Pool → ℕ → Result Text
utf8 raw index = if in_range raw index then as_text (entry_at raw index) else err class_file_error

-- '/' becomes '.', and '$' stays.
abbrev pub dotted : Text → Text
dotted name = replace_char b'/' b'.' name

class_entry : Pool → Entry → Result Text
class_entry raw (single tag name) =
    if tag == 7 then (do t ← utf8 raw name; ok (dotted t)) else err class_file_error
class_entry raw _ = err class_file_error

unfoldable pub class_name : Pool → ℕ → Result Text
unfolding class_entry
class_name raw index = if index == 0 then ok [] else class_entry raw (entry_at raw index)

-- The indices in a NameAndType entry.
name_and_type : Entry → Result (ℕ × ℕ)
name_and_type (pair tag name desc) = if tag == 12 then ok (name, desc) else err class_file_error
name_and_type _ = err class_file_error

-- Fieldref, Methodref or InterfaceMethodref.
is_member_ref : ℕ → Bool
is_member_ref tag = tag == 9 || tag == 10 || tag == 11

member_entry : Pool → Entry → Result (Text × Text × Text)
unfolding is_member_ref name_and_type
member_entry raw (pair tag class_index nat_index) =
    if is_member_ref tag
    then (do
      (name, desc) ← name_and_type (entry_at raw nat_index)
      owner ← class_name raw class_index
      n ← utf8 raw name
      d ← utf8 raw desc
      ok (owner, n, d))
    else err class_file_error
member_entry raw _ = err class_file_error

-- (owner, name, descriptor)
unfoldable pub member_ref : Pool → ℕ → Result (Text × Text × Text)
unfolding member_entry
member_ref raw index = member_entry raw (entry_at raw index)

dynamic_entry : Pool → Entry → Result (Text × Text)
unfolding name_and_type
dynamic_entry raw (pair tag bootstrap nat_index) =
    if tag == 18
    then (do
      (name, desc) ← name_and_type (entry_at raw nat_index)
      n ← utf8 raw name
      d ← utf8 raw desc
      ok (n, d))
    else err class_file_error
dynamic_entry raw _ = err class_file_error

-- (name, descriptor)
pub invokedynamic_nat : Pool → ℕ → Result (Text × Text)
unfolding dynamic_entry
invokedynamic_nat raw index = dynamic_entry raw (entry_at raw index)
