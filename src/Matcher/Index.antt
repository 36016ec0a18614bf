-- ===== src/Matcher/Index.antt =====
-- `NodeIndex` (graph_core/bytecode/matcher.py): its tables, `build`, and the simple lookups. The
-- dicts are association lists with the newest entry first; `setdefault` leaves an entry alone.
pub mod Building
use graph_ingest_test.Prelude.{
  ℕ, List, [], ◌∷◌, ◌++◌, Option, none, some, Bool, true, false, not, ◌&&◌, ◌||◌, if◌then◌else◌,
  ◌==◌, any_of, Text, codes, text_eq, has_char, rpartition, is_empty,
}
use graph_ingest_test.Matcher.Names.{binary_to_source_fqn}

-- The fields of `Node` that the index reads. A `param_count` of None is 0.
pub record Node : Type 0 where
  pub id : Text
  pub label : Text
  pub fqn : Text
  pub kind : Text
  pub file : Text
  pub param_count : ℕ
  pub param_types : List Text

-- A method's key: class, name and arity.
pub record Key : Type 0 where
  pub class_fqn : Text
  pub name : Text
  pub arity : ℕ

unfoldable pub key_eq : Key → Key → Bool
key_eq a b = text_eq a.class_fqn b.class_fqn && text_eq a.name b.name && (a.arity == b.arity)

-- (node id, parameter types)
abbrev pub Candidate : Type 0
Candidate = Text × List Text

pub record NodeIndex : Type 0 where
  pub methods : List (Key × List Candidate)
  pub classes : List (Text × Text)
  pub fields : List (Text × Text)
  pub files : List (Text × Text)
  pub has_ctor : List Text

unfoldable pub find_text : Text → List (Text × Text) → Option Text
find_text k [] = none
find_text k ((j, v) ∷ t) = if text_eq j k then some v else find_text k t

unfoldable pub is_some : Option Text → Bool
is_some none = false
is_some (some v) = true

unfoldable pub set_default : Text → Text → List (Text × Text) → List (Text × Text)
set_default k v t = if is_some (find_text k t) then t else (k, v) ∷ t

-- The default list is empty, as `.get(key)` is None.
unfoldable pub candidates : Key → List (Key × List Candidate) → List Candidate
candidates k [] = []
candidates k ((j, cs) ∷ t) = if key_eq j k then cs else candidates k t

unfoldable pub add_candidate :
    Key → Candidate → List (Key × List Candidate) → List (Key × List Candidate)
add_candidate k c [] = (k, c ∷ []) ∷ []
add_candidate k c ((j, cs) ∷ t) =
    if key_eq j k then (j, cs ++ c ∷ []) ∷ t else (j, cs) ∷ add_candidate k c t

abbrev pub empty_index : NodeIndex
empty_index = record { methods = []; classes = []; fields = []; files = []; has_ctor = [] }

-- `class_fqn, _, name = n.fqn.rpartition("#")`
unfoldable pub split_member : Text → Text × Text
split_member fqn = elim (rpartition b'#' fqn) [ none ↦ ([], fqn) | some (h, t) ↦ (h, t) ]

unfoldable pub key_of : Node → Key
key_of n = record {
  class_fqn = (split_member n.fqn).0;
  name = (split_member n.fqn).1;
  arity = n.param_count;
}

unfoldable pub add_method : NodeIndex → Node → NodeIndex
add_method ix n = record ix {
  methods = add_candidate (key_of n) (n.id, n.param_types) ix.methods;
  has_ctor =
      (if text_eq n.kind (codes "constructor")
        then (split_member n.fqn).0 ∷ ix.has_ctor
        else ix.has_ctor);
}

unfoldable pub has_label : Node → Text → Bool
has_label n l = text_eq n.label l

-- `n.label == "Function" and n.fqn and "#" in n.fqn`
unfoldable pub is_method : Node → Bool
is_method n = has_label n (codes "Function") && has_char b'#' n.fqn

unfoldable pub add_by_label : NodeIndex → Node → NodeIndex
add_by_label ix n =
    if has_label n (codes "Class")
    then record ix { classes = set_default n.fqn n.id ix.classes }
    else if has_label n (codes "Field")
    then record ix { fields = set_default n.fqn n.id ix.fields }
    else if is_method n
    then add_method ix n
    else ix

unfoldable pub add_file : NodeIndex → Node → NodeIndex
add_file ix n = if is_empty n.file then ix else record ix { files = (n.id, n.file) ∷ ix.files }

unfoldable pub add_node : NodeIndex → Node → NodeIndex
add_node ix n = add_file (add_by_label ix n) n

unfoldable pub add_nodes : NodeIndex → List Node → NodeIndex
add_nodes ix [] = ix
add_nodes ix (n ∷ ns) = add_nodes (add_node ix n) ns

unfoldable pub build : List Node → NodeIndex
build nodes = add_nodes empty_index nodes

abbrev pub or_empty : Option Text → Text
or_empty none = []
or_empty (some v) = v

unfoldable pub class_id : NodeIndex → Text → Text
class_id ix binary_name =
    let source_fqn = binary_to_source_fqn binary_name in
    if is_empty source_fqn then [] else or_empty (find_text source_fqn ix.classes)

unfoldable pub field_id : NodeIndex → Text → Text → Text
field_id ix binary_owner name =
    let source_fqn = binary_to_source_fqn binary_owner in
    if is_empty source_fqn then [] else or_empty (find_text (source_fqn ++ b'.' ∷ name) ix.fields)

unfoldable pub file_of : NodeIndex → Text → Text
file_of ix node_id = or_empty (find_text node_id ix.files)
