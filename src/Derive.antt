-- ===== src/Derive.antt =====
-- `_derive_overrides` (graph_core/pipeline.py): OVERRIDES by name and arity over the resolved class
-- hierarchy, for the methods that the bytecode pass did not settle. The confidence of these edges
-- is INFERRED, that of the pass EXTRACTED.
pub mod Edges
pub mod Pairs
pub mod Together
use graph_ingest_test.Prelude.{
  ℕ, zero, suc, ◌+◌, List, [], ◌∷◌, ◌++◌, Option, none, some, Bool, true, false, not, ◌&&◌, ◌||◌,
  if◌then◌else◌, ◌==◌, length, any_of, Text, codes, text_eq, is_empty, find, put, update, has_text,
}
use mathlib.Core.List.{reverse}
use graph_ingest_test.Prelude.Int.{ℤ}
use graph_ingest_test.Prelude.Search.{arcs}
use graph_ingest_test.Prelude.Result.{Result, ok, err, out_of_fuel, ◌>>=◌}
use graph_ingest_test.Bytecode.Overrides.{Pair, has_pair}
use graph_ingest_test.Bytecode.State.{
  Edge, EdgeKind, contains, extends, implements, overrides, same_kind,
}

-- What the derivation reads of a node.
pub record SlimNode : Type 0 where
  pub id : Text
  pub label : Text
  pub kind : Text
  pub name : Text
  pub param_count : ℕ
  pub file : Text
  pub start_line : ℤ

-- {n.id: n for n in nodes}
unfoldable pub index_by_id : List (Text × SlimNode) → List SlimNode → List (Text × SlimNode)
unfolding put
index_by_id d [] = d
index_by_id d (n ∷ ns) = index_by_id (put n.id n d) ns

unfoldable pub is_class_id : List (Text × SlimNode) → Text → Bool
unfolding find
is_class_id by_id i = elim (find i by_id) [
  | none ↦ false
  | some n ↦ text_eq n.label (codes "Class")
]

-- The CONTAINS parent map and the supertypes of each class.
pub record Indices : Type 0 where
  pub by_id : List (Text × SlimNode)
  pub parent_of : List (Text × Text)
  pub supers : List (Text × List Text)

abbrev append_super : Text → Option (List Text) → List Text
append_super dst none = dst ∷ []
append_super dst (some ds) = ds ++ dst ∷ []

unfoldable pub add_edge : Edge → Indices → Indices
unfolding put update
add_edge e ix =
    if same_kind e.kind contains
    then record ix { parent_of = put e.dst e.src ix.parent_of }
    else if (same_kind e.kind extends || same_kind e.kind implements)
        && is_class_id ix.by_id e.src
        && is_class_id ix.by_id e.dst
    then record ix { supers = update e.src (append_super e.dst) ix.supers }
    else ix

unfoldable pub add_edges : List Edge → Indices → Indices
add_edges [] ix = ix
add_edges (e ∷ es) ix = add_edges es (add_edge e ix)

unfoldable pub build_indices : List SlimNode → List Edge → Indices
build_indices nodes edges =
    add_edges edges (record { by_id = index_by_id [] nodes; parent_of = []; supers = [] })

unfoldable pub is_method_node : SlimNode → Bool
is_method_node n = text_eq n.label (codes "Function") && text_eq n.kind (codes "method")

abbrev or_no_supers : Option (List Text) → List Text
or_no_supers none = []
or_no_supers (some ds) = ds

-- `out` in order, and `seen`.
pub record Derived : Type 0 where
  pub out : List Edge
  pub seen : List Pair

module _ (nodes : List SlimNode) (ix : Indices) (skip_methods : List Text)
    (skip_pairs : List Pair) where
  -- `supers.get(cls, [])`
  unfoldable pub supers_of : Text → List Text
  unfolding find
  supers_of cls = or_no_supers (find cls ix.supers)

  -- The node is a method of the class, by the tests of `methods_of`, and has the name.
  unfoldable pub is_member : Text → Text → SlimNode → Bool
  unfolding find
  is_member cls name m =
      is_method_node m
      && not (is_empty cls)
      && is_class_id ix.by_id cls
      && text_eq m.name name
      && elim (find m.id ix.parent_of) [ none ↦ false | some parent ↦ text_eq parent cls ]

  abbrev pub derived_edge : SlimNode → SlimNode → Edge
  derived_edge n m = record {
    kind = overrides;
    src = n.id;
    dst = m.id;
    evidence_file = n.file;
    evidence_line = n.start_line;
  }

  unfoldable pub add_pair : SlimNode → SlimNode → Derived → Derived
  add_pair n m d =
      if has_pair (n.id, m.id) skip_pairs || has_pair (n.id, m.id) d.seen
      then d
      else record { out = d.out ++ derived_edge n m ∷ []; seen = (n.id, m.id) ∷ d.seen }

  -- Another node of the same arity.
  unfoldable pub consider : SlimNode → SlimNode → Derived → Derived
  consider n m d =
      if not (text_eq m.id n.id) && m.param_count == n.param_count then add_pair n m d else d

  unfoldable pub consider_all : SlimNode → Text → List SlimNode → Derived → Derived
  consider_all n cls [] d = d
  consider_all n cls (m ∷ ms) d =
      consider_all n cls ms (if is_member cls n.name m then consider n m d else d)

  -- `while stack`, with the top of the stack in front.
  unfoldable pub climb : SlimNode → ℕ → List Text → List Text → Derived → Result Derived
  climb n zero stack visited d = err out_of_fuel
  climb n (suc fuel) [] visited d = ok d
  climb n (suc fuel) (anc ∷ stack) visited d = elim (has_text anc visited) [
    | true ↦ climb n fuel stack visited d
    | false ↦
        climb n fuel (reverse (supers_of anc) ++ stack) (visited ++ anc ∷ [])
          (consider_all n anc nodes d)
  ]

  abbrev pub super_count : List Text → ℕ
  super_count ds = length ds

  unfoldable pub climb_from : SlimNode → Option Text → Derived → Result Derived
  climb_from n none d = ok d
  climb_from n (some cls) d =
      let stack = reverse (supers_of cls) in
      climb n (suc (length stack + arcs super_count ix.supers)) stack [] d

  unfoldable pub derive_node : SlimNode → Derived → Result Derived
  unfolding find
  derive_node n d =
      if not (is_method_node n) || has_text n.id skip_methods
      then ok d
      else climb_from n (find n.id ix.parent_of) d

  unfoldable pub derive_nodes : List SlimNode → Derived → Result Derived
  derive_nodes [] d = ok d
  derive_nodes (n ∷ ns) d = do e ← derive_node n d; derive_nodes ns e

  -- `_derive_overrides`
  unfoldable pub derive_overrides : Result (List Edge)
  derive_overrides = do d ← derive_nodes nodes (record { out = []; seen = [] }); ok d.out
