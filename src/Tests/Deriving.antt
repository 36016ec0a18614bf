-- ===== src/Tests/Deriving.antt =====
-- The derivation of OVERRIDES after the bytecode pass (graph_core/pipeline.py).
use graph_ingest_test.Prelude.{◌≡◌, refl, List, [], ◌∷◌, Text, codes}
use graph_ingest_test.Prelude.Int.{pos}
use graph_ingest_test.Prelude.Result.{ok}
use graph_ingest_test.Prelude.Search.{arcs}
use graph_ingest_test.Bytecode.State.{Edge, EdgeKind, contains, extends, overrides}
use graph_ingest_test.Derive.{SlimNode, Indices, build_indices, derive_overrides, derive_nodes}
use graph_ingest_test.Derive.Edges.{Derives, derive_overrides_lem}
use graph_ingest_test.Derive.Together.{Joint, derive_overrides-resolve}
use graph_ingest_test.Derive.{
  derive_node, is_method_node, climb_from, add_edges, add_edge, is_class_id, index_by_id, climb,
  supers_of, consider_all, is_member, consider, add_pair,
}
use graph_ingest_test.Tests.Resolving.{setting, class_b, class_c, half, kept, resolves}

abbrev slim : Text → SlimNode
slim i = record {
  id = i;
  label = codes "Function";
  kind = codes "method";
  name = codes "f";
  param_count = 1;
  file = codes "a/C.java";
  start_line = pos 3;
}

abbrev slim_class : Text → SlimNode
slim_class i = record (slim i) { label = codes "Class"; kind = codes "class" }

abbrev slim_nodes : List SlimNode
slim_nodes =
    slim_class (codes "b")
    ∷ slim_class (codes "c")
    ∷ slim (codes "bf")
    ∷ slim (codes "cf")
    ∷ slim (codes "cg")
    ∷ []

abbrev edge : EdgeKind → Text → Text → Edge
edge k a b = record { kind = k; src = a; dst = b; evidence_file = []; evidence_line = pos 0 }

abbrev indices : Indices
indices = build_indices slim_nodes (
    edge contains (codes "b") (codes "bf")
    ∷ edge contains (codes "c") (codes "cf")
    ∷ edge contains (codes "c") (codes "cg")
    ∷ edge extends (codes "c") (codes "b")
    ∷ [])

-- Only `cg` is left to derive.
derives :
    derive_overrides slim_nodes indices (codes "cf" ∷ []) []
    ≡ ok (
        record (edge overrides (codes "cg") (codes "bf")) {
          evidence_file = codes "a/C.java";
          evidence_line = pos 3;
        }
        ∷ [])
unfolding derive_overrides derive_nodes derive_node is_method_node climb_from build_indices
    add_edges add_edge is_class_id index_by_id climb supers_of arcs consider_all is_member consider
    add_pair
derives = refl

derive_overrides_lem_example :
    (es : List Edge) × (derive_overrides slim_nodes indices (codes "cf" ∷ []) [] ≡ ok es)
    × Derives slim_nodes (codes "cf" ∷ []) [] es
derive_overrides_lem_example = derive_overrides_lem slim_nodes indices (codes "cf" ∷ []) []

derive_overrides-resolve_example :
    (es : List Edge) × (derive_overrides slim_nodes indices kept.report.claims.authoritative
        kept.report.claims.emitted_pairs
      ≡ ok es)
    × Joint kept es
derive_overrides-resolve_example =
    derive_overrides-resolve setting 1 (class_b ∷ class_c ∷ []) 1 half kept slim_nodes indices
      resolves
