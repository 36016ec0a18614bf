-- ===== src/Tests/Merging.antt =====
-- Merged bundles (graph_core/canonical_ir.py).
use graph_ingest_test.Prelude.{◌≡◌, List, [], ◌∷◌, codes, flat_map}
use graph_ingest_test.Prelude.Int.{pos}
use graph_ingest_test.Canonical.{Node, Edge, CanonicalBundle, merge_bundles, merge_batches}
use graph_ingest_test.Canonical.Batched.{merge_batches-eq}

abbrev package_node : Node
package_node = record { id = codes "p"; content = codes "first" }

abbrev contains : Edge
contains = record {
  key = record {
    kind = codes "CONTAINS";
    src = codes "p";
    dst = codes "c";
    evidence_line = pos 1;
    evidence_col = pos 0;
    evidence_file = codes "A.java";
  };
  content = [];
}

-- Two files in two batches emit the node of their package.
abbrev one_file : CanonicalBundle
one_file = record { nodes = package_node ∷ []; edges = contains ∷ contains ∷ []; refs = [] }

abbrev other_file : CanonicalBundle
other_file = record one_file { nodes = record package_node { content = codes "second" } ∷ [] }

abbrev two_batches : List (List CanonicalBundle)
two_batches = (one_file ∷ []) ∷ (other_file ∷ one_file ∷ []) ∷ []

merge_batches-eq_example :
    merge_batches two_batches ≡ merge_bundles (flat_map (λ batch. batch) two_batches)
merge_batches-eq_example = merge_batches-eq two_batches
