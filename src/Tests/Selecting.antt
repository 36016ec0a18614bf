-- ===== src/Tests/Selecting.antt =====
-- The selection of paths (analysis/paths.py).
use mathlib.Core.List.{Perm}
use graph_ingest_test.Prelude.{◌≡◌, List, [], ◌∷◌, some, codes, All, arith}
use graph_ingest_test.Paths.{Row, dedupe_paths, batch_paths}
use graph_ingest_test.Paths.Longest.{Selected, dedupe_paths_lem}
use graph_ingest_test.Paths.Batches.{IsBatch, together, batch_paths_lem}

abbrev long_path : Row
long_path = record {
  ids = codes "a" ∷ codes "b" ∷ codes "c" ∷ [];
  entry_fqn = codes "A.a";
  sink_fqn = codes "C.c";
  acquire_fqn = [];
  hops = 2;
}

abbrev short_path : Row
short_path = record long_path { ids = codes "a" ∷ codes "c" ∷ []; hops = 1 }

abbrev leak_path : Row
leak_path = record long_path { sink_fqn = []; acquire_fqn = codes "D.d" }

abbrev found : List Row
found = short_path ∷ leak_path ∷ long_path ∷ short_path ∷ []

batch_paths_lem_example :
    (batches : List (List Row)) × (batch_paths found 2 ≡ some batches)
    × All (IsBatch 2) batches
    × Perm (together batches) found
batch_paths_lem_example = batch_paths_lem found 2 (omega arith)

dedupe_paths_lem_example : Selected found (dedupe_paths found)
dedupe_paths_lem_example = dedupe_paths_lem found
