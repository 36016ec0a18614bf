-- ===== src/Tests/Cataloguing.antt =====
-- The catalog and the inventory of calls (graph_core/catalog, graph_core/external_api.py).
use graph_ingest_test.Prelude.{ℕ, ◌≡◌, refl, [], ◌∷◌, none, some, false, codes, find, update, arith}
use graph_ingest_test.Bytecode.Calls.{tally_unclassified}
use graph_ingest_test.External.{classify_external}
use graph_ingest_test.Catalog.{group_owners, share_entry, keep_unambiguous, build_simple_index}
use graph_ingest_test.Prelude.{◌↔◌}
use graph_ingest_test.Bytecode.Calls.Tallies.{Tallied, tally_unclassified_lem}
use graph_ingest_test.Bytecode.Resolve.{no_inventory}
use graph_ingest_test.Catalog.Index.{build_simple_index-unambiguous}
use graph_ingest_test.External.Precedence.{Unclassified, classify_external-eq-none}
use graph_ingest_test.Tests.Resolving.{entry, table, setting}

tally_unclassified_lem_example :
    Tallied 1
      (codes "x.Y")
      (codes "m")
      no_inventory
      (tally_unclassified 1 (codes "x.Y") (codes "m") no_inventory)
tally_unclassified_lem_example =
    tally_unclassified_lem 1 (codes "x.Y") (codes "m") no_inventory (omega arith)

-- Both spellings of the type have one entry, so the simple name stands for it.
answered : find (codes "Runner") (build_simple_index table) ≡ some entry
unfolding build_simple_index find keep_unambiguous group_owners update share_entry
answered = refl

listed : find (codes "jakarta.x.Runner") table ≡ some entry
unfolding find
listed = refl

build_simple_index-unambiguous_example : ◌≡◌ {A = ℕ} entry.identity entry.identity
build_simple_index-unambiguous_example =
    build_simple_index-unambiguous table (codes "Runner") entry (codes "jakarta.x.Runner") entry
      answered listed refl

classify_external-eq-none_example :
    (classify_external setting.catalogue
        (entry.category ∷ [])
        false
        (codes "java.util.Map")
        (codes "get")
        []
      ≡ none)
    ↔ Unclassified setting.catalogue
        (entry.category ∷ [])
        (codes "java.util.Map")
        (codes "get")
        []
        false
classify_external-eq-none_example =
    classify_external-eq-none setting.catalogue (entry.category ∷ []) false (codes "java.util.Map")
      (codes "get") []
