-- ===== src/Tests/Validation.antt =====
-- Two batches of edges, and a graph that is in order (graph_core/validator.py).
use graph_ingest_test.Prelude.{◌≡◌, refl, List, [], ◌∷◌, true, ◌↔◌, Text, codes, All}
use graph_ingest_test.Validator.{Edge, Node, ids_of, empty_stats, validate_graph}
use graph_ingest_test.Validator.Counting.{add_batches, all_edges, Scanned, add_batches-Scanned}
use graph_ingest_test.Validator.Verdict.{AreDistinct, HasRange, validate_graph_ok}

abbrev nodes : List Node
nodes =
    record { id = codes "f"; label = codes "Function"; start_line = 1; end_line = 4 }
    ∷ record { id = codes "g"; label = codes "Function"; start_line = 6; end_line = 6 }
    ∷ []

abbrev call : Edge
call = record { type = codes "CALLS"; src = codes "f"; dst = codes "g" }

abbrev broken : Edge
broken = record { type = codes "CONTAINS"; src = codes "x"; dst = codes "g" }

-- The second batch comes when both ids are known.
abbrev batches : List (List Edge × List Text)
batches =
    (record { type = codes "CALLS"; src = codes "f"; dst = codes "f" } ∷ [], codes "f" ∷ [])
    ∷ (call ∷ broken ∷ [], codes "f" ∷ codes "g" ∷ [])
    ∷ []

add_batches-Scanned_example :
    Scanned empty_stats
      (add_batches empty_stats batches)
      (all_edges batches)
      (codes "f" ∷ codes "g" ∷ [])
add_batches-Scanned_example =
    add_batches-Scanned (codes "f" ∷ codes "g" ∷ []) empty_stats batches
      (((refl, refl), tt), (((refl, refl), ((refl, refl), tt)), tt))

validate_graph_ok_example :
    ((validate_graph nodes empty_stats).ok ≡ true)
    ↔ (AreDistinct (ids_of nodes) × (empty_stats.dangling ≡ 0) × All HasRange nodes)
validate_graph_ok_example = validate_graph_ok nodes empty_stats
