-- ===== src/Tests/Reaching.antt =====
-- A chain of three functions, from a web entry point to one that runs a command
-- (analysis/reach.py).
use graph_ingest_test.Prelude.{
  ◌+◌, refl, ◌≡◌, List, [], ◌∷◌, none, true, false, ◌↔◌, Text, codes, arith,
}
use graph_ingest_test.Reach.Counts.{sink_report}
use graph_ingest_test.Reach.Counts.Balance.{sink_report-total_marked}
use graph_ingest_test.Reach.Propagate.{marked_id}
use graph_ingest_test.Reach.Propagate.Exact.{Reached}
use graph_ingest_test.Reach.Store.{
  Function, Call, Graph, sink_marking, entry_marking, dangerous_kinds, entry_annotations, set_where,
  calls_sink, names_sink, mark_sink_kinds, summary_sink, catalog_sink, mark_catalog, is_jsp_service,
}
use graph_ingest_test.Reach.Marks.{
  seed_sinks, seed_entries, sink_arcs, entry_arcs, mark_reaches_sink, mark_from_entry,
}
use graph_ingest_test.Reach.Marks.Paths.{
  mark_reaches_sink-Reached, mark_from_entry-Reached, mark_reaches_sink_converges,
  mark_from_entry_converges,
}

abbrev function : Text → List Text → List Text → Function
function id kinds annotations = record {
  id = id;
  name = id;
  lang = codes "java";
  external_kinds = kinds;
  summary_json = none;
  fresh = false;
  taint_categories = [];
  taint_source = false;
  annotations = annotations;
  exposes = false;
  sig_entry = false;
  reaches_sink = false;
  sink_kinds = none;
  reaches_sink_kinds = none;
  from_entry = false;
}

abbrev call : Text → Text → Text → Call
call caller callee strategy = record { caller = caller; callee = callee; strategy = strategy }

abbrev graph : Graph
graph = record {
  functions =
      function (codes "web") [] (codes "GET" ∷ [])
      ∷ function (codes "mid") [] []
      ∷ function (codes "run") (codes "exec" ∷ []) []
      ∷ [];
  calls =
      call (codes "web") (codes "mid") (codes "bytecode")
      ∷ call (codes "mid") (codes "run") (codes "same_file")
      ∷ [];
}

converges : (mark_reaches_sink dangerous_kinds true graph).converged ≡ true
unfolding seed_sinks set_where calls_sink names_sink mark_sink_kinds summary_sink catalog_sink
    mark_catalog
converges = mark_reaches_sink_converges dangerous_kinds true graph (omega arith)

mark_reaches_sink-Reached_example :
    (marked_id sink_marking (mark_reaches_sink dangerous_kinds true graph).nodes (codes "web")
      ≡ true)
    ↔ Reached sink_marking
        (sink_arcs graph.calls)
        (seed_sinks dangerous_kinds true graph.functions)
        (codes "web")
mark_reaches_sink-Reached_example =
    mark_reaches_sink-Reached dangerous_kinds true graph converges (codes "web")

entries_converge : (mark_from_entry entry_annotations graph).converged ≡ true
unfolding seed_entries set_where is_jsp_service
entries_converge = mark_from_entry_converges entry_annotations graph (omega arith)

mark_from_entry-Reached_example :
    (marked_id entry_marking (mark_from_entry entry_annotations graph).nodes (codes "run") ≡ true)
    ↔ Reached entry_marking
        (entry_arcs graph.calls)
        (seed_entries entry_annotations graph.functions)
        (codes "run")
mark_from_entry-Reached_example =
    mark_from_entry-Reached entry_annotations graph entries_converge (codes "run")

sink_report-total_marked_example :
    (let r = sink_report dangerous_kinds true graph in
      r.graph_seeds + r.summary_seeds + r.catalog_seeds + r.propagated ≡ r.total_marked)
sink_report-total_marked_example =
    sink_report-total_marked dangerous_kinds true graph (refl, (refl, (refl, tt)))
