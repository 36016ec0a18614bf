-- ===== src/Reach/Marks/Paths.antt =====
-- What the passes of analysis/reach.py mark, in terms of paths over trusted calls.
use graph_ingest_test.Prelude.{◌<◌, ◌≡◌, List, Bool, true, ◌↔◌, Text}
use graph_ingest_test.Reach.Propagate.{marked_id}
use graph_ingest_test.Reach.Propagate.Exact.{Reached}
use graph_ingest_test.Reach.Propagate.Rounds.{unmarked, loop-to, loop-from, loop_converges}
use graph_ingest_test.Reach.Store.{
  Graph, sink_marking, entry_marking, dangerous_kinds, entry_annotations,
}
use graph_ingest_test.Reach.Marks.{
  or_default, seed_sinks, seed_entries, sink_arcs, entry_arcs, propagate_sinks, propagate_entries,
  mark_reaches_sink, mark_from_entry,
}

-- If the backward pass has converged, a function is marked exactly when a path of trusted calls
-- leads from it to a seeded function, whatever the length of the path.
pub mark_reaches_sink-Reached :
    (kinds : List Text) (use_summaries : Bool) (g : Graph)
    → (mark_reaches_sink kinds use_summaries g).converged ≡ true
    → (i : Text)
    → (marked_id sink_marking (mark_reaches_sink kinds use_summaries g).nodes i ≡ true)
      ↔ Reached sink_marking
          (sink_arcs g.calls)
          (seed_sinks (or_default kinds dangerous_kinds) use_summaries g.functions)
          i
unfolding mark_reaches_sink propagate_sinks
mark_reaches_sink-Reached kinds use_summaries g c i = (
  loop-to sink_marking (sink_arcs g.calls) _ _ _ _ i,
  loop-from sink_marking (sink_arcs g.calls) _ _ _ _ i c,
)

-- If the forward pass has converged, a function is marked exactly when a path of trusted calls
-- leads to it from a seeded entry point.
pub mark_from_entry-Reached :
    (annotations : List Text) (g : Graph)
    → (mark_from_entry annotations g).converged ≡ true
    → (i : Text)
    → (marked_id entry_marking (mark_from_entry annotations g).nodes i ≡ true)
      ↔ Reached entry_marking
          (entry_arcs g.calls)
          (seed_entries (or_default annotations entry_annotations) g.functions)
          i
unfolding mark_from_entry propagate_entries
mark_from_entry-Reached annotations g c i = (
  loop-to entry_marking (entry_arcs g.calls) _ _ _ _ i,
  loop-from entry_marking (entry_arcs g.calls) _ _ _ _ i c,
)

-- The backward pass converges within the iteration guard if fewer than 50 functions are unmarked
-- after the seeds.
pub mark_reaches_sink_converges :
    (kinds : List Text) (use_summaries : Bool) (g : Graph)
    → unmarked sink_marking
        (seed_sinks (or_default kinds dangerous_kinds) use_summaries g.functions)
      < 50
    → (mark_reaches_sink kinds use_summaries g).converged ≡ true
unfolding mark_reaches_sink propagate_sinks
mark_reaches_sink_converges kinds use_summaries g h =
    loop_converges sink_marking (sink_arcs g.calls) _ _ _ _ h

-- The forward pass converges within the iteration guard if fewer than 50 functions are unmarked
-- after the seeds.
pub mark_from_entry_converges :
    (annotations : List Text) (g : Graph)
    → unmarked entry_marking (seed_entries (or_default annotations entry_annotations) g.functions)
      < 50
    → (mark_from_entry annotations g).converged ≡ true
unfolding mark_from_entry propagate_entries
mark_from_entry_converges annotations g h =
    loop_converges entry_marking (entry_arcs g.calls) _ _ _ _ h
