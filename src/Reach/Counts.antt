-- ===== src/Reach/Counts.antt =====
-- The numbers that the two passes of analysis/reach.py return: what each seed marks, what the loop
-- adds, and how many functions are marked in the end.
pub mod Balance
use graph_ingest_test.Prelude.{ℕ, List, Bool, if◌then◌else◌, Text}
use graph_ingest_test.Reach.Propagate.{Outcome}
use graph_ingest_test.Reach.Store.{
  Function, Graph, count_where, calls_sink, dangerous_kinds, entry_annotations, is_jsp_service,
}
use graph_ingest_test.Reach.Marks.{
  or_default, new_summary_sink, new_catalog_sink, after_graph, after_summaries, mark_reaches_sink,
  is_annotated, new_entry, exposes, taint_source, sig_entry, after_annotated, after_seed,
  mark_from_entry,
}

pub record SinkReport : Type 0 where
  pub graph_seeds : ℕ
  pub summary_seeds : ℕ
  pub catalog_seeds : ℕ
  pub propagated : ℕ
  pub total_marked : ℕ
  pub iterations : ℕ

pub sink_report : List Text → Bool → Graph → SinkReport
sink_report kinds use_summaries g =
    let ks = or_default kinds dangerous_kinds in
    let out = mark_reaches_sink kinds use_summaries g in
    record {
      graph_seeds = count_where (calls_sink ks) g.functions;
      summary_seeds =
          (if use_summaries then count_where new_summary_sink (after_graph ks g.functions) else 0);
      catalog_seeds = count_where new_catalog_sink (after_summaries ks use_summaries g.functions);
      propagated = out.propagated;
      total_marked = count_where (λ f. f.reaches_sink) out.nodes;
      iterations = out.iterations;
    }

pub record EntryReport : Type 0 where
  pub annotated_seeds : ℕ
  pub endpoint_seeds : ℕ
  pub jsp_seeds : ℕ
  pub catalog_entry_seeds : ℕ
  pub llm_seeds : ℕ
  pub propagated : ℕ
  pub total_marked : ℕ
  pub iterations : ℕ

pub entry_report : List Text → Graph → EntryReport
entry_report annotations g =
    let annotated = after_annotated (or_default annotations entry_annotations) g.functions in
    let exposed = after_seed exposes annotated in
    let jsp = after_seed is_jsp_service exposed in
    let catalog = after_seed taint_source jsp in
    let out = mark_from_entry annotations g in
    record {
      annotated_seeds =
          count_where (is_annotated (or_default annotations entry_annotations)) g.functions;
      endpoint_seeds = count_where (new_entry exposes) annotated;
      jsp_seeds = count_where (new_entry is_jsp_service) exposed;
      catalog_entry_seeds = count_where (new_entry taint_source) jsp;
      llm_seeds = count_where (new_entry sig_entry) catalog;
      propagated = out.propagated;
      total_marked = count_where (λ f. f.from_entry) out.nodes;
      iterations = out.iterations;
    }
