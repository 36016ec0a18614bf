-- ===== src/Reach/Counts/Balance.antt =====
-- The numbers of the two passes add up (analysis/reach.py).
use graph_ingest_test.Prelude.{
  ℕ, zero, suc, ◌+◌, ◌≡◌, refl, List, [], ◌∷◌, Bool, true, false, not, ◌&&◌, if◌then◌else◌, ◌==◌,
  map, length, Text, All, arith, Bool-cases, inl, inr,
}
use graph_ingest_test.Reach.Propagate.{Marking, Arc, step, newly, loop, max_iterations}
use graph_ingest_test.Reach.Propagate.Rounds.{unmarked, loop_counts}
use graph_ingest_test.Reach.Store.{
  Function, Graph, set_where, count_where, calls_sink, mark_sink_kinds, mark_catalog,
  is_jsp_service, summary_sink, catalog_sink, sink_marking, entry_marking, dangerous_kinds,
  entry_annotations,
}
use graph_ingest_test.Reach.Marks.{
  or_default, set_sink, set_entry, new_summary_sink, new_catalog_sink, after_graph, after_summaries,
  seed_sinks, sink_arcs, entry_arcs, propagate_sinks, propagate_entries, mark_reaches_sink,
  is_annotated, new_entry, exposes, taint_source, sig_entry, after_annotated, after_seed,
  seed_entries, mark_from_entry,
}
use graph_ingest_test.Reach.Counts.{sink_report, entry_report}

module _ (M : Marking Function) where
  open M use {marked}

  abbrev count_marked : List Function → ℕ
  count_marked fs = count_where marked fs

  count-unmarked : (fs : List Function) → count_marked fs + unmarked M fs ≡ length fs
  unfolding count_where
  count-unmarked [] = refl
  count-unmarked (f ∷ fs) = ground (arith, count-unmarked fs)

  length-map_step : (g : Function → Function) (fs : List Function) → length (map g fs) ≡ length fs
  length-map_step g [] = refl
  length-map_step g (f ∷ fs) = omega (arith, length-map_step g fs)

  length-step : (arcs : List Arc) (fs : List Function) → length (step M arcs fs) ≡ length fs
  unfolding step
  length-step arcs fs = length-map_step _ fs

  length-loop :
      (arcs : List Arc) (left : ℕ) (fs : List Function) (n total : ℕ)
      → length (loop M arcs left fs n total).nodes ≡ length fs
  unfolding loop
  length-loop arcs zero fs n total = refl
  length-loop arcs (suc left) fs n total = elim (Bool-cases (newly M arcs fs == 0)) [
    | inl done ↦ rw (done, loop) (length-step arcs fs)
    | inr more ↦
        rw (more, loop)
          (omega (
            arith,
            length-loop arcs left (step M arcs fs) (suc n) (total + newly M arcs fs),
            length-step arcs fs,
          ))
  ]

  -- What is marked after the loop, against what was marked before.
  count-loop :
      (arcs : List Arc) (left : ℕ) (fs : List Function)
      → count_marked (loop M arcs left fs 0 0).nodes
        ≡ count_marked fs + (loop M arcs left fs 0 0).propagated
  count-loop arcs left fs = omega (
    arith,
    count-unmarked fs,
    count-unmarked (loop M arcs left fs 0 0).nodes,
    length-loop arcs left fs 0 0,
    loop_counts M arcs left fs 0 0,
  )

  -- A pass that marks functions without a mark adds as many as it finds.
  count-set_where :
      (test : Function → Bool) (change : Function → Function) (fs : List Function)
      → ((f : Function) → marked (change f) ≡ true)
      → All (λ f. test f && marked f ≡ false) fs
      → count_marked (set_where test change fs) ≡ count_marked fs + count_where test fs
  unfolding count_where set_where
  count-set_where test change [] h hs = refl
  count-set_where test change (f ∷ fs) h hs =
      ground (arith, h f, hs.0, count-set_where test change fs h hs.1)

  -- A test that asks for no mark itself.
  All-new :
      (test : Function → Bool) (fs : List Function)
      → All (λ f. (test f && not (marked f)) && marked f ≡ false) fs
  All-new test [] = tt
  All-new test (f ∷ fs) = (ground arith, All-new test fs)

  -- Over functions without a mark any test will do.
  All-unmarked :
      (test : Function → Bool) (fs : List Function)
      → All (λ f. marked f ≡ false) fs
      → All (λ f. test f && marked f ≡ false) fs
  All-unmarked test [] h = tt
  All-unmarked test (f ∷ fs) h = (ground (arith, h.0), All-unmarked test fs h.1)

  count-none : (fs : List Function) → All (λ f. marked f ≡ false) fs → count_marked fs ≡ 0
  unfolding count_where
  count-none [] h = refl
  count-none (f ∷ fs) h = ground (arith, h.0, count-none fs h.1)

count-after_summaries :
    (kinds : List Text) (use_summaries : Bool) (fs : List Function)
    → count_where (λ f. f.reaches_sink) (after_summaries kinds use_summaries fs)
      ≡ count_where (λ f. f.reaches_sink) (after_graph kinds fs)
        + (if use_summaries then count_where new_summary_sink (after_graph kinds fs) else 0)
count-after_summaries kinds true fs =
    count-set_where sink_marking new_summary_sink set_sink (after_graph kinds fs) (λ f. refl)
      (All-new sink_marking summary_sink (after_graph kinds fs))
count-after_summaries kinds false fs = omega arith

count-seed_sinks :
    (kinds : List Text) (use_summaries : Bool) (fs : List Function)
    → All (λ f. f.reaches_sink ≡ false) fs
    → count_where (λ f. f.reaches_sink) (seed_sinks kinds use_summaries fs)
      ≡ count_where (calls_sink kinds) fs
        + (if use_summaries then count_where new_summary_sink (after_graph kinds fs) else 0)
        + count_where new_catalog_sink (after_summaries kinds use_summaries fs)
unfolding seed_sinks mark_sink_kinds mark_catalog
count-seed_sinks kinds use_summaries fs h =
    let first =
      count-set_where sink_marking (calls_sink kinds) (mark_sink_kinds kinds) fs (λ f. refl)
        (All-unmarked sink_marking (calls_sink kinds) fs h) in
    let second = count-after_summaries kinds use_summaries fs in
    let third =
      count-set_where sink_marking new_catalog_sink mark_catalog
        (after_summaries kinds use_summaries fs) (λ f. refl)
        (All-new sink_marking catalog_sink (after_summaries kinds use_summaries fs)) in
    omega (arith, first, second, third, count-none sink_marking fs h)

-- If no function is marked before the pass, what the three seeds mark and what the loop adds are
-- together all the functions that are marked after it.
pub sink_report-total_marked :
    (kinds : List Text) (use_summaries : Bool) (g : Graph)
    → All (λ f. f.reaches_sink ≡ false) g.functions
    → (let r = sink_report kinds use_summaries g in
        r.graph_seeds + r.summary_seeds + r.catalog_seeds + r.propagated ≡ r.total_marked)
unfolding sink_report mark_reaches_sink propagate_sinks
sink_report-total_marked kinds use_summaries g h = omega (
  arith,
  count-seed_sinks (or_default kinds dangerous_kinds) use_summaries g.functions h,
  count-loop sink_marking (sink_arcs g.calls) max_iterations
      (seed_sinks (or_default kinds dangerous_kinds) use_summaries g.functions),
)

count-after_seed :
    (test : Function → Bool) (fs : List Function)
    → count_where (λ f. f.from_entry) (after_seed test fs)
      ≡ count_where (λ f. f.from_entry) fs + count_where (new_entry test) fs
count-after_seed test fs =
    count-set_where entry_marking (new_entry test) set_entry fs (λ f. refl)
      (All-new entry_marking test fs)

count-seed_entries :
    (annotations : List Text) (fs : List Function)
    → All (λ f. f.from_entry ≡ false) fs
    → (let annotated = after_annotated annotations fs in
        let exposed = after_seed exposes annotated in
        let jsp = after_seed is_jsp_service exposed in
        let catalog = after_seed taint_source jsp in
        count_where (λ f. f.from_entry) (seed_entries annotations fs)
        ≡ count_where (is_annotated annotations) fs
          + count_where (new_entry exposes) annotated
          + count_where (new_entry is_jsp_service) exposed
          + count_where (new_entry taint_source) jsp
          + count_where (new_entry sig_entry) catalog)
unfolding seed_entries
count-seed_entries annotations fs h =
    let annotated = after_annotated annotations fs in
    let exposed = after_seed exposes annotated in
    let jsp = after_seed is_jsp_service exposed in
    omega (
      arith,
      count-set_where entry_marking (is_annotated annotations) set_entry fs (λ f. refl)
          (All-unmarked entry_marking (is_annotated annotations) fs h),
      count-none entry_marking fs h,
      count-after_seed exposes annotated,
      count-after_seed is_jsp_service exposed,
      count-after_seed taint_source jsp,
      count-after_seed sig_entry (after_seed taint_source jsp),
    )

-- If no function is marked before the pass, what the five seeds mark and what the loop adds are
-- together all the functions that are marked after it.
pub entry_report-total_marked :
    (annotations : List Text) (g : Graph)
    → All (λ f. f.from_entry ≡ false) g.functions
    → (let r = entry_report annotations g in
        r.annotated_seeds + r.endpoint_seeds + r.jsp_seeds + r.catalog_entry_seeds + r.llm_seeds
          + r.propagated
        ≡ r.total_marked)
unfolding entry_report mark_from_entry propagate_entries
entry_report-total_marked annotations g h = omega (
  arith,
  count-seed_entries (or_default annotations entry_annotations) g.functions h,
  count-loop entry_marking (entry_arcs g.calls) max_iterations
      (seed_entries (or_default annotations entry_annotations) g.functions),
)
