-- ===== src/Reach/Marks/Seeds.antt =====
-- Which functions the seeds of analysis/reach.py mark before the loop runs.
use graph_ingest_test.Prelude.{
  ◌≡◌, refl, List, [], ◌∷◌, Bool, true, false, not, ◌&&◌, ◌||◌, if◌then◌else◌, any_of, Text,
  text_eq, arith,
}
use graph_ingest_test.Reach.Propagate.{marked_id}
use graph_ingest_test.Reach.Store.{
  Function, sink_marking, entry_marking, set_where, is_in, calls_sink, mark_sink_kinds,
  summary_sink, catalog_sink, mark_catalog, is_jsp_service,
}
use graph_ingest_test.Reach.Marks.{seed_sinks, seed_entries, set_sink, set_entry}

-- A sink by the External nodes it calls, by a fresh summary if these are used, or by the catalog.
abbrev pub is_sink_seed : List Text → Bool → Function → Bool
is_sink_seed kinds use_summaries f =
    calls_sink kinds f || (use_summaries && summary_sink f) || catalog_sink f

-- Annotated, exposed, a JSP service, a source by the catalog, or an entry by its summary.
abbrev pub is_entry_seed : List Text → Function → Bool
is_entry_seed annotations f =
    any_of (is_in annotations) f.annotations
    || f.exposes
    || is_jsp_service f
    || f.taint_source
    || f.sig_entry

-- The three seeds on one function, and the five.
abbrev sink_seeded : List Text → Bool → Function → Function
sink_seeded kinds use_summaries f =
    let first = if calls_sink kinds f then mark_sink_kinds kinds f else f in
    let second =
      if use_summaries
      then (if summary_sink first && not first.reaches_sink then set_sink first else first)
      else first in
    if catalog_sink second && not second.reaches_sink then mark_catalog second else second

abbrev when_new : Bool → Function → Function
when_new test f = if test && not f.from_entry then set_entry f else f

abbrev entry_seeded : List Text → Function → Function
entry_seeded annotations f =
    let annotated = if any_of (is_in annotations) f.annotations then set_entry f else f in
    let exposed = when_new annotated.exposes annotated in
    let jsp = when_new (is_jsp_service exposed) exposed in
    let catalog = when_new jsp.taint_source jsp in when_new catalog.sig_entry catalog

module _ (kinds : List Text) (use_summaries : Bool) (f : Function) where
  id-sink_seeded : (sink_seeded kinds use_summaries f).id ≡ f.id
  unfolding mark_sink_kinds mark_catalog
  id-sink_seeded = ground arith

  marked-sink_seeded :
      (sink_seeded kinds use_summaries f).reaches_sink
      ≡ (f.reaches_sink || is_sink_seed kinds use_summaries f)
  unfolding mark_sink_kinds mark_catalog summary_sink catalog_sink
  marked-sink_seeded = ground arith

module _ (annotations : List Text) (f : Function) where
  id-entry_seeded : (entry_seeded annotations f).id ≡ f.id
  id-entry_seeded = ground arith

  marked-entry_seeded :
      (entry_seeded annotations f).from_entry ≡ (f.from_entry || is_entry_seed annotations f)
  unfolding is_jsp_service
  marked-entry_seeded = ground arith

seed_sinks-cons :
    (kinds : List Text) (use_summaries : Bool) (f : Function) (fs : List Function)
    → seed_sinks kinds use_summaries (f ∷ fs)
      ≡ sink_seeded kinds use_summaries f ∷ seed_sinks kinds use_summaries fs
unfolding seed_sinks set_where
seed_sinks-cons kinds true f fs = refl
seed_sinks-cons kinds false f fs = refl

-- After the three seeds of the backward pass an id is marked exactly when a function of that id
-- was marked before, calls a listed kind of External, has a fresh summary that names a sink (where
-- summaries are used), or has a taint category: no seed hides another.
pub marked_id-seed_sinks :
    (kinds : List Text) (use_summaries : Bool) (fs : List Function) (i : Text)
    → marked_id sink_marking (seed_sinks kinds use_summaries fs) i
      ≡ any_of (λ f. text_eq f.id i && (f.reaches_sink || is_sink_seed kinds use_summaries f)) fs
unfolding marked_id
marked_id-seed_sinks kinds true [] i = unfold seed_sinks set_where in refl
marked_id-seed_sinks kinds false [] i = unfold seed_sinks set_where in refl
marked_id-seed_sinks kinds use_summaries (f ∷ fs) i =
    rw
      (
        seed_sinks-cons kinds use_summaries f fs,
        id-sink_seeded kinds use_summaries f,
        marked-sink_seeded kinds use_summaries f,
        marked_id-seed_sinks kinds use_summaries fs i,
      )
      refl

seed_entries-cons :
    (annotations : List Text) (f : Function) (fs : List Function)
    → seed_entries annotations (f ∷ fs) ≡ entry_seeded annotations f ∷ seed_entries annotations fs
unfolding seed_entries set_where
seed_entries-cons annotations f fs = refl

-- After the five seeds of the forward pass an id is marked exactly when a function of that id was
-- marked before or is an entry point by one of the five: the union of the sources, never less.
pub marked_id-seed_entries :
    (annotations : List Text) (fs : List Function) (i : Text)
    → marked_id entry_marking (seed_entries annotations fs) i
      ≡ any_of (λ f. text_eq f.id i && (f.from_entry || is_entry_seed annotations f)) fs
unfolding marked_id
marked_id-seed_entries annotations [] i = unfold seed_entries set_where in refl
marked_id-seed_entries annotations (f ∷ fs) i =
    rw
      (
        seed_entries-cons annotations f fs,
        id-entry_seeded annotations f,
        marked-entry_seeded annotations f,
        marked_id-seed_entries annotations fs i,
      )
      refl
