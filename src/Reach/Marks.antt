-- ===== src/Reach/Marks.antt =====
-- The operations of analysis/reach.py: `mark_reaches_sink`, `mark_reaches_sink_kinds`,
-- `mark_from_entry`, `universe` and `mark_all`. Timing and log lines are left out.
pub mod Paths
pub mod Seeds
use graph_ingest_test.Prelude.{
  ℕ, zero, suc, ◌+◌, List, [], ◌∷◌, ◌++◌, Option, none, some, Bool, true, false, not, ◌&&◌, ◌||◌,
  if◌then◌else◌, ◌==◌, ltb, any_of, map, length, Text, text_eq,
}
use graph_ingest_test.Reach.Propagate.{Arc, Outcome, loop, max_iterations}
use graph_ingest_test.Reach.Store.{
  Function, Call, Graph, trusted, backward, forward, sink_marking, entry_marking, set_where,
  count_where, is_in, has_value, clear_marks, calls_sink, mark_sink_kinds, summary_sink,
  catalog_sink, mark_catalog, is_jsp_service, dangerous_kinds, entry_annotations,
}

abbrev pub set_sink : Function → Function
set_sink f = record f { reaches_sink = true }

abbrev pub set_entry : Function → Function
set_entry f = record f { from_entry = true }

-- Seed 2 and seed 3 take the functions that have no mark yet.
abbrev pub new_summary_sink : Function → Bool
new_summary_sink f = summary_sink f && not f.reaches_sink

abbrev pub new_catalog_sink : Function → Bool
new_catalog_sink f = catalog_sink f && not f.reaches_sink

-- The functions after seed 1, and after seed 2.
abbrev pub after_graph : List Text → List Function → List Function
after_graph kinds fs = set_where (calls_sink kinds) (mark_sink_kinds kinds) fs

abbrev pub after_summaries : List Text → Bool → List Function → List Function
after_summaries kinds use_summaries fs =
    if use_summaries
    then set_where new_summary_sink set_sink (after_graph kinds fs)
    else after_graph kinds fs

-- The three seeds of the backward pass, in order.
unfoldable pub seed_sinks : List Text → Bool → List Function → List Function
seed_sinks kinds use_summaries fs =
    set_where new_catalog_sink mark_catalog (after_summaries kinds use_summaries fs)

abbrev pub sink_arcs : List Call → List Arc
sink_arcs calls = map backward (trusted calls)

abbrev pub entry_arcs : List Call → List Arc
entry_arcs calls = map forward (trusted calls)

unfoldable pub propagate_sinks : List Call → List Function → Outcome Function
propagate_sinks calls fs = loop sink_marking (sink_arcs calls) max_iterations fs 0 0

-- `kinds or DANGEROUS_KINDS`: None and the empty list give the default.
abbrev pub or_default : List Text → List Text → List Text
or_default [] default = default
or_default (k ∷ ks) default = k ∷ ks

unfoldable pub mark_reaches_sink : List Text → Bool → Graph → Outcome Function
mark_reaches_sink kinds use_summaries g =
    propagate_sinks g.calls
      (seed_sinks (or_default kinds dangerous_kinds) use_summaries g.functions)

-- The seeds of the forward pass: annotated, exposed, JSP service, catalog source, summary. All but
-- the first take the functions that have no mark yet.
abbrev pub is_annotated : List Text → Function → Bool
is_annotated annotations f = any_of (is_in annotations) f.annotations

abbrev pub new_entry : (Function → Bool) → Function → Bool
new_entry test f = test f && not f.from_entry

abbrev pub exposes : Function → Bool
exposes f = f.exposes

abbrev pub taint_source : Function → Bool
taint_source f = f.taint_source

abbrev pub sig_entry : Function → Bool
sig_entry f = f.sig_entry

abbrev pub after_annotated : List Text → List Function → List Function
after_annotated annotations fs = set_where (is_annotated annotations) set_entry fs

abbrev pub after_seed : (Function → Bool) → List Function → List Function
after_seed test fs = set_where (new_entry test) set_entry fs

unfoldable pub seed_entries : List Text → List Function → List Function
seed_entries annotations fs = after_seed sig_entry (
    after_seed taint_source
      (after_seed is_jsp_service (after_seed exposes (after_annotated annotations fs))))

unfoldable pub propagate_entries : List Call → List Function → Outcome Function
propagate_entries calls fs = loop entry_marking (entry_arcs calls) max_iterations fs 0 0

unfoldable pub mark_from_entry : List Text → Graph → Outcome Function
mark_from_entry annotations g =
    propagate_entries g.calls (seed_entries (or_default annotations entry_annotations) g.functions)

-- mark_reaches_sink_kinds: the kinds of a function, none if NULL.
abbrev pub kinds_or_empty : Option (List Text) → List Text
kinds_or_empty none = []
kinds_or_empty (some ks) = ks

-- `acc + [k IN l WHERE NOT k IN acc]`
pub missing_from : List Text → List Text → List Text
missing_from acc [] = []
missing_from acc (k ∷ ks) = let rest = missing_from acc ks in if is_in acc k then rest else k ∷ rest

pub merge_lists : List Text → List (List Text) → List Text
merge_lists acc [] = acc
merge_lists acc (l ∷ ls) = merge_lists (acc ++ missing_from acc l) ls

-- The kind lists of the functions with that id.
pub lists_of : List Function → Text → List (List Text)
lists_of [] i = []
lists_of (f ∷ fs) i =
    let rest = lists_of fs i in
    if text_eq f.id i
    then (elim f.reaches_sink_kinds [ none ↦ rest | some ks ↦ ks ∷ rest ])
    else rest

-- The kind lists of a function's trusted callees.
pub callee_lists : List Call → List Function → Function → List (List Text)
callee_lists [] fs f = []
callee_lists (c ∷ cs) fs f =
    let rest = callee_lists cs fs f in
    if text_eq c.caller f.id then lists_of fs c.callee ++ rest else rest

abbrev pub merged_kinds : List Call → List Function → Function → List Text
merged_kinds calls fs f =
    merge_lists (kinds_or_empty f.reaches_sink_kinds) (callee_lists (trusted calls) fs f)

pub grows : List Call → List Function → Function → Bool
grows calls fs f =
    ltb (length (kinds_or_empty f.reaches_sink_kinds)) (length (merged_kinds calls fs f))

pub grow : List Call → List Function → List Function
grow calls fs =
    set_where (grows calls fs)
      (λ f. record f { reaches_sink_kinds = some (merged_kinds calls fs f) }) fs

pub grow_loop : List Call → ℕ → List Function → ℕ → ℕ → Outcome Function
grow_loop calls zero fs iterations total = record {
  nodes = fs;
  iterations = iterations;
  propagated = total;
  converged = false;
}
grow_loop calls (suc left) fs iterations total =
    let grown = count_where (grows calls fs) fs in
    elim (grown == 0) [
      | true ↦ record {
        nodes = grow calls fs;
        iterations = suc iterations;
        propagated = total + grown;
        converged = true;
      }
      | false ↦ grow_loop calls left (grow calls fs) (suc iterations) (total + grown)
    ]

abbrev pub has_kinds : Option (List Text) → Bool
has_kinds none = false
has_kinds (some []) = false
has_kinds (some (k ∷ ks)) = true

pub seed_kinds : List Function → List Function
seed_kinds fs =
    set_where (λ f. has_kinds f.sink_kinds && not (has_value f.reaches_sink_kinds))
      (λ f. record f { reaches_sink_kinds = f.sink_kinds }) fs

pub mark_reaches_sink_kinds : Graph → Outcome Function
mark_reaches_sink_kinds g = grow_loop g.calls max_iterations (seed_kinds g.functions) 0 0

-- universe, without the fraction
pub record Universe : Type 0 where
  pub total : ℕ
  pub reaches_sink : ℕ
  pub from_entry : ℕ
  pub both : ℕ

pub universe : List Function → Universe
universe fs = record {
  total = length fs;
  reaches_sink = count_where (λ f. f.reaches_sink) fs;
  from_entry = count_where (λ f. f.from_entry) fs;
  both = count_where (λ f. f.reaches_sink && f.from_entry) fs;
}

pub record Marked : Type 0 where
  pub sink : Outcome Function
  pub kinds : Outcome Function
  pub entry : Outcome Function
  pub found : Universe

-- clear -> backward -> kinds -> forward -> report
pub mark_all : List Text → Graph → Marked
mark_all sink_kinds g =
    let cleared = record g { functions = clear_marks g.functions } in
    let sink = mark_reaches_sink sink_kinds true cleared in
    let kinds = mark_reaches_sink_kinds (record g { functions = sink.nodes }) in
    let entry = mark_from_entry [] (record g { functions = kinds.nodes }) in
    record { sink = sink; kinds = kinds; entry = entry; found = universe entry.nodes }
