-- ===== src/Bytecode/Resolve.antt =====
-- `resolve_java_bytecode` with its guards, and the rates of `BytecodeReport`
-- (graph_core/bytecode_resolver.py). The class files found under the roots arrive parsed.
pub mod Authority
pub mod Outcome
pub mod Publishing
use graph_ingest_test.Prelude.{
  ℕ, suc, ◌+◌, ◌*◌, List, [], ◌∷◌, Bool, true, false, ltb, ◌==◌, if◌then◌else◌, length, map, Text,
  replace_char, add_text,
}
use graph_ingest_test.Prelude.Result.{Result, ok, err, ◌>>=◌}
use graph_ingest_test.Classfile.Shapes.{ClassInfo}
use graph_ingest_test.Matcher.Lookup.{MatchStats}
use graph_ingest_test.Bytecode.State.{
  Edge, Output, SynthesizedNode, Counts, Inventory, TaintMarks, ClassTables, Pass, Setting,
  no_counts, no_stats, empty_pass,
}
use graph_ingest_test.Bytecode.Classes.{class_steps}
use graph_ingest_test.Bytecode.Hierarchy.{hierarchy_steps}
use graph_ingest_test.Bytecode.Overrides.{Claims, override_classes}

-- A rate as an exact fraction.
pub record Rate : Type 0 where
  pub top : ℕ
  pub bottom : ℕ

abbrev pub below : Rate → Rate → Bool
below a b = ltb (a.top * b.bottom) (b.top * a.bottom)

-- `(a / b) if b else 0.0`
abbrev pub rate : ℕ → ℕ → Rate
rate a b = if b == 0 then record { top = 0; bottom = 1 } else record { top = a; bottom = b }

abbrev pub missed : MatchStats → ℕ
missed t = t.unmatched_method + t.unmatched_class + t.ambiguous_method

unfoldable pub match_rate : MatchStats → Rate
match_rate t = rate t.matched_methods (t.matched_methods + missed t)

pub data Reason : Type 0 where
  -- no class directories or archives
  no_sources : Reason
  -- no class matched an extracted source class
  no_class_in_repo : Reason
  -- match rate below the floor
  stale : Reason
  -- the pass is kept
  kept : Reason

pub record Report : Type 0 where
  pub available : Bool
  pub reason : Reason
  pub class_sources : ℕ
  pub counts : Counts
  pub match_stats : MatchStats
  pub attributed_files : List Text
  pub attributed_file_count : ℕ
  pub java_files_seen : ℕ
  pub hierarchy_files : List Text
  pub hierarchy_file_count : ℕ
  pub inventory : Inventory
  pub taint : TaintMarks
  pub claims : Claims

unfoldable pub file_coverage : Report → Rate
file_coverage r = rate r.attributed_file_count r.java_files_seen

pub record Resolution : Type 0 where
  pub edges : List Edge
  pub nodes : List SynthesizedNode
  pub report : Report

-- The set of paths, read with `/`.
abbrev distinct_paths : ℕ → List Text → List Text
distinct_paths separator [] = []
distinct_paths separator (p ∷ ps) =
    add_text (replace_char separator b'/' p) (distinct_paths separator ps)

abbrev pub count_paths : ℕ → List Text → ℕ
count_paths separator ps = length (distinct_paths separator ps)

abbrev pub no_claims : Claims
no_claims = record { authoritative = []; emitted_pairs = [] }

abbrev pub no_inventory : Inventory
no_inventory = record { unclassified = []; unclassified_owners = []; overflow = 0 }

abbrev pub no_taint : TaintMarks
no_taint = record { sink_kinds = []; sources = []; sanitizers = []; sites = [] }

abbrev pub first_report : ℕ → ℕ → Report
first_report class_sources java_files_seen = record {
  available = false;
  reason = no_sources;
  class_sources = class_sources;
  counts = no_counts;
  match_stats = no_stats;
  attributed_files = [];
  attributed_file_count = 0;
  java_files_seen = java_files_seen;
  hierarchy_files = [];
  hierarchy_file_count = 0;
  inventory = no_inventory;
  taint = no_taint;
  claims = no_claims;
}

abbrev pub nothing : Report → Resolution
nothing r = record { edges = []; nodes = []; report = r }

module _ (s : Setting) where
  -- What the report says after the loop over classes.
  unfoldable pub scanned : Report → Pass → Report
  unfolding add_text
  scanned r p = record r {
    counts = p.counts;
    match_stats = p.stats;
    attributed_files = p.attributed;
    attributed_file_count = count_paths s.separator p.attributed;
  }

  -- What only a kept pass publishes.
  unfoldable pub published : Report → List Text → Pass → Claims → Report
  unfolding add_text
  published r files p claims = record r {
    available = true;
    reason = kept;
    counts = p.counts;
    hierarchy_files = files;
    hierarchy_file_count = count_paths s.separator files;
    inventory = p.inventory;
    taint = p.taint;
    claims = claims;
  }

  unfoldable pub finish : Report → Pass → Result Resolution
  finish r p = do
    let headed = hierarchy_steps s p.tables.hierarchy (p, [])
    done ← override_classes s p.tables.hierarchy p.tables.declared_methods (headed.0, no_claims)
    ok (record {
      edges = done.0.output.edges;
      nodes = done.0.synthesized;
      report = published r headed.1 done.0 done.1;
    })

  -- The two guards.
  unfoldable pub judge : Rate → Report → Pass → Result Resolution
  judge floor r p =
      if p.counts.classes_in_repo == 0
      then ok (nothing (record r { reason = no_class_in_repo }))
      else if below (match_rate p.stats) floor
      then ok (nothing (record r { reason = stale }))
      else finish r p

  unfoldable pub resolve : ℕ → List ClassInfo → ℕ → Rate → Result Resolution
  resolve class_sources classes java_files_seen floor =
      if class_sources == 0 then ok (nothing (first_report class_sources java_files_seen)) else (do
        p ← class_steps s classes empty_pass
        judge floor (scanned (first_report class_sources java_files_seen) p) p)
