-- ===== src/Bytecode/Hierarchy.antt =====
-- EXTENDS and IMPLEMENTS from the class headers (graph_core/bytecode_resolver.py, the loop over
-- `hierarchy` in `resolve_java_bytecode`).
pub mod Sound
use graph_ingest_test.Prelude.{
  List, [], ◌∷◌, ◌++◌, Option, none, some, Bool, ◌||◌, if◌then◌else◌, map, Text, text_eq, is_empty,
  find,
}
use graph_ingest_test.Prelude.Int.{pos}
use graph_ingest_test.Matcher.Index.{class_id, file_of, or_empty}
use graph_ingest_test.Bytecode.State.{
  EdgeKind, Edge, extends, implements, emit, count_new, Counts, Header, Pass, Setting,
}
use graph_ingest_test.Bytecode.Classes.{add_file}

abbrev pub targets : Header → List (EdgeKind × Text)
targets h = (extends, h.super_name) ∷ map (λ i. (implements, i)) h.interfaces

module _ (s : Setting) where
  abbrev pub hierarchy_edge : EdgeKind → Text → Text → Edge
  hierarchy_edge kind src dst = record {
    kind = kind;
    src = src;
    dst = dst;
    evidence_file = file_of s.index src;
    evidence_line = pos 0;
  }

  unfoldable pub emit_hierarchy : Edge → Pass → Pass
  emit_hierarchy e p = record p {
    output = emit e p.output;
    counts = record p.counts { hierarchy_edges = count_new e p.output p.counts.hierarchy_edges };
  }

  -- No target, none in the repository, or the class itself: no edge.
  unfoldable pub hierarchy_step : Text → EdgeKind × Text → Pass → Pass
  hierarchy_step src (kind, target) p =
      let dst = class_id s.index target in
      if is_empty target || is_empty dst || text_eq dst src
      then p
      else emit_hierarchy (hierarchy_edge kind src dst) p

  unfoldable pub hierarchy_targets : Text → List (EdgeKind × Text) → Pass → Pass
  hierarchy_targets src [] p = p
  hierarchy_targets src (t ∷ ts) p = hierarchy_targets src ts (hierarchy_step src t p)

  abbrev pub class_of : List (Text × Text) → Text → Text
  class_of own_class_ids binary = or_empty (find binary own_class_ids)

  -- The pass, and `hierarchy_files`.
  unfoldable pub hierarchy_steps : List (Text × Header) → Pass × List Text → Pass × List Text
  unfolding find
  hierarchy_steps [] (p, files) = (p, files)
  hierarchy_steps ((binary, header) ∷ headers) (p, files) =
      let src = class_of p.tables.own_class_ids binary in
      hierarchy_steps headers
        (hierarchy_targets src (targets header) p, add_file s (file_of s.index src) files)
