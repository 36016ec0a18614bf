-- ===== src/Bytecode/Hierarchy/Sound.antt =====
-- The loop over class headers keeps the pass sound.
use graph_ingest_test.Prelude.{
  ◌≡◌, ◌∙◌, refl, List, [], ◌∷◌, ◌||◌, ◌⊎◌, inl, inr, Bool-cases, map, All, Text, text_eq, is_empty,
}
use graph_ingest_test.Matcher.Index.{class_id, file_of}
use graph_ingest_test.Bytecode.State.{EdgeKind, Edge, extends, implements, Header, Pass, Setting}
use graph_ingest_test.Bytecode.State.Emitting.{emit-IsOnce}
use graph_ingest_test.Bytecode.State.Agreement.{IsSound, Agrees-hierarchy}
use graph_ingest_test.Bytecode.Classes.{add_file}
use graph_ingest_test.Bytecode.Hierarchy.{
  targets, hierarchy_edge, emit_hierarchy, hierarchy_step, hierarchy_targets, class_of,
  hierarchy_steps,
}

abbrev IsSupertype : EdgeKind → Type 0
IsSupertype k = (k ≡ extends) ⊎ (k ≡ implements)

interfaces-IsSupertype :
    (is : List Text)
    → All (λ (t : EdgeKind × Text). IsSupertype t.0) (map (λ i. (implements, i)) is)
interfaces-IsSupertype [] = tt
interfaces-IsSupertype (i ∷ is) = (inr refl, interfaces-IsSupertype is)

module _ (s : Setting) where
  emit_hierarchy-IsSound :
      (e : Edge) (p : Pass) → IsSupertype e.kind → IsSound p → IsSound (emit_hierarchy s e p)
  unfolding emit_hierarchy
  emit_hierarchy-IsSound e p k h = record {
    once = emit-IsOnce e p.output h.once;
    agrees = Agrees-hierarchy e p.output p.counts h.agrees k;
    nodes = h.nodes;
    targets = h.targets;
  }

  hierarchy_step-IsSound :
      (src : Text) (kind : EdgeKind) (target : Text) (p : Pass)
      → IsSupertype kind
      → IsSound p
      → IsSound (hierarchy_step s src (kind, target) p)
  unfolding hierarchy_step
  hierarchy_step-IsSound src kind target p k h =
      elim (Bool-cases (
        is_empty target
        || is_empty (class_id s.index target)
        || text_eq (class_id s.index target) src)) [
          | inl e ↦ rw e h
          | inr e ↦
              rw e
                (emit_hierarchy-IsSound (hierarchy_edge s kind src (class_id s.index target)) p k h)
        ]

  hierarchy_targets-IsSound :
      (src : Text) (ts : List (EdgeKind × Text)) (p : Pass)
      → All (λ (t : EdgeKind × Text). IsSupertype t.0) ts
      → IsSound p
      → IsSound (hierarchy_targets s src ts p)
  unfolding hierarchy_targets
  hierarchy_targets-IsSound src [] p k h = h
  hierarchy_targets-IsSound src ((kind, target) ∷ ts) p k h =
      hierarchy_targets-IsSound src ts (hierarchy_step s src (kind, target) p) k.1
        (hierarchy_step-IsSound src kind target p k.0 h)

  pub hierarchy_steps-IsSound :
      (headers : List (Text × Header)) (p : Pass) (files : List Text)
      → IsSound p
      → IsSound (hierarchy_steps s headers (p, files)).0
  unfolding hierarchy_steps
  hierarchy_steps-IsSound [] p files h = h
  hierarchy_steps-IsSound ((binary, header) ∷ headers) p files h =
      let src = class_of s p.tables.own_class_ids binary in
      hierarchy_steps-IsSound headers (hierarchy_targets s src (targets header) p)
        (add_file s (file_of s.index src) files)
        (hierarchy_targets-IsSound src (targets header) p
          (inl refl, interfaces-IsSupertype header.interfaces) h)

module _ (s : Setting) where
  hierarchy_step-same :
      (src : Text) (t : EdgeKind × Text) (p : Pass)
      → (hierarchy_step s src t p).counts.override_edges ≡ p.counts.override_edges
  unfolding hierarchy_step emit_hierarchy
  hierarchy_step-same src (kind, target) p =
      elim (Bool-cases (
        is_empty target
        || is_empty (class_id s.index target)
        || text_eq (class_id s.index target) src)) [ inl e ↦ rw e refl | inr e ↦ rw e refl ]

  hierarchy_targets-same :
      (src : Text) (ts : List (EdgeKind × Text)) (p : Pass)
      → (hierarchy_targets s src ts p).counts.override_edges ≡ p.counts.override_edges
  unfolding hierarchy_targets
  hierarchy_targets-same src [] p = refl
  hierarchy_targets-same src (t ∷ ts) p =
      hierarchy_targets-same src ts (hierarchy_step s src t p) ∙ hierarchy_step-same src t p

  -- No header adds to the counter of OVERRIDES edges.
  pub hierarchy_steps-same :
      (headers : List (Text × Header)) (p : Pass) (files : List Text)
      → (hierarchy_steps s headers (p, files)).0.counts.override_edges ≡ p.counts.override_edges
  unfolding hierarchy_steps
  hierarchy_steps-same [] p files = refl
  hierarchy_steps-same ((binary, header) ∷ headers) p files =
      let src = class_of s p.tables.own_class_ids binary in
      hierarchy_steps-same headers (hierarchy_targets s src (targets header) p)
        (add_file s (file_of s.index src) files)
      ∙ hierarchy_targets-same src (targets header) p
