-- ===== src/Bytecode/Overrides/Emitted.antt =====
-- `emitted_override_pairs` is the set of the OVERRIDES edges in `seen`.
use graph_ingest_test.Prelude.{
  ◌≡◌, refl, List, [], ◌∷◌, Bool, true, false, ◌||◌, inl, inr, Bool-cases, any_of, Text, text_eq,
  is_empty,
}
use graph_ingest_test.Prelude.Result.{Ensures, Ensures-bind, Ensures-any}
use graph_ingest_test.Classfile.Shapes.{MethodInfo}
use graph_ingest_test.Matcher.Lookup.{override_target}
use graph_ingest_test.Bytecode.State.{Header, Declared, Setting, same_key, emit, is_new}
use graph_ingest_test.Bytecode.Overrides.{
  Walk, ancestors, Progress, override_edge, emit_override, override_step, override_chain, claim,
  override_methods, count_truncated, override_classes, has_pair,
}
use graph_ingest_test.Bytecode.Overrides.Claimed.{override_key}

abbrev pub Mirrors : Progress → Type 0
Mirrors g =
    (a b : Text)
    → any_of (same_key (override_key a b)) g.0.output.seen ≡ has_pair (a, b) g.1.emitted_pairs

module _ (s : Setting) where
  emit_override-Mirrors :
      (m : MethodInfo) (i t : Text) (g : Progress)
      → Mirrors g
      → Mirrors (emit_override s (override_edge s m i t) g)
  unfolding emit_override emit same_key
  emit_override-Mirrors m i t (p, k) h a b =
      elim (Bool-cases (is_new (override_edge s m i t) p.output)) [
        | inl new ↦ rw (new, h a b) refl
        | inr old ↦ rw (old, h a b) refl
      ]

  override_step-Mirrors :
      (d : Declared) (a : Text) (g : Progress) → Mirrors g → Mirrors (override_step s d a g)
  unfolding override_step
  override_step-Mirrors (m, method_id) a g h =
      elim (Bool-cases (
        is_empty (override_target s.index a m.name m.descriptor)
        || text_eq (override_target s.index a m.name m.descriptor) method_id)) [
          | inl e ↦ rw e h
          | inr e ↦ rw e (emit_override-Mirrors m method_id _ g h)
        ]

  override_chain-Mirrors :
      (d : Declared) (chain : List Text) (g : Progress)
      → Mirrors g
      → Mirrors (override_chain s d chain g)
  unfolding override_chain
  override_chain-Mirrors d [] g h = h
  override_chain-Mirrors d (a ∷ chain) g h =
      override_chain-Mirrors d chain (override_step s d a g) (override_step-Mirrors d a g h)

  claim-Mirrors :
      (complete : Bool) (i : Text) (g : Progress) → Mirrors g → Mirrors (claim s complete i g)
  unfolding claim
  claim-Mirrors true i (p, k) h = h
  claim-Mirrors false i (p, k) h = h

  override_methods-Mirrors :
      (w : Walk) (ds : List Declared) (g : Progress)
      → Mirrors g
      → Mirrors (override_methods s w ds g)
  unfolding override_methods
  override_methods-Mirrors w [] g h = h
  override_methods-Mirrors w ((m, method_id) ∷ ds) g h =
      override_methods-Mirrors w ds
        (claim s w.complete method_id (override_chain s (m, method_id) w.chain g))
        (claim-Mirrors w.complete method_id (override_chain s (m, method_id) w.chain g)
          (override_chain-Mirrors (m, method_id) w.chain g h))

  count_truncated-Mirrors : (w : Walk) (g : Progress) → Mirrors g → Mirrors (count_truncated s w g)
  unfolding count_truncated
  count_truncated-Mirrors w (p, k) h = elim (Bool-cases w.complete) [
    | inl e ↦ rw e h
    | inr e ↦ rw e h
  ]

  pub override_classes-Mirrors :
      (hierarchy : List (Text × Header)) (classes : List (Text × List Declared)) (g : Progress)
      → Mirrors g
      → Ensures Mirrors (override_classes s hierarchy classes g)
  unfolding override_classes
  override_classes-Mirrors hierarchy [] g h = h
  override_classes-Mirrors hierarchy ((binary, ds) ∷ classes) g h =
      Ensures-bind (λ _. Unit {0}) Mirrors (ancestors s.index hierarchy binary) _
        (Ensures-any (λ _. Unit {0}) (ancestors s.index hierarchy binary) (λ _. tt))
        (λ w _.
          override_classes-Mirrors hierarchy classes _
            (count_truncated-Mirrors w _ (override_methods-Mirrors w ds g h)))
