-- ===== src/Bytecode/Overrides/Sound.antt =====
-- The loop over `declared_methods` keeps the pass sound.
use graph_ingest_test.Prelude.{
  ◌≡◌, refl, List, [], ◌∷◌, ◌||◌, inl, inr, Bool-cases, Text, text_eq, is_empty, arith,
}
use graph_ingest_test.Prelude.Result.{Ensures, Ensures-bind, Ensures-any}
use graph_ingest_test.Matcher.Lookup.{override_target}
use graph_ingest_test.Bytecode.State.{Edge, overrides, Header, Declared, Setting}
use graph_ingest_test.Bytecode.State.Emitting.{emit-IsOnce}
use graph_ingest_test.Bytecode.State.Agreement.{IsSound, Agrees-overrides}
use graph_ingest_test.Bytecode.Overrides.{
  Walk, ancestors, Progress, emit_override, override_step, override_chain, claim, override_methods,
  count_truncated, override_classes,
}

abbrev pub IsSoundProgress : Progress → Type 0
IsSoundProgress g = IsSound g.0

module _ (s : Setting) where
  emit_override-IsSound :
      (e : Edge) (g : Progress)
      → e.kind ≡ overrides
      → IsSoundProgress g
      → IsSoundProgress (emit_override s e g)
  unfolding emit_override
  emit_override-IsSound e (p, k) o h = record {
    once = emit-IsOnce e p.output h.once;
    agrees = Agrees-overrides e p.output p.counts h.agrees o;
    nodes = h.nodes;
    targets = h.targets;
  }

  override_step-IsSound :
      (d : Declared) (a : Text) (g : Progress)
      → IsSoundProgress g
      → IsSoundProgress (override_step s d a g)
  unfolding override_step
  override_step-IsSound (m, method_id) a g h =
      elim (Bool-cases (
        is_empty (override_target s.index a m.name m.descriptor)
        || text_eq (override_target s.index a m.name m.descriptor) method_id)) [
          | inl e ↦ rw e h
          | inr e ↦ rw e (emit_override-IsSound _ g refl h)
        ]

  override_chain-IsSound :
      (d : Declared) (chain : List Text) (g : Progress)
      → IsSoundProgress g
      → IsSoundProgress (override_chain s d chain g)
  unfolding override_chain
  override_chain-IsSound d [] g h = h
  override_chain-IsSound d (a ∷ chain) g h =
      override_chain-IsSound d chain (override_step s d a g) (override_step-IsSound d a g h)

  override_methods-IsSound :
      (w : Walk) (ds : List Declared) (g : Progress)
      → IsSoundProgress g
      → IsSoundProgress (override_methods s w ds g)
  unfolding override_methods claim
  override_methods-IsSound w [] g h = h
  override_methods-IsSound w ((m, method_id) ∷ ds) g h =
      override_methods-IsSound w ds
        (claim s w.complete method_id (override_chain s (m, method_id) w.chain g))
        (override_chain-IsSound (m, method_id) w.chain g h)

  count_truncated-IsSound :
      (w : Walk) (g : Progress) → IsSoundProgress g → IsSoundProgress (count_truncated s w g)
  unfolding count_truncated
  count_truncated-IsSound w (p, k) h = elim (Bool-cases w.complete) [
    | inl e ↦ rw e h
    | inr e ↦ rw e (record {
      once = h.once;
      agrees = omega (arith, h.agrees);
      nodes = h.nodes;
      targets = h.targets;
    })
  ]

  pub override_classes-IsSound :
      (hierarchy : List (Text × Header)) (classes : List (Text × List Declared)) (g : Progress)
      → IsSoundProgress g
      → Ensures IsSoundProgress (override_classes s hierarchy classes g)
  unfolding override_classes
  override_classes-IsSound hierarchy [] g h = h
  override_classes-IsSound hierarchy ((binary, ds) ∷ classes) g h =
      Ensures-bind (λ _. Unit {0}) IsSoundProgress (ancestors s.index hierarchy binary) _
        (Ensures-any (λ _. Unit {0}) (ancestors s.index hierarchy binary) (λ _. tt))
        (λ w _.
          override_classes-IsSound hierarchy classes _
            (count_truncated-IsSound w _ (override_methods-IsSound w ds g h)))
