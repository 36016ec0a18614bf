-- ===== src/Bytecode/Classes/Sound.antt =====
-- The loop over classes keeps the pass sound.
use graph_ingest_test.Prelude.{
  refl, List, [], ◌∷◌, Option, none, some, ◌||◌, inl, inr, length-append, arith, Bool-cases, Text,
  is_empty,
}
use graph_ingest_test.Prelude.Result.{Ensures, Ensures-bind, Ensures-any}
use graph_ingest_test.Classfile.Shapes.{MethodInfo, ClassInfo}
use graph_ingest_test.Matcher.Names.{should_skip_method, caller_needs_synthesis}
use graph_ingest_test.Matcher.Lookup.{MatchStats, method_id}
use graph_ingest_test.Bytecode.State.{SynthesizedNode, Pass, Setting}
use graph_ingest_test.Bytecode.State.Emitting.{append-IsOnce}
use graph_ingest_test.Bytecode.State.Agreement.{IsSound, Agrees-contains}
use graph_ingest_test.Bytecode.Calls.Sound.{invoke_all-IsSound, access_all-IsSound}
use graph_ingest_test.Bytecode.Classes.{
  Owner, synthesize_node, walk_method, contains_edge, add_function, walk_synthesized,
  count_construct, walk_matched, method_step, method_steps, owner_of, see_class, enter_class,
  class_step, class_steps,
}

module _ (s : Setting) where
  walk_method-IsSound :
      (c : ClassInfo) (o : Owner) (m : MethodInfo) (caller : Text) (p : Pass)
      → IsSound p
      → IsSound (walk_method s c o m caller p)
  unfolding walk_method
  walk_method-IsSound c o m caller p h = access_all-IsSound s caller o.file m.field_accesses _ (
      invoke_all-IsSound s caller o.file m.invocations _
        (record { once = h.once; agrees = h.agrees; nodes = h.nodes; targets = h.targets }))

  add_function-IsSound :
      (o : Owner) (m : MethodInfo) (node : SynthesizedNode) (p : Pass)
      → IsSound p
      → IsSound (add_function s o m node p)
  unfolding add_function
  add_function-IsSound o m node p h = record {
    once = append-IsOnce (contains_edge s o m node.id) p.output refl h.once;
    agrees = Agrees-contains (contains_edge s o m node.id) p.output p.counts h.agrees refl;
    nodes = omega (arith, length-append p.synthesized (node ∷ []), h.nodes);
    targets = h.targets;
  }

  walk_synthesized-IsSound :
      (c : ClassInfo) (o : Owner) (m : MethodInfo) (n : Option SynthesizedNode) (p : Pass)
      → IsSound p
      → IsSound (walk_synthesized s c o m n p)
  unfolding walk_synthesized
  walk_synthesized-IsSound c o m none p h = record {
    once = h.once;
    agrees = omega (arith, h.agrees);
    nodes = h.nodes;
    targets = h.targets;
  }
  walk_synthesized-IsSound c o m (some node) p h =
      walk_method-IsSound c o m node.id _ (add_function-IsSound o m node p h)

  with_stats-IsSound : (t : MatchStats) (p : Pass) → IsSound p → IsSound (record p { stats = t })
  with_stats-IsSound t p h = record {
    once = h.once;
    agrees = h.agrees;
    nodes = h.nodes;
    targets = h.targets;
  }

  walk_matched-IsSound :
      (c : ClassInfo) (o : Owner) (m : MethodInfo) (found : Text × MatchStats) (p : Pass)
      → IsSound p
      → IsSound (walk_matched s c o m found p)
  unfolding walk_matched
  walk_matched-IsSound c o m (caller, t) p h = elim (Bool-cases (is_empty caller)) [
    | inl e ↦ rw e (with_stats-IsSound t p h)
    | inr e ↦ rw e (walk_method-IsSound c o m caller _ (with_stats-IsSound t p h))
  ]

  method_step-IsSound :
      (c : ClassInfo) (o : Owner) (m : MethodInfo) (p : Pass)
      → IsSound p
      → Ensures IsSound (method_step s c o m p)
  unfolding method_step
  method_step-IsSound c o m p h = elim (Bool-cases (should_skip_method m)) [
    | inl e ↦ rw e (with_stats-IsSound _ p h)
    | inr e ↦ rw e (elim (Bool-cases (caller_needs_synthesis c m)) [
      | inl n ↦ rw n (
          Ensures-bind (λ _. Unit {0}) IsSound (synthesize_node s c o m) _
            (Ensures-any (λ _. Unit {0}) (synthesize_node s c o m) (λ _. tt))
            (λ node _.
              walk_synthesized-IsSound c o m node _
                (with_stats-IsSound (count_construct s m p.stats) p h)))
      | inr n ↦
          rw n
            (walk_matched-IsSound c o m (method_id s.index c.name m.name m.descriptor p.stats) p h)
    ])
  ]

  method_steps-IsSound :
      (c : ClassInfo) (o : Owner) (ms : List MethodInfo) (p : Pass)
      → IsSound p
      → Ensures IsSound (method_steps s c o ms p)
  unfolding method_steps
  method_steps-IsSound c o [] p h = h
  method_steps-IsSound c o (m ∷ ms) p h =
      Ensures-bind IsSound IsSound (method_step s c o m p) _ (method_step-IsSound c o m p h)
        (method_steps-IsSound c o ms)

  see_class-IsSound : (p : Pass) → IsSound p → IsSound (see_class s p)
  see_class-IsSound p h = record {
    once = h.once;
    agrees = omega (arith, h.agrees);
    nodes = h.nodes;
    targets = h.targets;
  }

  enter_class-IsSound :
      (c : ClassInfo) (o : Owner) (p : Pass) → IsSound p → IsSound (enter_class s c o p)
  unfolding enter_class
  enter_class-IsSound c o p h = record {
    once = h.once;
    agrees = omega (arith, h.agrees);
    nodes = h.nodes;
    targets = h.targets;
  }

  class_step-IsSound : (c : ClassInfo) (p : Pass) → IsSound p → Ensures IsSound (class_step s c p)
  unfolding class_step
  class_step-IsSound c p h =
      elim (Bool-cases (is_empty (owner_of s c).fqn || is_empty (owner_of s c).id)) [
        | inl e ↦ rw e (see_class-IsSound p h)
        | inr e ↦ rw e (
            method_steps-IsSound c (owner_of s c) c.methods _
              (enter_class-IsSound c (owner_of s c) _ (see_class-IsSound p h)))
      ]

  pub class_steps-IsSound :
      (cs : List ClassInfo) (p : Pass) → IsSound p → Ensures IsSound (class_steps s cs p)
  unfolding class_steps
  class_steps-IsSound [] p h = h
  class_steps-IsSound (c ∷ cs) p h =
      Ensures-bind IsSound IsSound (class_step s c p) _ (class_step-IsSound c p h)
        (class_steps-IsSound cs)
