-- ===== src/Bytecode/Classes/Untouched.antt =====
-- Before the loop over `declared_methods` the counter of OVERRIDES edges stays.
use graph_ingest_test.Prelude.{
  ℕ, ◌≡◌, ◌∙◌, refl, List, [], ◌∷◌, Option, none, some, ◌||◌, inl, inr, Bool-cases, Text, is_empty,
  has_text,
}
use graph_ingest_test.Prelude.Result.{Ensures, Ensures-bind, Ensures-any}
use graph_ingest_test.External.{Kind}
use graph_ingest_test.Classfile.Shapes.{
  MethodInfo, ClassInfo, Invocation, FieldAccess, InvokeOp, invokevirtual, invokespecial,
  invokestatic, invokeinterface, invokedynamic,
}
use graph_ingest_test.Matcher.Names.{should_skip_method, caller_needs_synthesis}
use graph_ingest_test.Matcher.Index.{field_id}
use graph_ingest_test.Matcher.Lookup.{method_id}
use graph_ingest_test.Bytecode.State.{SynthesizedNode, Pass, Setting}
use graph_ingest_test.Bytecode.Calls.{
  external_id, call_kind, add_external_node, emit_external, record_external, record_call,
  bound_call, invoke, invoke_all, record_access, access, access_all,
}
use graph_ingest_test.Bytecode.Classes.{
  Owner, synthesize_node, walk_method, add_function, walk_synthesized, walk_matched, method_step,
  method_steps, owner_of, enter_class, class_step, class_steps,
}

abbrev pub overridden : Pass → ℕ
overridden p = p.counts.override_edges

module _ (s : Setting) (caller file : Text) where
  add_external_node-same :
      (k : Kind) (inv : Invocation) (p : Pass)
      → overridden (add_external_node s caller file k inv p) ≡ overridden p
  unfolding add_external_node
  add_external_node-same k inv p = elim (Bool-cases (has_text (external_id s inv) p.external_ids)) [
    | inl e ↦ rw e refl
    | inr e ↦ rw e refl
  ]

  record_external-same :
      (inv : Invocation) (kind : Option Kind) (p : Pass)
      → overridden (record_external s caller file inv kind p) ≡ overridden p
  unfolding record_external emit_external
  record_external-same inv none p = refl
  record_external-same inv (some k) p = add_external_node-same k inv p

  record_call-same :
      (callee : Text) (inv : Invocation) (kind : Option Kind) (p : Pass)
      → overridden (record_call s caller file callee inv kind p) ≡ overridden p
  unfolding record_call
  record_call-same callee inv kind p = elim (Bool-cases (is_empty callee)) [
    | inl e ↦ rw e refl
    | inr e ↦ rw e refl
  ]

  invoke-same :
      (inv : Invocation) (p : Pass) → overridden (invoke s caller file inv p) ≡ overridden p
  unfolding invoke bound_call
  invoke-same inv p =
      dispatch inv.opcode _
        (record_call-same _ inv (call_kind s inv) _ ∙ record_external-same inv (call_kind s inv) _)
    where
      dispatch :
          (op : InvokeOp) (q : Pass)
          → overridden q ≡ overridden p
          → overridden (elim op [ invokedynamic ↦ p | _ ↦ q ]) ≡ overridden p
      dispatch invokevirtual q k = k
      dispatch invokespecial q k = k
      dispatch invokestatic q k = k
      dispatch invokeinterface q k = k
      dispatch invokedynamic q k = refl

  invoke_all-same :
      (invs : List Invocation) (p : Pass)
      → overridden (invoke_all s caller file invs p) ≡ overridden p
  unfolding invoke_all
  invoke_all-same [] p = refl
  invoke_all-same (inv ∷ invs) p =
      invoke_all-same invs (invoke s caller file inv p) ∙ invoke-same inv p

  record_access-same :
      (target : Text) (a : FieldAccess) (p : Pass)
      → overridden (record_access s caller file target a p) ≡ overridden p
  unfolding record_access
  record_access-same target a p = elim (Bool-cases (is_empty target)) [
    | inl e ↦ rw e refl
    | inr e ↦ rw e refl
  ]

  access_all-same :
      (accesses : List FieldAccess) (p : Pass)
      → overridden (access_all s caller file accesses p) ≡ overridden p
  unfolding access_all access
  access_all-same [] p = refl
  access_all-same (a ∷ accesses) p =
      access_all-same accesses (access s caller file a p)
      ∙ record_access-same (field_id s.index a.owner a.name) a p

module _ (s : Setting) where
  walk_method-same :
      (c : ClassInfo) (o : Owner) (m : MethodInfo) (caller : Text) (p : Pass)
      → overridden (walk_method s c o m caller p) ≡ overridden p
  unfolding walk_method
  walk_method-same c o m caller p =
      access_all-same s caller o.file m.field_accesses _
      ∙ invoke_all-same s caller o.file m.invocations _

  walk_synthesized-same :
      (c : ClassInfo) (o : Owner) (m : MethodInfo) (n : Option SynthesizedNode) (p : Pass)
      → overridden (walk_synthesized s c o m n p) ≡ overridden p
  unfolding walk_synthesized add_function
  walk_synthesized-same c o m none p = refl
  walk_synthesized-same c o m (some node) p = walk_method-same c o m node.id _

  abbrev Keeps : ℕ → Pass → Type 0
  Keeps n p = overridden p ≡ n

  method_step-same :
      (c : ClassInfo) (o : Owner) (m : MethodInfo) (n : ℕ) (p : Pass)
      → Keeps n p
      → Ensures (Keeps n) (method_step s c o m p)
  unfolding method_step walk_matched
  method_step-same c o m n p h = elim (Bool-cases (should_skip_method m)) [
    | inl e ↦ rw e h
    | inr e ↦ rw e (elim (Bool-cases (caller_needs_synthesis c m)) [
      | inl q ↦ rw q (
          Ensures-bind (λ _. Unit {0}) (Keeps n) (synthesize_node s c o m) _
            (Ensures-any (λ _. Unit {0}) (synthesize_node s c o m) (λ _. tt))
            (λ node _. walk_synthesized-same c o m node _ ∙ h))
      | inr q ↦
          rw q
            (elim (Bool-cases (is_empty (method_id s.index c.name m.name m.descriptor p.stats).0)) [
              | inl k ↦ rw k h
              | inr k ↦ rw k (walk_method-same c o m _ _ ∙ h)
            ])
    ])
  ]

  method_steps-same :
      (c : ClassInfo) (o : Owner) (n : ℕ) (ms : List MethodInfo) (p : Pass)
      → Keeps n p
      → Ensures (Keeps n) (method_steps s c o ms p)
  unfolding method_steps
  method_steps-same c o n [] p h = h
  method_steps-same c o n (m ∷ ms) p h =
      Ensures-bind (Keeps n) (Keeps n) (method_step s c o m p) _ (method_step-same c o m n p h)
        (method_steps-same c o n ms)

  class_step-same :
      (n : ℕ) (c : ClassInfo) (p : Pass) → Keeps n p → Ensures (Keeps n) (class_step s c p)
  unfolding class_step enter_class
  class_step-same n c p h =
      elim (Bool-cases (is_empty (owner_of s c).fqn || is_empty (owner_of s c).id)) [
        | inl e ↦ rw e h
        | inr e ↦ rw e (method_steps-same c (owner_of s c) n c.methods _ h)
      ]

  pub class_steps-same :
      (n : ℕ) (cs : List ClassInfo) (p : Pass) → Keeps n p → Ensures (Keeps n) (class_steps s cs p)
  unfolding class_steps
  class_steps-same n [] p h = h
  class_steps-same n (c ∷ cs) p h =
      Ensures-bind (Keeps n) (Keeps n) (class_step s c p) _ (class_step-same n c p h)
        (class_steps-same n cs)
