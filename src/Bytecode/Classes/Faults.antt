-- ===== src/Bytecode/Classes/Faults.antt =====
-- The one exception that leaves the loop over classes: a malformed descriptor on a method that
-- needs a node of its own.
use mathlib.Core.List.{Memᴰ}
use graph_ingest_test.Prelude.{
  ℕ, ◌≡◌, refl, ◌↔◌, List, [], ◌∷◌, Option, none, some, true, false, ◌||◌, ◌⊎◌, inl, inr,
  Bool-cases, Option-cases, Text, is_empty, arith,
}
use graph_ingest_test.Prelude.Result.{Result, Error, ok, err, ◌>>=◌, err_of_map, err_of_bind}
use graph_ingest_test.Classfile.Descriptor.{descriptor_arity}
use graph_ingest_test.Classfile.Shapes.{MethodInfo, ClassInfo, has_line_numbers}
use graph_ingest_test.Matcher.Names.{should_skip_method, caller_needs_synthesis}
use graph_ingest_test.Bytecode.State.{SynthesizedNode, Pass, Setting}
use graph_ingest_test.Bytecode.Classes.{
  Owner, function_node, synthetic_name, make_function, synthesize_node, method_step, method_steps,
  owner_of, class_step, class_steps,
}

-- A method with no source declaration, with lines and a file.
pub record NeedsNode (c : ClassInfo) (o : Owner) (m : MethodInfo) : Type 0 where
  pub kept : should_skip_method m ≡ false
  pub synthetic : caller_needs_synthesis c m ≡ true
  pub lines : has_line_numbers m ≡ true
  pub file : is_empty o.file ≡ false

synthetic_name-none :
    (c : ClassInfo) (m : MethodInfo)
    → synthetic_name c m ≡ none
    → caller_needs_synthesis c m ≡ false
unfolding synthetic_name caller_needs_synthesis
synthetic_name-none c m h = ground arith

synthetic_name-some :
    (c : ClassInfo) (m : MethodInfo)
    → caller_needs_synthesis c m ≡ true
    → (named : Text × Text) × (synthetic_name c m ≡ some named)
synthetic_name-some c m h = elim (Option-cases (synthetic_name c m)) [
  | inl e ↦ absurd (unnamed e)
  | inr found ↦ found
]
  where
    unnamed : synthetic_name c m ≡ none → ⊥
    unnamed e = cc (synthetic_name-none c m e)

module _ (s : Setting) (c : ClassInfo) (o : Owner) (m : MethodInfo) where
  synthesize_node-arity :
      NeedsNode c o m
      → (make : ℕ → SynthesizedNode) × (synthesize_node s c o m
          ≡ (descriptor_arity m.descriptor >>= λ n. ok (some (make n))))
  unfolding synthesize_node make_function
  synthesize_node-arity h =
      let (named, e) = synthetic_name-some c m h.synthetic in
      (λ n. record (function_node s o m named) { param_count = n }, rw (h.lines, h.file, e) refl)

  synthesize_node_ok :
      (has_line_numbers m ≡ false) ⊎ (is_empty o.file ≡ true) → synthesize_node s c o m ≡ ok none
  unfolding synthesize_node
  synthesize_node_ok h = elim h [
    | inl e ↦ rw e refl
    | inr e ↦
        rw e (elim (Bool-cases (has_line_numbers m)) [ inl l ↦ rw l refl | inr l ↦ rw l refl ])
  ]

  method_step-NeedsNode :
      (p : Pass) (e : Error)
      → NeedsNode c o m
      → descriptor_arity m.descriptor ≡ err e
      → method_step s c o m p ≡ err e
  unfolding method_step
  method_step-NeedsNode p e h bad =
      let (make, made) = synthesize_node-arity h in rw (h.kept, h.synthetic, made, bad) refl

  synthesize_node-err :
      (e : Error)
      → should_skip_method m ≡ false
      → caller_needs_synthesis c m ≡ true
      → synthesize_node s c o m ≡ err e
      → NeedsNode c o m × (descriptor_arity m.descriptor ≡ err e)
  synthesize_node-err e k n raised = elim (Bool-cases (has_line_numbers m)) [
    | inr l ↦ absurd (ok_err (synthesize_node_ok (inl l)) raised)
    | inl l ↦ elim (Bool-cases (is_empty o.file)) [
      | inl f ↦ absurd (ok_err (synthesize_node_ok (inr f)) raised)
      | inr f ↦
          let needs : NeedsNode c o m = record { kept = k; synthetic = n; lines = l; file = f } in
          let (make, made) = synthesize_node-arity needs in
          (
            needs,
            err_of_map (descriptor_arity m.descriptor) (λ n. some (make n)) (rw made at raised),
          )
    ]
  ]
    where
      ok_err : {r : Result (Option SynthesizedNode)} → r ≡ ok none → r ≡ err e → ⊥
      ok_err p q = cc

  method_step-err :
      (p : Pass) (e : Error)
      → method_step s c o m p ≡ err e
      → NeedsNode c o m × (descriptor_arity m.descriptor ≡ err e)
  unfolding method_step
  method_step-err p e raised = elim (Bool-cases (should_skip_method m)) [
    | inl k ↦ cc (rw k at raised)
    | inr k ↦ elim (Bool-cases (caller_needs_synthesis c m)) [
      | inr n ↦ cc (rw (k, n) at raised)
      | inl n ↦
          synthesize_node-err e k n (err_of_map (synthesize_node s c o m) _ (rw (k, n) at raised))
    ]
  ]

-- The descriptor of a method that needs a node raises this exception.
pub record Faulty (s : Setting) (cs : List ClassInfo) (e : Error) : Type 0 where
  pub info : ClassInfo
  pub method : MethodInfo
  pub listed : Memᴰ info cs
  pub declared : Memᴰ method info.methods
  pub needs : NeedsNode info (owner_of s info) method
  pub malformed : descriptor_arity method.descriptor ≡ err e

module _ (s : Setting) where
  -- One method raises exactly if it needs a node of its own and its descriptor is malformed.
  pub method_step_raises :
      (c : ClassInfo) (o : Owner) (m : MethodInfo) (p : Pass) (e : Error)
      → (method_step s c o m p ≡ err e)
        ↔ (NeedsNode c o m × (descriptor_arity m.descriptor ≡ err e))
  method_step_raises c o m p e =
      (method_step-err s c o m p e, λ (h, bad). method_step-NeedsNode s c o m p e h bad)

  method_steps-err :
      (c : ClassInfo) (o : Owner) (ms : List MethodInfo) (p : Pass) (e : Error)
      → method_steps s c o ms p ≡ err e
      → (m : MethodInfo) × Memᴰ m ms × NeedsNode c o m × (descriptor_arity m.descriptor ≡ err e)
  unfolding method_steps
  method_steps-err c o [] p e raised = cc
  method_steps-err c o (m ∷ ms) p e raised =
      elim (err_of_bind (method_step s c o m p) (method_steps s c o ms) raised) [
        | inl here ↦
            let (needs, bad) = method_step-err s c o m p e here in (m, Memᴰ.head refl, needs, bad)
        | inr (q, later) ↦
            let (n, at, needs, bad) = method_steps-err c o ms q e later in
            (n, Memᴰ.tail at, needs, bad)
      ]

  class_step-err :
      (c : ClassInfo) (p : Pass) (e : Error)
      → class_step s c p ≡ err e
      → (m : MethodInfo) × Memᴰ m c.methods
        × NeedsNode c (owner_of s c) m
        × (descriptor_arity m.descriptor ≡ err e)
  unfolding class_step
  class_step-err c p e raised =
      elim (Bool-cases (is_empty (owner_of s c).fqn || is_empty (owner_of s c).id)) [
        | inl out ↦ cc (rw out at raised)
        | inr in_repo ↦ method_steps-err c (owner_of s c) c.methods _ e (rw in_repo at raised)
      ]

  pub class_steps-err :
      (cs : List ClassInfo) (p : Pass) (e : Error) → class_steps s cs p ≡ err e → Faulty s cs e
  unfolding class_steps
  class_steps-err [] p e raised = cc
  class_steps-err (c ∷ cs) p e raised =
      elim (err_of_bind (class_step s c p) (class_steps s cs) raised) [
        | inl here ↦
            let (m, at, needs, bad) = class_step-err c p e here in
            record {
              info = c;
              method = m;
              listed = Memᴰ.head refl;
              declared = at;
              needs = needs;
              malformed = bad;
            }
        | inr (q, later) ↦
            let f = class_steps-err cs q e later in
            record {
              info = f.info;
              method = f.method;
              listed = Memᴰ.tail f.listed;
              declared = f.declared;
              needs = f.needs;
              malformed = f.malformed;
            }
      ]
