-- ===== src/Bytecode/Calls/Sound.antt =====
-- The instructions of a method keep the pass sound.
use graph_ingest_test.Prelude.{
  ◌≡◌, refl, List, [], ◌∷◌, Option, none, some, Bool, true, false, ◌⊎◌, inl, inr, length-append,
  arith, Bool-cases, Text, is_empty, has_text, if◌then◌else◌,
}
use graph_ingest_test.External.{Kind}
use graph_ingest_test.Classfile.Shapes.{
  Invocation, FieldAccess, is_read, InvokeOp, invokevirtual, invokespecial, invokestatic,
  invokeinterface, invokedynamic,
}
use graph_ingest_test.Matcher.Index.{field_id}
use graph_ingest_test.Bytecode.State.{reads, writes, Pass, Setting}
use graph_ingest_test.Bytecode.State.Emitting.{emit-IsOnce}
use graph_ingest_test.Bytecode.State.Agreement.{
  IsSound, Agrees-calls, Agrees-external, Agrees-access,
}
use graph_ingest_test.Bytecode.Calls.{
  external_id, call_kind, add_external_node, external_edge, external_node, emit_external,
  record_external, call_edge, record_call, bound_call, invoke, invoke_all, access_edge,
  record_access, access, access_all,
}

module _ (s : Setting) (caller file : Text) where
  add_external_node-IsSound :
      (k : Kind) (inv : Invocation) (p : Pass)
      → IsSound p
      → IsSound (add_external_node s caller file k inv p)
  unfolding add_external_node
  add_external_node-IsSound k inv p h =
      elim (Bool-cases (has_text (external_id s inv) p.external_ids)) [
        | inl old ↦ rw old h
        | inr new ↦ rw new (record {
          once = h.once;
          agrees = omega (arith, h.agrees);
          nodes = omega (
            arith,
            length-append p.synthesized (external_node (external_id s inv) k inv ∷ []),
            h.nodes,
          );
          targets = omega (arith, h.targets);
        })
      ]

  emit_external-IsSound :
      (inv : Invocation) (p : Pass) → IsSound p → IsSound (emit_external s caller file inv p)
  unfolding emit_external
  emit_external-IsSound inv p h = record {
    once = emit-IsOnce (external_edge s caller file inv) p.output h.once;
    agrees = Agrees-external (external_edge s caller file inv) p.output p.counts h.agrees refl;
    nodes = h.nodes;
    targets = h.targets;
  }

  record_external-IsSound :
      (inv : Invocation) (kind : Option Kind) (p : Pass)
      → IsSound p
      → IsSound (record_external s caller file inv kind p)
  unfolding record_external
  record_external-IsSound inv none p h = h
  record_external-IsSound inv (some kind) p h =
      emit_external-IsSound inv _ (add_external_node-IsSound kind inv p h)

  record_call-IsSound :
      (callee : Text) (inv : Invocation) (kind : Option Kind) (p : Pass)
      → IsSound p
      → IsSound (record_call s caller file callee inv kind p)
  unfolding record_call
  record_call-IsSound callee inv kind p h = elim (Bool-cases (is_empty callee)) [
    | inl out ↦ rw out (record {
      once = h.once;
      agrees = omega (arith, h.agrees);
      nodes = h.nodes;
      targets = h.targets;
    })
    | inr bound ↦ rw bound (record {
      once = emit-IsOnce (call_edge s caller file callee inv) p.output h.once;
      agrees = Agrees-calls (call_edge s caller file callee inv) p.output p.counts h.agrees refl;
      nodes = h.nodes;
      targets = h.targets;
    })
  ]

  bound_call-IsSound :
      (inv : Invocation) (p : Pass) → IsSound p → IsSound (bound_call s caller file inv p)
  unfolding bound_call
  bound_call-IsSound inv p h = record_call-IsSound _ inv _ _ (
      record_external-IsSound inv (call_kind s inv) _
        (record { once = h.once; agrees = h.agrees; nodes = h.nodes; targets = h.targets }))

  invoke-IsSound : (inv : Invocation) (p : Pass) → IsSound p → IsSound (invoke s caller file inv p)
  unfolding invoke
  invoke-IsSound inv p h = dispatch inv.opcode (bound_call-IsSound inv p h)
    where
      dispatch :
          (op : InvokeOp) {q : Pass} → IsSound q → IsSound (elim op [ invokedynamic ↦ p | _ ↦ q ])
      dispatch invokevirtual k = k
      dispatch invokespecial k = k
      dispatch invokestatic k = k
      dispatch invokeinterface k = k
      dispatch invokedynamic k = h

  pub invoke_all-IsSound :
      (invs : List Invocation) (p : Pass) → IsSound p → IsSound (invoke_all s caller file invs p)
  unfolding invoke_all
  invoke_all-IsSound [] p h = h
  invoke_all-IsSound (inv ∷ invs) p h =
      invoke_all-IsSound invs (invoke s caller file inv p) (invoke-IsSound inv p h)

  access_kind :
      (b : Bool)
      → ((if b then reads else writes) ≡ reads) ⊎ ((if b then reads else writes) ≡ writes)
  access_kind true = inl refl
  access_kind false = inr refl

  record_access-IsSound :
      (target : Text) (a : FieldAccess) (p : Pass)
      → IsSound p
      → IsSound (record_access s caller file target a p)
  unfolding record_access
  record_access-IsSound target a p h = elim (Bool-cases (is_empty target)) [
    | inl out ↦
        rw out (record { once = h.once; agrees = h.agrees; nodes = h.nodes; targets = h.targets })
    | inr bound ↦ rw bound (record {
      once = emit-IsOnce (access_edge s caller file target a) p.output h.once;
      agrees =
          Agrees-access (access_edge s caller file target a) p.output p.counts h.agrees
            (access_kind (is_read a.opcode));
      nodes = h.nodes;
      targets = h.targets;
    })
  ]

  pub access_all-IsSound :
      (accesses : List FieldAccess) (p : Pass)
      → IsSound p
      → IsSound (access_all s caller file accesses p)
  unfolding access_all access
  access_all-IsSound [] p h = h
  access_all-IsSound (a ∷ accesses) p h =
      access_all-IsSound accesses (access s caller file a p)
        (record_access-IsSound (field_id s.index a.owner a.name) a p h)
