-- ===== src/Bytecode/State/Agreement.antt =====
-- The counters of `BytecodeReport` against the edges and nodes that the pass holds.
use graph_ingest_test.Prelude.{
  suc, ◌+◌, ◌≡◌, refl, [], ◌∷◌, ◌++◌, ◌&&◌, ◌⊎◌, length, arith, if◌then◌else◌,
}
use graph_ingest_test.Bytecode.State.{
  Edge, contains, calls, calls_external, reads, writes, extends, implements, overrides, Output,
  same_kind, is_new, emit, count_new, Counts, Pass, empty_pass,
}
use graph_ingest_test.Bytecode.State.Emitting.{IsOnce, tally, of_kind, of_kind-append, of_kind-emit}

-- Each counter is the number of edges of its types.
pub record Agrees (c : Counts) (o : Output) : Type 0 where
  pub contained : of_kind contains o.edges ≡ c.synthesized_nodes
  pub called : of_kind calls o.edges ≡ c.call_edges
  pub left : of_kind calls_external o.edges ≡ c.external_edges
  pub accessed : of_kind reads o.edges + of_kind writes o.edges ≡ c.field_edges
  pub inherited : of_kind extends o.edges + of_kind implements o.edges ≡ c.hierarchy_edges
  pub overridden : of_kind overrides o.edges ≡ c.override_edges

-- What an emitted edge adds to the number of edges of each type.
record Emitted (e : Edge) (o : Output) : Type 0 where
  to_contains :
      of_kind contains (emit e o).edges
      ≡ of_kind contains o.edges + (if is_new e o && same_kind contains e.kind then 1 else 0)
  to_calls :
      of_kind calls (emit e o).edges
      ≡ of_kind calls o.edges + (if is_new e o && same_kind calls e.kind then 1 else 0)
  to_calls_external :
      of_kind calls_external (emit e o).edges
      ≡ of_kind calls_external o.edges
        + (if is_new e o && same_kind calls_external e.kind then 1 else 0)
  to_reads :
      of_kind reads (emit e o).edges
      ≡ of_kind reads o.edges + (if is_new e o && same_kind reads e.kind then 1 else 0)
  to_writes :
      of_kind writes (emit e o).edges
      ≡ of_kind writes o.edges + (if is_new e o && same_kind writes e.kind then 1 else 0)
  to_extends :
      of_kind extends (emit e o).edges
      ≡ of_kind extends o.edges + (if is_new e o && same_kind extends e.kind then 1 else 0)
  to_implements :
      of_kind implements (emit e o).edges
      ≡ of_kind implements o.edges + (if is_new e o && same_kind implements e.kind then 1 else 0)
  to_overrides :
      of_kind overrides (emit e o).edges
      ≡ of_kind overrides o.edges + (if is_new e o && same_kind overrides e.kind then 1 else 0)

emitted : (e : Edge) (o : Output) → Emitted e o
emitted e o = record {
  to_contains = of_kind-emit contains e o;
  to_calls = of_kind-emit calls e o;
  to_calls_external = of_kind-emit calls_external e o;
  to_reads = of_kind-emit reads e o;
  to_writes = of_kind-emit writes e o;
  to_extends = of_kind-emit extends e o;
  to_implements = of_kind-emit implements e o;
  to_overrides = of_kind-emit overrides e o;
}

module _ (e : Edge) (o : Output) (c : Counts) (h : Agrees c o) where
  pub Agrees-calls :
      e.kind ≡ calls → Agrees (record c { call_edges = count_new e o c.call_edges }) (emit e o)
  unfolding count_new
  Agrees-calls k = ground (arith, emitted e o)

  pub Agrees-external :
      e.kind ≡ calls_external
      → Agrees (record c { external_edges = count_new e o c.external_edges }) (emit e o)
  unfolding count_new
  Agrees-external k = ground (arith, emitted e o)

  pub Agrees-access :
      (e.kind ≡ reads) ⊎ (e.kind ≡ writes)
      → Agrees (record c { field_edges = count_new e o c.field_edges }) (emit e o)
  unfolding count_new
  Agrees-access k = ground (arith, emitted e o)

  pub Agrees-hierarchy :
      (e.kind ≡ extends) ⊎ (e.kind ≡ implements)
      → Agrees (record c { hierarchy_edges = count_new e o c.hierarchy_edges }) (emit e o)
  unfolding count_new
  Agrees-hierarchy k = ground (arith, emitted e o)

  pub Agrees-overrides :
      e.kind ≡ overrides
      → Agrees (record c { override_edges = count_new e o c.override_edges }) (emit e o)
  unfolding count_new
  Agrees-overrides k = ground (arith, emitted e o)

  pub Agrees-contains :
      e.kind ≡ contains
      → Agrees
          (record c { synthesized_nodes = suc c.synthesized_nodes })
          (record o { edges = o.edges ++ e ∷ [] })
  Agrees-contains k = ground (
    arith,
    of_kind-append contains o.edges e,
    of_kind-append calls o.edges e,
    of_kind-append calls_external o.edges e,
    of_kind-append reads o.edges e,
    of_kind-append writes o.edges e,
    of_kind-append extends o.edges e,
    of_kind-append implements o.edges e,
    of_kind-append overrides o.edges e,
  )

-- The edges are published once, and the counters are those of edges and nodes.
pub record IsSound (p : Pass) : Type 0 where
  pub once : IsOnce p.output
  pub agrees : Agrees p.counts p.output
  pub nodes : length p.synthesized ≡ p.counts.synthesized_nodes + p.counts.external_nodes
  pub targets : length p.external_ids ≡ p.counts.external_nodes

pub empty_pass-IsSound : IsSound empty_pass
unfolding of_kind tally
empty_pass-IsSound = record {
  once = λ k h. refl;
  agrees = record {
    contained = refl;
    called = refl;
    left = refl;
    accessed = refl;
    inherited = refl;
    overridden = refl;
  };
  nodes = refl;
  targets = refl;
}
