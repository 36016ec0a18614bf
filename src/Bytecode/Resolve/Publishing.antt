-- ===== src/Bytecode/Resolve/Publishing.antt =====
-- What `resolve_java_bytecode` publishes, and what it withholds.
use graph_ingest_test.Prelude.{
  ℕ, ◌+◌, ◌≤◌, ◌≡◌, refl, List, [], true, false, ◌⊎◌, inl, inr, Bool-cases, ◌==◌, length,
}
use graph_ingest_test.Prelude.Result.{ok, Ensures, Ensures-bind, Ensures_ok}
use graph_ingest_test.Classfile.Shapes.{ClassInfo}
use graph_ingest_test.Bytecode.State.{
  contains, calls, calls_external, reads, writes, extends, implements, overrides, EdgeKey,
  same_kind, Pass, Setting, empty_pass,
}
use graph_ingest_test.Bytecode.State.Emitting.{IsOnce-le, tally, of_kind}
use graph_ingest_test.Bytecode.State.Agreement.{IsSound, empty_pass-IsSound}
use graph_ingest_test.Bytecode.Classes.{class_steps}
use graph_ingest_test.Bytecode.Classes.Sound.{class_steps-IsSound}
use graph_ingest_test.Bytecode.Hierarchy.{hierarchy_steps}
use graph_ingest_test.Bytecode.Hierarchy.Sound.{hierarchy_steps-IsSound}
use graph_ingest_test.Bytecode.Overrides.{override_classes}
use graph_ingest_test.Bytecode.Overrides.Sound.{IsSoundProgress, override_classes-IsSound}
use graph_ingest_test.Bytecode.Resolve.{
  Rate, Report, Resolution, match_rate, below, scanned, published, finish, judge, resolve,
  first_report, nothing, no_claims, no_taint, no_class_in_repo, stale,
}

-- Edges, nodes and claims of a pass that was thrown away: none.
pub record Withheld (r : Resolution) : Type 0 where
  pub edges : r.edges ≡ []
  pub nodes : r.nodes ≡ []
  pub hierarchy_files : r.report.hierarchy_files ≡ []
  pub authoritative : r.report.claims.authoritative ≡ []
  pub emitted_pairs : r.report.claims.emitted_pairs ≡ []
  pub sink_kinds : r.report.taint.sink_kinds ≡ []
  pub sources : r.report.taint.sources ≡ []
  pub sanitizers : r.report.taint.sanitizers ≡ []
  pub sites : r.report.taint.sites ≡ []

-- A pass that is kept: what it publishes, each edge once and counted.
pub record Published (s : Setting) (floor : Rate) (r : Resolution) : Type 0 where
  pub fresh : below (match_rate r.report.match_stats) floor ≡ false
  pub once : (k : EdgeKey) → same_kind k.kind contains ≡ false → tally k r.edges ≤ 1
  pub calls : of_kind calls r.edges ≡ r.report.counts.call_edges
  pub external : of_kind calls_external r.edges ≡ r.report.counts.external_edges
  pub fields : of_kind reads r.edges + of_kind writes r.edges ≡ r.report.counts.field_edges
  pub hierarchy :
      of_kind extends r.edges + of_kind implements r.edges ≡ r.report.counts.hierarchy_edges
  pub overrides : of_kind overrides r.edges ≡ r.report.counts.override_edges
  pub nodes : length r.nodes ≡ r.report.counts.synthesized_nodes + r.report.counts.external_nodes

abbrev pub Verdict : Setting → Rate → Resolution → Type 0
Verdict s floor r =
    (r.report.available ≡ true) × Published s floor r ⊎ (r.report.available ≡ false) × Withheld r

nothing-Withheld :
    (r : Report)
    → r.hierarchy_files ≡ []
    → r.claims ≡ no_claims
    → r.taint ≡ no_taint
    → Withheld (nothing r)
nothing-Withheld r f c t = record {
  edges = refl;
  nodes = refl;
  hierarchy_files = f;
  authoritative = rw c refl;
  emitted_pairs = rw c refl;
  sink_kinds = rw t refl;
  sources = rw t refl;
  sanitizers = rw t refl;
  sites = rw t refl;
}

module _ (s : Setting) (floor : Rate) where
  finish-Published :
      (r : Report) (p : Pass)
      → IsSound p
      → below (match_rate r.match_stats) floor ≡ false
      → Ensures (Verdict s floor) (finish s r p)
  unfolding finish published
  finish-Published r p h fresh =
      Ensures-bind IsSoundProgress (Verdict s floor)
        (override_classes s p.tables.hierarchy p.tables.declared_methods
          ((hierarchy_steps s p.tables.hierarchy (p, [])).0, no_claims))
        _
        (override_classes-IsSound s p.tables.hierarchy p.tables.declared_methods _
          (hierarchy_steps-IsSound s p.tables.hierarchy p [] h))
        (λ done k. inl (
          refl,
          record {
            fresh = fresh;
            once = λ key n. IsOnce-le done.0.output key k.once n;
            calls = k.agrees.called;
            external = k.agrees.left;
            fields = k.agrees.accessed;
            hierarchy = k.agrees.inherited;
            overrides = k.agrees.overridden;
            nodes = k.nodes;
          },
        ))

  judge-Verdict :
      (r : Report) (p : Pass)
      → IsSound p
      → r.available ≡ false
      → r.hierarchy_files ≡ []
      → r.claims ≡ no_claims
      → r.taint ≡ no_taint
      → r.match_stats ≡ p.stats
      → Ensures (Verdict s floor) (judge s floor r p)
  unfolding judge
  judge-Verdict r p h a f c t m = elim (Bool-cases (p.counts.classes_in_repo == 0)) [
    | inl e ↦ rw e (inr (a, nothing-Withheld (record r { reason = no_class_in_repo }) f c t))
    | inr e ↦ rw e (elim (Bool-cases (below (match_rate p.stats) floor)) [
      | inl old ↦ rw old (inr (a, nothing-Withheld (record r { reason = stale }) f c t))
      | inr fresh ↦ rw fresh (finish-Published r p h (rw m fresh))
    ])
  ]

  resolve-Verdict :
      (class_sources : ℕ) (classes : List ClassInfo) (java_files_seen : ℕ)
      → Ensures (Verdict s floor) (resolve s class_sources classes java_files_seen floor)
  unfolding resolve scanned
  resolve-Verdict class_sources classes java_files_seen = elim (Bool-cases (class_sources == 0)) [
    | inl e ↦
        rw e
          (inr (refl, nothing-Withheld (first_report class_sources java_files_seen) refl refl refl))
    | inr e ↦ rw e (
        Ensures-bind IsSound (Verdict s floor) (class_steps s classes empty_pass) _
          (class_steps-IsSound s classes empty_pass empty_pass-IsSound)
          (λ p h. judge-Verdict _ p h refl refl refl refl refl))
  ]

-- A pass that returns is kept or thrown away. Kept, its match rate is not below the floor, each
-- edge but CONTAINS is there once, and the counters are the numbers of its edges and nodes. Thrown
-- away, it publishes no edge, no node, no hierarchy or override claim and no taint mark.
pub resolve_publishes :
    (s : Setting) (class_sources : ℕ) (classes : List ClassInfo) (java_files_seen : ℕ)
    (floor : Rate) (r : Resolution)
    → resolve s class_sources classes java_files_seen floor ≡ ok r
    → Verdict s floor r
resolve_publishes s class_sources classes java_files_seen floor r e =
    Ensures_ok (Verdict s floor) (resolve s class_sources classes java_files_seen floor) r
      (resolve-Verdict s floor class_sources classes java_files_seen) e
