-- ===== src/Derive/Together.antt =====
-- The bytecode pass and the derivation together (graph_core/pipeline.py hands the claims of the one
-- to the other).
use graph_ingest_test.Prelude.{
  ℕ, ◌+◌, ◌≤◌, ◌≡◌, ◌∙◌, refl, List, [], ◌∷◌, ◌++◌, true, inl, inr, Bool-cases, if◌then◌else◌, ◌==◌,
  has_text, Text, arith,
}
use graph_ingest_test.Prelude.Result.{ok, Ensures, Ensures-bind, Ensures_ok, Ensures-of}
use graph_ingest_test.Classfile.Shapes.{ClassInfo}
use graph_ingest_test.Bytecode.State.{Edge, EdgeKey, Pass, Setting, empty_pass}
use graph_ingest_test.Bytecode.State.Emitting.{tally, not_seen}
use graph_ingest_test.Bytecode.State.Agreement.{IsSound, empty_pass-IsSound}
use graph_ingest_test.Bytecode.Classes.{class_steps}
use graph_ingest_test.Bytecode.Classes.Sound.{class_steps-IsSound}
use graph_ingest_test.Bytecode.Classes.Untouched.{class_steps-same}
use graph_ingest_test.Bytecode.Hierarchy.{hierarchy_steps}
use graph_ingest_test.Bytecode.Hierarchy.Sound.{hierarchy_steps-IsSound, hierarchy_steps-same}
use graph_ingest_test.Bytecode.Overrides.{Progress, override_classes, has_pair}
use graph_ingest_test.Bytecode.Overrides.Claimed.{override_key}
use graph_ingest_test.Bytecode.Overrides.Emitted.{Mirrors, override_classes-Mirrors}
use graph_ingest_test.Bytecode.Overrides.Sound.{IsSoundProgress, override_classes-IsSound}
use graph_ingest_test.Bytecode.Resolve.{
  Rate, Report, Resolution, match_rate, below, finish, judge, resolve, scanned, published,
  no_claims,
}
use graph_ingest_test.Derive.{SlimNode, Indices, derive_overrides}
use graph_ingest_test.Derive.Edges.{Derives, derive_overrides_lem}

-- The pairs that the report hands on are those of its OVERRIDES edges.
abbrev Mirrored : Resolution → Type 0
Mirrored d =
    (a b : Text)
    → tally (override_key a b) d.edges
      ≡ (if has_pair (a, b) d.report.claims.emitted_pairs then 1 else 0)

module _ (s : Setting) where
  -- Before the last loop nothing overrides anything.
  first-Mirrors : (p : Pass) → IsSound p → p.counts.override_edges ≡ 0 → Mirrors (p, no_claims)
  first-Mirrors p h z a b =
      not_seen p.output (override_key a b) h.once refl (h.agrees.overridden ∙ z)

  finish-Mirrored :
      (r : Report) (p : Pass)
      → IsSound p
      → p.counts.override_edges ≡ 0
      → Ensures Mirrored (finish s r p)
  unfolding finish published
  finish-Mirrored r p h z =
      let headed = (hierarchy_steps s p.tables.hierarchy (p, [])).0 in
      let first : Progress = (headed, no_claims) in
      let sound = hierarchy_steps-IsSound s p.tables.hierarchy p [] h in
      let run = override_classes s p.tables.hierarchy p.tables.declared_methods first in
      Ensures-bind (λ g. IsSoundProgress g × Mirrors g) Mirrored run _
        (Ensures-of _ run (λ g done. (
          Ensures_ok IsSoundProgress run g
              (override_classes-IsSound s p.tables.hierarchy p.tables.declared_methods first sound)
              done,
          Ensures_ok Mirrors run g
              (override_classes-Mirrors s p.tables.hierarchy p.tables.declared_methods first
                (first-Mirrors headed sound (hierarchy_steps-same s p.tables.hierarchy p [] ∙ z)))
              done,
        )))
        (λ g (k, mirrors) a b. k.once (override_key a b) refl ∙ rw (mirrors a b) refl)

  judge-Mirrored :
      (floor : Rate) (r : Report) (p : Pass)
      → IsSound p
      → p.counts.override_edges ≡ 0
      → r.claims ≡ no_claims
      → Ensures Mirrored (judge s floor r p)
  unfolding judge tally
  judge-Mirrored floor r p h z c = elim (Bool-cases (p.counts.classes_in_repo == 0)) [
    | inl n ↦ rw n (λ a b. rw c refl)
    | inr n ↦ rw n (elim (Bool-cases (below (match_rate p.stats) floor)) [
      | inl old ↦ rw old (λ a b. rw c refl)
      | inr fresh ↦ rw fresh (finish-Mirrored r p h z)
    ])
  ]

  resolve-Mirrored :
      (class_sources : ℕ) (classes : List ClassInfo) (java_files_seen : ℕ) (floor : Rate)
      → Ensures Mirrored (resolve s class_sources classes java_files_seen floor)
  unfolding resolve scanned tally
  resolve-Mirrored class_sources classes java_files_seen floor =
      elim (Bool-cases (class_sources == 0)) [
        | inl n ↦ rw n (λ a b. refl)
        | inr n ↦ rw n (
            Ensures-bind (λ p. IsSound p × (p.counts.override_edges ≡ 0)) Mirrored
              (class_steps s classes empty_pass) _
              (Ensures-of _ (class_steps s classes empty_pass) (λ p done. (
                Ensures_ok IsSound _ p (class_steps-IsSound s classes empty_pass empty_pass-IsSound)
                    done,
                Ensures_ok _ _ p (class_steps-same s 0 classes empty_pass refl) done,
              )))
              (λ p (h, z). judge-Mirrored floor _ p h z refl))
      ]

tally-append_list : (k : EdgeKey) (xs ys : List Edge) → tally k (xs ++ ys) ≡ tally k xs + tally k ys
unfolding tally
tally-append_list k [] ys = omega arith
tally-append_list k (x ∷ xs) ys = omega (arith, tally-append_list k xs ys)

-- The OVERRIDES edges of both stages.
pub record Joint (d : Resolution) (es : List Edge) : Type 0 where
  pub once : (a b : Text) → tally (override_key a b) (d.edges ++ es) ≤ 1
  pub settled :
      (a b : Text)
      → has_text a d.report.claims.authoritative ≡ true
      → tally (override_key a b) es ≡ 0

Joint-of :
    (d : Resolution) (nodes : List SlimNode) (es : List Edge)
    → Mirrored d
    → Derives nodes d.report.claims.authoritative d.report.claims.emitted_pairs es
    → Joint d es
Joint-of d nodes es m h = record {
  once = λ a b.
      ground (
        arith,
        tally-append_list (override_key a b) d.edges es,
        m a b,
        h.once a b,
        h.unsettled a b,
      );
  settled = λ a b held. ground (arith, h.unsettled a b, held);
}

-- After the bytecode pass has returned, the derivation that takes its claims ends; no pair of
-- methods has two OVERRIDES edges over both stages, and it adds none at a method that the pass
-- called authoritative.
pub derive_overrides-resolve :
    (s : Setting) (class_sources : ℕ) (classes : List ClassInfo) (java_files_seen : ℕ)
    (floor : Rate) (d : Resolution) (nodes : List SlimNode) (ix : Indices)
    → resolve s class_sources classes java_files_seen floor ≡ ok d
    → (es : List Edge) × (derive_overrides nodes ix d.report.claims.authoritative
          d.report.claims.emitted_pairs
        ≡ ok es)
      × Joint d es
derive_overrides-resolve s class_sources classes java_files_seen floor d nodes ix e =
    let (es, ended, h) =
      derive_overrides_lem nodes ix d.report.claims.authoritative d.report.claims.emitted_pairs in
    (
      es,
      ended,
      Joint-of d nodes es
          (Ensures_ok Mirrored (resolve s class_sources classes java_files_seen floor) d
            (resolve-Mirrored s class_sources classes java_files_seen floor) e)
          h,
    )
