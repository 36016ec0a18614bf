-- ===== src/Bytecode/Resolve/Authority.antt =====
-- What `authoritative_override_methods` of a kept pass promises to `pipeline._derive_overrides`.
use mathlib.Core.List.{Memᴰ}
use mathlib.Core.List.Memᴰ
use mathlib.Core.Logic.{⊎_elim}
use graph_ingest_test.Prelude.{
  ℕ, ◌≡◌, refl, List, [], none, find, true, false, true-false, inl, inr, Bool-cases, ◌==◌, Text,
  text_eq, is_empty,
}
use graph_ingest_test.Prelude.Result.{ok, Ensures, Ensures-bind, Ensures_ok, Ensures-of}
use graph_ingest_test.Classfile.Shapes.{ClassInfo, MethodInfo}
use graph_ingest_test.Matcher.Index.{NodeIndex, class_id}
use graph_ingest_test.Matcher.Lookup.{override_target}
use graph_ingest_test.Bytecode.State.{Declared, Edge, Header, Pass, Setting, empty_pass}
use graph_ingest_test.Bytecode.State.Emitting.{IsOnce, tally}
use graph_ingest_test.Bytecode.State.Agreement.{IsSound, empty_pass-IsSound}
use graph_ingest_test.Bytecode.Classes.{class_steps}
use graph_ingest_test.Bytecode.Classes.Sound.{class_steps-IsSound}
use graph_ingest_test.Bytecode.Hierarchy.{hierarchy_steps}
use graph_ingest_test.Bytecode.Hierarchy.Sound.{hierarchy_steps-IsSound}
use graph_ingest_test.Bytecode.Overrides.{Progress, is_gap, override_classes}
use graph_ingest_test.Bytecode.Overrides.Ancestors.{Ancestor}
use graph_ingest_test.Bytecode.Overrides.Claimed.{
  override_key, outputs, Justified, override_classes-Justified,
}
use graph_ingest_test.Bytecode.Overrides.Sound.{IsSoundProgress, override_classes-IsSound}
use graph_ingest_test.Bytecode.Resolve.{
  Rate, Report, Resolution, match_rate, below, finish, judge, resolve, scanned, published,
  no_claims,
}

-- A class of the pass declares the method, each ancestor of the class was parsed or lies outside
-- the repository, and an ancestor with a method to override has its edge, once.
pub record Answered (s : Setting) (p : Pass) (edges : List Edge) (method_id : Text) : Type 0 where
  pub binary : Text
  pub declarations : List Declared
  pub method : MethodInfo
  pub listed : Memᴰ (binary, declarations) p.tables.declared_methods
  pub declared : Memᴰ {A = Declared} (method, method_id) declarations
  pub no_gap :
      (a : Text)
      → Ancestor p.tables.hierarchy binary a
      → find a p.tables.hierarchy ≡ none
      → is_empty (class_id s.index a) ≡ true
  pub edges_once :
      (a : Text)
      → Ancestor p.tables.hierarchy binary a
      → is_empty (override_target s.index a method.name method.descriptor) ≡ false
      → text_eq (override_target s.index a method.name method.descriptor) method_id ≡ false
      → tally
          (override_key method_id (override_target s.index a method.name method.descriptor))
          edges
        ≡ 1

-- A class that is no gap was parsed or has no node.
no_gap-outside :
    (index : NodeIndex) (hierarchy : List (Text × Header)) (a : Text)
    → is_gap index hierarchy a ≡ false
    → find a hierarchy ≡ none
    → is_empty (class_id index a) ≡ true
unfolding is_gap
no_gap-outside index hierarchy a g n = elim (Bool-cases (is_empty (class_id index a))) [
  | inl e ↦ e
  | inr e ↦ absurd (true-false refl (rw (n, is_gap, e) at g))
]

module _ (s : Setting) where
  Justified-Answered :
      (p : Pass) (g : Progress) (i : Text)
      → IsOnce (outputs g)
      → Justified s p.tables.hierarchy p.tables.declared_methods (outputs g) i
      → Answered s p (outputs g).edges i
  Justified-Answered p g i once h = record {
    binary = h.binary;
    declarations = h.declarations;
    method = h.method;
    listed = h.listed;
    declared = h.declared;
    no_gap = λ a up. no_gap-outside s.index p.tables.hierarchy a (h.no_gap a up);
    edges_once = λ a up n q.
        let held = h.answers a up n q in
        rw
          (
            once (override_key i (override_target s.index a h.method.name h.method.descriptor))
                refl,
            held,
          )
          refl;
  }

  -- What holds of a resolution: each claim has its answer.
  abbrev AllAnswered : Pass → Resolution → Type 0
  AllAnswered p d = (i : Text) → Memᴰ i d.report.claims.authoritative → Answered s p d.edges i

  finish-AllAnswered : (r : Report) (p : Pass) → IsSound p → Ensures (AllAnswered p) (finish s r p)
  unfolding finish published
  finish-AllAnswered r p h =
      let first : Progress = ((hierarchy_steps s p.tables.hierarchy (p, [])).0, no_claims) in
      Ensures-bind (λ g. (i : Text) → Memᴰ i g.1.authoritative → Answered s p (outputs g).edges i)
        (AllAnswered p) (override_classes s p.tables.hierarchy p.tables.declared_methods first) _
        (Ensures-of _ (override_classes s p.tables.hierarchy p.tables.declared_methods first)
          (λ g done i m. Justified-Answered p g i (once g done) (justified g done i m)))
        (λ g k. k)
    where
      once :
          (g : Progress)
          → override_classes s p.tables.hierarchy p.tables.declared_methods
              ((hierarchy_steps s p.tables.hierarchy (p, [])).0, no_claims)
            ≡ ok g
          → IsOnce (outputs g)
      once g done =
          (Ensures_ok IsSoundProgress _ g
            (override_classes-IsSound s p.tables.hierarchy p.tables.declared_methods _
              (hierarchy_steps-IsSound s p.tables.hierarchy p [] h))
            done).once

      justified :
          (g : Progress)
          → override_classes s p.tables.hierarchy p.tables.declared_methods
              ((hierarchy_steps s p.tables.hierarchy (p, [])).0, no_claims)
            ≡ ok g
          → (i : Text) → Memᴰ i g.1.authoritative
          → Justified s p.tables.hierarchy p.tables.declared_methods (outputs g) i
      justified g done i m =
          ⊎_elim (λ old. absurd (Memᴰ.not-nil old)) (λ k. k)
            (override_classes-Justified s p.tables.hierarchy p.tables.declared_methods _ g i done m)

  judge-AllAnswered :
      (floor : Rate) (r : Report) (p : Pass)
      → IsSound p
      → r.claims ≡ no_claims
      → Ensures (AllAnswered p) (judge s floor r p)
  unfolding judge
  judge-AllAnswered floor r p h c = elim (Bool-cases (p.counts.classes_in_repo == 0)) [
    | inl n ↦ rw n (λ i m. nobody i m)
    | inr n ↦ rw n (elim (Bool-cases (below (match_rate p.stats) floor)) [
      | inl old ↦ rw old (λ i m. nobody i m)
      | inr fresh ↦ rw fresh (finish-AllAnswered r p h)
    ])
  ]
    where
      nobody : (i : Text) → Memᴰ i r.claims.authoritative → Answered s p [] i
      nobody i m = absurd (Memᴰ.not-nil (rw c at m))

  resolve-Answered :
      (class_sources : ℕ) (classes : List ClassInfo) (java_files_seen : ℕ) (floor : Rate)
      → Ensures
          (λ d.
            (i : Text)
            → Memᴰ i d.report.claims.authoritative
            → (p : Pass) × (class_steps s classes empty_pass ≡ ok p) × Answered s p d.edges i)
          (resolve s class_sources classes java_files_seen floor)
  unfolding resolve scanned
  resolve-Answered class_sources classes java_files_seen floor =
      elim (Bool-cases (class_sources == 0)) [
        | inl n ↦ rw n (λ i m. absurd (Memᴰ.not-nil m))
        | inr n ↦ rw n (
            Ensures-bind (λ p. (class_steps s classes empty_pass ≡ ok p) × IsSound p) _
              (class_steps s classes empty_pass) _
              (Ensures-of _ (class_steps s classes empty_pass) (λ p scanned. (
                scanned,
                Ensures_ok IsSound _ p (class_steps-IsSound s classes empty_pass empty_pass-IsSound)
                    scanned,
              )))
              (λ p (done, h). Ensures-of _ (judge s floor _ p) (λ d judged i m. (
                p,
                done,
                Ensures_ok (AllAnswered p) _ d (judge-AllAnswered floor _ p h refl) judged i m,
              ))))
      ]

-- A method that the pass calls authoritative is fully answered: some parsed class declares it,
-- every ancestor of that class was parsed or has no node, and wherever an ancestor has the one
-- method with its erased descriptor, other than itself, the OVERRIDES edge is there exactly once.
pub resolve_authoritative :
    (s : Setting) (class_sources : ℕ) (classes : List ClassInfo) (java_files_seen : ℕ)
    (floor : Rate) (d : Resolution) (i : Text)
    → resolve s class_sources classes java_files_seen floor ≡ ok d
    → Memᴰ i d.report.claims.authoritative
    → (p : Pass) × (class_steps s classes empty_pass ≡ ok p) × Answered s p d.edges i
resolve_authoritative s class_sources classes java_files_seen floor d i e m =
    Ensures_ok _ (resolve s class_sources classes java_files_seen floor) d
      (resolve-Answered s class_sources classes java_files_seen floor) e i m
