-- ===== src/Bytecode/Resolve/Outcome.antt =====
-- `resolve_java_bytecode` ends, and which exception can leave it.
use mathlib.Core.Logic.{⊎_elim}
use graph_ingest_test.Prelude.{
  ℕ, ◌≡◌, ◌≢◌, refl, ap, List, [], ◌∷◌, ◌⊎◌, inl, inr, Bool-cases, true-false, ◌==◌, Text,
}
use graph_ingest_test.Prelude.Result.{
  Error, ok, err, out_of_fuel, Result-cases, err_of_bind, err_of_map, halts, halts-bind,
}
use graph_ingest_test.Classfile.Descriptor.{descriptor_arity, descriptor_param_types}
use graph_ingest_test.Classfile.Descriptor.Halting.{halts-descriptor_param_types}
use graph_ingest_test.Classfile.Shapes.{ClassInfo}
use graph_ingest_test.Bytecode.State.{Header, Declared, Pass, Setting, empty_pass}
use graph_ingest_test.Bytecode.Classes.{class_steps}
use graph_ingest_test.Bytecode.Classes.Faults.{Faulty, class_steps-err}
use graph_ingest_test.Bytecode.Hierarchy.{hierarchy_steps}
use graph_ingest_test.Bytecode.Overrides.{
  Progress, override_methods, count_truncated, override_classes,
}
use graph_ingest_test.Bytecode.Overrides.Ancestors.{ancestors_lem}
use graph_ingest_test.Bytecode.Resolve.{
  Rate, Report, Resolution, match_rate, below, finish, judge, resolve, no_claims,
}

arity_not_fuel : (t : Text) → descriptor_arity t ≢ err out_of_fuel
unfolding descriptor_arity
arity_not_fuel t e =
    true-false
      (halts-bind (descriptor_param_types t) _ (halts-descriptor_param_types t) (λ ts. refl))
      (ap halts e)

module _ (s : Setting) where
  pub override_classes_returns :
      (hierarchy : List (Text × Header)) (classes : List (Text × List Declared)) (g : Progress)
      → (g' : Progress) × (override_classes s hierarchy classes g ≡ ok g')
  unfolding override_classes
  override_classes_returns hierarchy [] g = (g, refl)
  override_classes_returns hierarchy ((binary, ds) ∷ classes) g =
      let (w, walked, found) = ancestors_lem s.index hierarchy binary in
      let (g', done) =
        override_classes_returns hierarchy classes
          (count_truncated s w (override_methods s w ds g)) in
      (g', rw walked done)

  finish-not_err : (r : Report) (p : Pass) (e : Error) → finish s r p ≢ err e
  unfolding finish
  finish-not_err r p e raised =
      let (g, done) =
        override_classes_returns p.tables.hierarchy p.tables.declared_methods
          ((hierarchy_steps s p.tables.hierarchy (p, [])).0, no_claims) in
      cc (err_of_map (override_classes s p.tables.hierarchy p.tables.declared_methods _) _ raised)

  judge-not_err : (floor : Rate) (r : Report) (p : Pass) (e : Error) → judge s floor r p ≢ err e
  unfolding judge
  judge-not_err floor r p e raised = elim (Bool-cases (p.counts.classes_in_repo == 0)) [
    | inl n ↦ cc (rw n at raised)
    | inr n ↦ elim (Bool-cases (below (match_rate p.stats) floor)) [
      | inl old ↦ cc (rw (n, old) at raised)
      | inr fresh ↦ finish-not_err r p e (rw (n, fresh) at raised)
    ]
  ]

  resolve-err :
      (class_sources : ℕ) (classes : List ClassInfo) (java_files_seen : ℕ) (floor : Rate)
      (e : Error)
      → resolve s class_sources classes java_files_seen floor ≡ err e
      → class_steps s classes empty_pass ≡ err e
  unfolding resolve
  resolve-err class_sources classes java_files_seen floor e raised =
      elim (Bool-cases (class_sources == 0)) [
        | inl n ↦ cc (rw n at raised)
        | inr n ↦
            ⊎_elim (λ here. here) (λ (p, later). absurd (judge-not_err floor _ p e later))
              (err_of_bind (class_steps s classes empty_pass) _ (rw n at raised))
      ]

  Faulty-not_fuel : (classes : List ClassInfo) (e : Error) → Faulty s classes e → e ≢ out_of_fuel
  Faulty-not_fuel classes e f q = arity_not_fuel f.method.descriptor (rw q at (f.malformed))

  -- The pass always ends: it returns, or it raises what the descriptor of some method raises that
  -- has no source declaration but lines and a file.
  pub resolve_outcome :
      (class_sources : ℕ) (classes : List ClassInfo) (java_files_seen : ℕ) (floor : Rate)
      → ((r : Resolution) × (resolve s class_sources classes java_files_seen floor ≡ ok r))
        ⊎ ((e : Error) × (resolve s class_sources classes java_files_seen floor ≡ err e)
            × (e ≢ out_of_fuel)
            × Faulty s classes e)
  resolve_outcome class_sources classes java_files_seen floor =
      elim (Result-cases (resolve s class_sources classes java_files_seen floor)) [
        | inl returned ↦ inl returned
        | inr (e, raised) ↦
            let f =
              class_steps-err s classes empty_pass e
                (resolve-err class_sources classes java_files_seen floor e raised) in
            inr (e, raised, Faulty-not_fuel classes e f, f)
      ]
