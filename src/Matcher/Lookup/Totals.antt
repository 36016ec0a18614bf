-- ===== src/Matcher/Lookup/Totals.antt =====
-- The counts of `NodeIndex.method_id` (graph_core/bytecode/matcher.py).
use graph_ingest_test.Prelude.{
  ℕ, suc, ◌+◌, ◌≡◌, refl, List, [], ◌∷◌, false, ◌⊎◌, inl, inr, Text, is_empty, arith, Bool-cases,
}
use graph_ingest_test.Prelude.Result.{Error, err, Result-cases}
use graph_ingest_test.Classfile.Descriptor.{descriptor_param_types}
use graph_ingest_test.Matcher.Names.{binary_to_source_fqn}
use graph_ingest_test.Matcher.Index.{Candidate, NodeIndex}
use graph_ingest_test.Matcher.Lookup.{MatchStats, resolve_exact, count_unmatched, choose, method_id}

-- The calls that were counted.
abbrev pub total : MatchStats → ℕ
total s =
    s.matched_methods + s.matched_fields + s.unmatched_class + s.unmatched_method
    + s.unmatched_field + s.implicit_default_ctor + s.ambiguous_method + s.anonymous_class
    + s.lambda_body + s.class_initializer + s.skipped_synthetic

total-resolve : (ids : List Text) (s : MatchStats) → total (resolve_exact ids s).1 ≡ suc (total s)
unfolding resolve_exact
total-resolve [] s = omega arith
total-resolve (i ∷ []) s = omega arith
total-resolve (i ∷ j ∷ ids) s = omega arith

total-choose :
    (ix : NodeIndex) (source_fqn method_name descriptor : Text) (arity : ℕ) (cs : List Candidate)
    (s : MatchStats)
    → total (choose ix source_fqn method_name descriptor arity cs s).1 ≡ suc (total s)
unfolding choose count_unmatched
total-choose ix source_fqn method_name descriptor arity [] s = ground arith
total-choose ix source_fqn method_name descriptor arity (c ∷ []) s = omega arith
total-choose ix source_fqn method_name descriptor arity (c ∷ d ∷ cs) s = total-resolve _ s

-- Each lookup is counted exactly once, as a match or under the reason why there is none; only a
-- lookup with a malformed descriptor of a class that is not anonymous leaves the counts alone.
pub total-method_id :
    (ix : NodeIndex) (owner name descriptor : Text) (s : MatchStats)
    → (total (method_id ix owner name descriptor s).1 ≡ suc (total s))
      ⊎ ((is_empty (binary_to_source_fqn owner) ≡ false)
          × (e : Error) × (descriptor_param_types descriptor ≡ err e)
          × (method_id ix owner name descriptor s ≡ ([], s)))
unfolding method_id
total-method_id ix owner name descriptor s =
    elim (Bool-cases (is_empty (binary_to_source_fqn owner))) [
      | inl e ↦ inl (rw e (omega arith))
      | inr e ↦ elim (Result-cases (descriptor_param_types descriptor)) [
        | inl (ts, d) ↦ inl (rw (e, d) (total-choose ix _ name descriptor _ _ s))
        | inr (x, d) ↦ inr (e, x, d, rw (e, d) refl)
      ]
    ]
