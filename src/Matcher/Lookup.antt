-- ===== src/Matcher/Lookup.antt =====
-- `MatchStats`, `NodeIndex.method_id` and `NodeIndex.override_target`
-- (graph_core/bytecode/matcher.py).
pub mod Precision
pub mod Totals
use graph_ingest_test.Prelude.{
  ℕ, suc, List, [], ◌∷◌, Option, none, some, Bool, true, false, not, ◌&&◌, if◌then◌else◌, ◌==◌,
  any_of, length, map, Text, codes, text_eq, is_empty,
}
use graph_ingest_test.Prelude.Result.{Result, ok, err}
use graph_ingest_test.Classfile.Descriptor.{descriptor_param_types}
use graph_ingest_test.Matcher.Names.{
  binary_to_source_fqn, normalize_type, descriptor_simple_types, method_lookup_name,
}
use graph_ingest_test.Matcher.Index.{Key, Candidate, NodeIndex, candidates, find_text, is_some}

pub record MatchStats : Type 0 where
  pub matched_methods : ℕ
  pub matched_fields : ℕ
  pub unmatched_class : ℕ
  pub unmatched_method : ℕ
  pub unmatched_field : ℕ
  pub implicit_default_ctor : ℕ
  pub ambiguous_method : ℕ
  pub anonymous_class : ℕ
  pub lambda_body : ℕ
  pub class_initializer : ℕ
  pub skipped_synthetic : ℕ

-- The two lists are equal, type by type.
abbrev pub types_eq : List Text → List Text → Bool
types_eq [] [] = true
types_eq (x ∷ xs) (y ∷ ys) = text_eq x y && types_eq xs ys
types_eq _ _ = false

-- `[node_id for node_id, ptypes in candidates if … == wanted]`
unfoldable pub exact_ids : List Text → List Candidate → List Text
exact_ids wanted [] = []
exact_ids wanted ((node_id, ptypes) ∷ cs) =
    let rest = exact_ids wanted cs in
    if types_eq (map normalize_type ptypes) wanted then node_id ∷ rest else rest

-- The only one, or ''.
abbrev pub single_id : List Text → Text
single_id (node_id ∷ []) = node_id
single_id _ = []

abbrev pub count_matched : MatchStats → MatchStats
count_matched s = record s { matched_methods = suc s.matched_methods }

abbrev pub count_ambiguous : MatchStats → MatchStats
count_ambiguous s = record s { ambiguous_method = suc s.ambiguous_method }

-- The id, or '' when several or no overload has the erased types.
unfoldable pub resolve_exact : List Text → MatchStats → Text × MatchStats
resolve_exact (node_id ∷ []) s = (node_id, count_matched s)
resolve_exact _ s = ([], count_ambiguous s)

-- The erased types of a descriptor that has been parsed before.
abbrev pub types_or_none : Result (List Text) → List Text
types_or_none (ok ts) = ts
types_or_none (err e) = []

-- Why there is no candidate.
unfoldable pub count_unmatched : NodeIndex → Text → Text → ℕ → MatchStats → MatchStats
count_unmatched ix source_fqn method_name arity s =
    if not (is_some (find_text source_fqn ix.classes))
    then record s { unmatched_class = suc s.unmatched_class }
    else if text_eq method_name (codes "<init>")
        && (arity == 0)
        && not (any_of (text_eq source_fqn) ix.has_ctor)
    then record s { implicit_default_ctor = suc s.implicit_default_ctor }
    else record s { unmatched_method = suc s.unmatched_method }

unfoldable pub choose :
    NodeIndex → Text → Text → Text → ℕ → List Candidate → MatchStats → Text × MatchStats
choose ix source_fqn method_name descriptor arity [] s =
    ([], count_unmatched ix source_fqn method_name arity s)
choose ix source_fqn method_name descriptor arity ((node_id, ptypes) ∷ []) s =
    (node_id, count_matched s)
choose ix source_fqn method_name descriptor arity (c ∷ d ∷ cs) s =
    resolve_exact (exact_ids (types_or_none (descriptor_simple_types descriptor)) (c ∷ d ∷ cs)) s

abbrev pub method_key : Text → Text → ℕ → Key
method_key source_fqn method_name arity = record {
  class_fqn = source_fqn;
  name = method_lookup_name source_fqn method_name;
  arity = arity;
}

-- With the statistics that the caller hands in. A malformed descriptor counts nowhere.
unfoldable pub method_id : NodeIndex → Text → Text → Text → MatchStats → Text × MatchStats
method_id ix binary_owner method_name descriptor s =
    let source_fqn = binary_to_source_fqn binary_owner in
    if is_empty source_fqn
    then ([], record s { anonymous_class = suc s.anonymous_class })
    else elim (descriptor_param_types descriptor) [
      | err e ↦ ([], s)
      | ok ts ↦
          choose ix source_fqn method_name descriptor (length ts)
            (candidates (method_key source_fqn method_name (length ts)) ix.methods) s
    ]

unfoldable pub override_target : NodeIndex → Text → Text → Text → Text
override_target ix ancestor_binary method_name descriptor =
    let source_fqn = binary_to_source_fqn ancestor_binary in
    if is_empty source_fqn then [] else elim (descriptor_simple_types descriptor) [
      | err e ↦ []
      | ok wanted ↦ single_id (
          exact_ids wanted
            (candidates (method_key source_fqn method_name (length wanted)) ix.methods))
    ]
