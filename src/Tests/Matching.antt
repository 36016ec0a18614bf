-- ===== src/Tests/Matching.antt =====
-- An index of a class with two overloads, and lookups in it (graph_core/bytecode/matcher.py).
use graph_ingest_test.Prelude.{◌≡◌, refl, List, [], ◌∷◌, length, codes, Text}
use graph_ingest_test.Prelude.Result.{ok}
use graph_ingest_test.Classfile.Descriptor.{descriptor_param_types, type_name}
use graph_ingest_test.Matcher.Names.{
  binary_to_source_fqn, descriptor_simple_types, normalize_type, method_lookup_name,
}
use graph_ingest_test.Matcher.Index.{
  Node, Key, candidates, build, add_nodes, add_node, add_by_label, add_file, add_method,
  set_default, find_text, is_some, add_candidate, key_eq, has_label, is_method, split_member,
  key_of,
}
use graph_ingest_test.Matcher.Index.Building.{methods_with, candidates-build}
use graph_ingest_test.Matcher.Lookup.{
  MatchStats, exact_ids, resolve_exact, choose, method_id, method_key, override_target,
}
use graph_ingest_test.Matcher.Lookup.Precision.{
  IsOnlyExact, IsPinned, method_id-only, override_target-only,
}

abbrev nodes : List Node
nodes =
    record {
      id = codes "c1";
      label = codes "Class";
      fqn = codes "a.B";
      kind = codes "class";
      file = codes "B.java";
      param_count = 0;
      param_types = [];
    }
    ∷ record {
      id = codes "m1";
      label = codes "Function";
      fqn = codes "a.B#f";
      kind = codes "method";
      file = codes "B.java";
      param_count = 1;
      param_types = codes "int" ∷ [];
    }
    ∷ record {
      id = codes "m2";
      label = codes "Function";
      fqn = codes "a.B#f";
      kind = codes "method";
      file = codes "B.java";
      param_count = 1;
      param_types = codes "List<String>" ∷ [];
    }
    ∷ []

abbrev f_key : Key
f_key = record { class_fqn = codes "a.B"; name = codes "f"; arity = 1 }

abbrev no_stats : MatchStats
no_stats = record {
  matched_methods = 0;
  matched_fields = 0;
  unmatched_class = 0;
  unmatched_method = 0;
  unmatched_field = 0;
  implicit_default_ctor = 0;
  ambiguous_method = 0;
  anonymous_class = 0;
  lambda_body = 0;
  class_initializer = 0;
  skipped_synthetic = 0;
}

candidates-build_example : candidates f_key (build nodes).methods ≡ methods_with f_key nodes
candidates-build_example = candidates-build nodes f_key

second_overload :
    (method_id (build nodes) (codes "a.B") (codes "f") (codes "(Ljava/util/List;)V") no_stats).0
    ≡ codes "m2"
unfolding method_id choose resolve_exact exact_ids build add_nodes add_node add_by_label add_file
    add_method set_default find_text is_some add_candidate key_eq has_label is_method split_member
    key_of candidates binary_to_source_fqn descriptor_param_types descriptor_simple_types
    normalize_type type_name method_lookup_name
second_overload = refl

method_id-only_example :
    (ts : List Text) × (descriptor_param_types (codes "(Ljava/util/List;)V") ≡ ok ts)
    × IsPinned
        (codes "(Ljava/util/List;)V")
        (candidates
          (method_key (binary_to_source_fqn (codes "a.B")) (codes "f") (length ts))
          (build nodes).methods)
        (codes "m2")
method_id-only_example =
    method_id-only (build nodes) (codes "a.B") (codes "f") (codes "(Ljava/util/List;)V")
      (codes "m2") no_stats second_overload refl

overridden : override_target (build nodes) (codes "a.B") (codes "f") (codes "(I)V") ≡ codes "m1"
unfolding override_target exact_ids build add_nodes add_node add_by_label add_file add_method
    set_default find_text is_some add_candidate key_eq has_label is_method split_member key_of
    candidates binary_to_source_fqn descriptor_param_types descriptor_simple_types normalize_type
    type_name method_lookup_name
overridden = refl

override_target-only_example :
    (wanted : List Text) × (descriptor_simple_types (codes "(I)V") ≡ ok wanted)
    × IsOnlyExact wanted
        (candidates
          (method_key (binary_to_source_fqn (codes "a.B")) (codes "f") (length wanted))
          (build nodes).methods)
        (codes "m1")
override_target-only_example =
    override_target-only (build nodes) (codes "a.B") (codes "f") (codes "(I)V") (codes "m1")
      overridden refl
