-- ===== src/Tests/Resolving.antt =====
-- Two classes, one above the other, with a lambda body and a call of a database type
-- (graph_core/bytecode_resolver.py), and the derivation that follows (graph_core/pipeline.py).
use graph_ingest_test.Prelude.{
  ◌≡◌, refl, List, [], ◌∷◌, ◌++◌, Bool, true, false, Text, codes, find, put, update, bump, total,
  add_text,
}
use graph_ingest_test.Prelude.Int.{pos}
use graph_ingest_test.Prelude.Result.{Result, ok, err, class_file_error}
use graph_ingest_test.Bytecode.State.{Setting, same_key, is_new, emit, count_new}
use graph_ingest_test.Bytecode.Calls.{
  return_type, mark_role, mark_site, mark_taint, external_node, tally_method, tally_unclassified,
  call_kind, add_external_node, emit_external, record_external, record_call, bound_call, invoke,
  invoke_all, record_access, access, access_all,
}
use graph_ingest_test.Bytecode.Classes.{
  synthetic_name, make_function, synthesize_node, declare_method, walk_method, add_function,
  walk_synthesized, count_construct, walk_matched, method_step, method_steps, add_file, add_header,
  owner_of, enter_class, class_step, class_steps,
}
use graph_ingest_test.Bytecode.Hierarchy.{
  emit_hierarchy, hierarchy_step, hierarchy_targets, hierarchy_steps,
}
use graph_ingest_test.Bytecode.Overrides.{
  direct_ancestors, is_gap, visit, walk, ancestors, emit_override, override_step, override_chain,
  claim, override_methods, count_truncated, override_classes,
}
use graph_ingest_test.Bytecode.Resolve.{
  Rate, Resolution, nothing, first_report, match_rate, scanned, published, finish, judge, resolve,
}
use graph_ingest_test.External.{
  classify_reflection, classify_catalogued, is_db_type, is_connection_type, classify_db,
  classify_call, classify_external, external_key,
}
use graph_ingest_test.Catalog.{
  Role, Entry, Table, group_owners, share_entry, keep_unambiguous, build_simple_index,
  classify_taint, is_inventory_noise,
}
use graph_ingest_test.Matcher.Names.{
  binary_to_source_fqn, normalize_type, descriptor_simple_types, method_lookup_name,
  should_skip_method, can_override, caller_needs_synthesis,
}
use graph_ingest_test.Matcher.Index.{
  Node, NodeIndex, key_eq, find_text, is_some, set_default, candidates, add_candidate, split_member,
  key_of, add_method, has_label, is_method, add_by_label, add_file as index_file, add_node,
  add_nodes, build, class_id, field_id, file_of,
}
use graph_ingest_test.Matcher.Lookup.{
  exact_ids, resolve_exact, count_unmatched, choose, method_id, override_target,
}
use graph_ingest_test.Classfile.Descriptor.{descriptor_param_types, descriptor_arity, type_name}
use graph_ingest_test.Classfile.Shapes.{
  ClassInfo, MethodInfo, Invocation, invokevirtual, is_static, is_private, is_synthetic, is_bridge,
  is_constructor, is_class_initializer, is_lambda_body, has_line_numbers, outer_name, is_anonymous,
}
use graph_ingest_test.Prelude.Search.{arcs}
use graph_ingest_test.Prelude.{◌≢◌, ◌↔◌, ◌⊎◌, has_text, Memᴰ-of_has_text}
use graph_ingest_test.Prelude.Result.{Error, out_of_fuel}
use graph_ingest_test.Bytecode.State.{Pass, empty_pass, Header}
use graph_ingest_test.Bytecode.Classes.{Owner}
use graph_ingest_test.Bytecode.Classes.Faults.{Faulty, NeedsNode, method_step_raises}
use graph_ingest_test.Bytecode.Overrides.{Walk}
use graph_ingest_test.Bytecode.Overrides.Ancestors.{Finds, ancestors_lem}
use graph_ingest_test.Bytecode.Resolve.Authority.{Answered, resolve_authoritative}
use graph_ingest_test.Bytecode.Resolve.Outcome.{resolve_outcome}
use graph_ingest_test.Bytecode.Resolve.Publishing.{Verdict, resolve_publishes}

abbrev pub entry : Entry
entry = record {
  role = Role.sink;
  category = codes "CWE-78/command-injection";
  methods = (codes "exec", pos 0 ∷ []) ∷ [];
  identity = 1;
}

-- javax and jakarta share an entry.
abbrev pub table : Table
table = (codes "javax.x.Runner", entry) ∷ (codes "jakarta.x.Runner", entry) ∷ []

abbrev pub class_node : Text → Text → Node
class_node i fqn = record {
  id = i;
  label = codes "Class";
  fqn = fqn;
  kind = codes "class";
  file = codes "a/C.java";
  param_count = 0;
  param_types = [];
}

abbrev pub method_node : Text → Text → Node
method_node i fqn = record {
  id = i;
  label = codes "Function";
  fqn = fqn;
  kind = codes "method";
  file = codes "a/C.java";
  param_count = 1;
  param_types = codes "int" ∷ [];
}

abbrev pub index : NodeIndex
index = build (
    class_node (codes "b") (codes "a.B")
    ∷ class_node (codes "c") (codes "a.C")
    ∷ method_node (codes "bf") (codes "a.B#f")
    ∷ method_node (codes "cf") (codes "a.C#f")
    ∷ [])

abbrev pub setting : Setting
setting = record {
  index = index;
  repo = codes "r";
  include_external_other = false;
  enabled_categories = entry.category ∷ [];
  catalogue = record { java = table; by_simple_name = build_simple_index table };
  make_id = λ repo fqn kind. repo ++ fqn;
  separator = b'/';
  unclassified_max_keys = 200000;
}

abbrev pub call : Text → Text → Text → Invocation
call owner name descriptor = record {
  opcode = invokevirtual;
  owner = owner;
  name = name;
  descriptor = descriptor;
  line = pos 4;
  offset = 0;
}

abbrev pub method : Text → Text → List Invocation → MethodInfo
method name descriptor invocations = record {
  name = name;
  descriptor = descriptor;
  access_flags = 1;
  invocations = invocations;
  field_accesses = [];
  instantiations = [];
  start_line = pos 3;
  end_line = pos 5;
}

abbrev pub class_b : ClassInfo
class_b = record {
  name = codes "a.B";
  super_name = codes "java.lang.Object";
  interfaces = [];
  access_flags = 1;
  major_version = 61;
  source_file = [];
  fields = [];
  methods = method (codes "f") (codes "(I)V") [] ∷ [];
}

abbrev pub class_c : ClassInfo
class_c = record {
  name = codes "a.C";
  super_name = codes "a.B";
  interfaces = [];
  access_flags = 1;
  major_version = 61;
  source_file = [];
  fields = [];
  methods =
      method (codes "f") (codes "(I)V") (
        call (codes "a.B") (codes "f") (codes "(I)V")
        ∷ call (codes "java.sql.Connection") (codes "close") (codes "()V")
        ∷ call (codes "java.util.Map") (codes "get") (codes "()V")
        ∷ [])
      ∷ method (codes "lambda$f$0") (codes "()V") []
      ∷ [];
}

abbrev pub half : Rate
half = record { top = 1; bottom = 2 }

abbrev pub resolution : Result Resolution
resolution = resolve setting 1 (class_b ∷ class_c ∷ []) 1 half

abbrev pub blank : Resolution
blank = nothing (first_report 0 0)

abbrev pub payload : Result Resolution → Resolution
payload (ok d) = d
payload (err e) = blank

abbrev pub is_ok : Result Resolution → Bool
is_ok (ok d) = true
is_ok (err e) = false

payload_lem : (r : Result Resolution) → is_ok r ≡ true → r ≡ ok (payload r)
payload_lem (ok d) h = refl
payload_lem (err e) h = cc

abbrev pub kept : Resolution
kept = payload resolution

-- The pass is kept, and settles the method of the lower class.
settled :
    (is_ok resolution ≡ true)
    × (has_text (codes "cf") (payload resolution).report.claims.authoritative ≡ true)
unfolding same_key is_new emit count_new return_type mark_role mark_site mark_taint external_node
    tally_method tally_unclassified call_kind add_external_node emit_external record_external
    record_call bound_call invoke invoke_all record_access access access_all synthetic_name
    make_function synthesize_node declare_method walk_method add_function walk_synthesized
    count_construct walk_matched method_step method_steps add_file add_header owner_of enter_class
    class_step class_steps emit_hierarchy hierarchy_step hierarchy_targets hierarchy_steps
    direct_ancestors is_gap visit walk ancestors emit_override override_step override_chain claim
    override_methods count_truncated override_classes match_rate scanned published finish judge
    resolve classify_reflection classify_catalogued is_db_type is_connection_type classify_db
    classify_call classify_external external_key group_owners share_entry keep_unambiguous
    build_simple_index classify_taint is_inventory_noise binary_to_source_fqn normalize_type
    descriptor_simple_types method_lookup_name should_skip_method can_override
    caller_needs_synthesis key_eq find_text is_some set_default candidates add_candidate
    split_member key_of add_method has_label is_method add_by_label index_file add_node add_nodes
    build class_id field_id file_of exact_ids resolve_exact count_unmatched choose method_id
    override_target descriptor_param_types descriptor_arity type_name is_static is_private
    is_synthetic is_bridge is_constructor is_class_initializer is_lambda_body has_line_numbers
    outer_name is_anonymous arcs find put update bump add_text total
settled = (refl, refl)

pub resolves : resolve setting 1 (class_b ∷ class_c ∷ []) 1 half ≡ ok kept
resolves = payload_lem resolution settled.0

resolve_publishes_example : Verdict setting half kept
resolve_publishes_example =
    resolve_publishes setting 1 (class_b ∷ class_c ∷ []) 1 half kept resolves

resolve_authoritative_example :
    (p : Pass) × (class_steps setting (class_b ∷ class_c ∷ []) empty_pass ≡ ok p)
    × Answered setting p kept.edges (codes "cf")
resolve_authoritative_example =
    resolve_authoritative setting 1 (class_b ∷ class_c ∷ []) 1 half kept (codes "cf") resolves
      (Memᴰ-of_has_text (codes "cf") kept.report.claims.authoritative settled.1)

resolve_outcome_example :
    ((r : Resolution) × (resolve setting 1 (class_b ∷ class_c ∷ []) 1 half ≡ ok r))
    ⊎ ((e : Error) × (resolve setting 1 (class_b ∷ class_c ∷ []) 1 half ≡ err e)
        × (e ≢ out_of_fuel)
        × Faulty setting (class_b ∷ class_c ∷ []) e)
resolve_outcome_example = resolve_outcome setting 1 (class_b ∷ class_c ∷ []) 1 half

-- A lambda body whose descriptor is cut off.
abbrev broken : MethodInfo
broken = method (codes "lambda$f$1") (codes "(L") []

abbrev owner_c : Owner
owner_c = record { own_id = codes "c"; id = codes "c"; file = codes "a/C.java"; fqn = codes "a.C" }

method_step_raises_example :
    (method_step setting class_c owner_c broken empty_pass ≡ err class_file_error) ↔ (
      NeedsNode class_c owner_c broken
      × (descriptor_arity broken.descriptor ≡ err class_file_error))
method_step_raises_example =
    method_step_raises setting class_c owner_c broken empty_pass class_file_error

broken_raises : descriptor_arity broken.descriptor ≡ err class_file_error
unfolding descriptor_arity descriptor_param_types
broken_raises = refl

-- Two headers in a cycle.
abbrev cycle : List (Text × Header)
cycle =
    (codes "a.C", record { super_name = codes "a.B"; interfaces = [] })
    ∷ (codes "a.B", record { super_name = codes "a.C"; interfaces = codes "x.I" ∷ [] })
    ∷ []

ancestors_lem_example :
    (w : Walk) × (ancestors index cycle (codes "a.C") ≡ ok w) × Finds index cycle (codes "a.C") w
ancestors_lem_example = ancestors_lem index cycle (codes "a.C")
