-- ===== src/Bytecode/Classes.antt =====
-- The loop over parsed classes (graph_core/bytecode_resolver.py: `_synthesize_node`, and the loops
-- over classes and methods in `resolve_java_bytecode`).
pub mod Faults
pub mod Sound
pub mod Untouched
use graph_ingest_test.Prelude.{
  suc, List, [], ◌∷◌, ◌++◌, Option, none, some, Bool, true, false, not, ◌&&◌, ◌||◌, if◌then◌else◌,
  Text, codes, is_empty, rsplit_last, replace_char, put, update, add_text,
}
use graph_ingest_test.Prelude.Result.{Result, ok, err, ◌>>=◌}
use graph_ingest_test.Classfile.Descriptor.{descriptor_arity}
use graph_ingest_test.Classfile.Shapes.{
  MethodInfo, ClassInfo, is_static, is_class_initializer, is_lambda_body, is_anonymous,
  has_line_numbers, outer_name,
}
use graph_ingest_test.Matcher.Names.{
  binary_to_source_fqn, should_skip_method, can_override, caller_needs_synthesis,
}
use graph_ingest_test.Matcher.Index.{class_id, file_of}
use graph_ingest_test.Matcher.Lookup.{MatchStats, method_id}
use graph_ingest_test.Bytecode.State.{
  Edge, contains, Output, SynthesizedNode, Counts, Header, Declared, ClassTables, Pass, Setting,
}
use graph_ingest_test.Bytecode.Calls.{invoke_all, access_all}

-- Kind and name of a construct that has no source declaration; none for any other method.
unfoldable pub synthetic_name : ClassInfo → MethodInfo → Option (Text × Text)
synthetic_name c m =
    if is_lambda_body m
    then some (codes "lambda", m.name)
    else if is_class_initializer m
    then some (codes "initializer", codes "<clinit>")
    else if is_anonymous c
    then some (codes "anonymous", rsplit_last b'$' c.name ++ b'.' ∷ m.name)
    else none

-- The class that a method belongs to: its own node or the one of the enclosing class.
pub record Owner : Type 0 where
  pub own_id : Text
  pub id : Text
  pub file : Text
  pub fqn : Text

abbrev pub or_text : Text → Text → Text
or_text [] t = t
or_text (x ∷ s) t = x ∷ s

module _ (s : Setting) where
  abbrev pub function_node : Owner → MethodInfo → Text × Text → SynthesizedNode
  function_node o m (kind, name) =
      let fqn = o.fqn ++ b'#' ∷ name in
      record {
        id = s.make_id s.repo (fqn ++ m.descriptor) (codes "method");
        external = false;
        name = name;
        fqn = fqn;
        repo = s.repo;
        kind = kind;
        file = o.file;
        start_line = m.start_line;
        end_line = m.end_line;
        param_count = 0;
        is_static = is_static m;
        signature = name ++ m.descriptor;
      }

  -- `param_count` is the arity of the descriptor, which raises where the descriptor is malformed.
  unfoldable pub make_function :
      Owner → MethodInfo → Option (Text × Text) → Result (Option SynthesizedNode)
  make_function o m none = ok none
  make_function o m (some named) = do
    arity ← descriptor_arity m.descriptor
    ok (some (record (function_node o m named) { param_count = arity }))

  -- `_synthesize_node`
  unfoldable pub synthesize_node : ClassInfo → Owner → MethodInfo → Result (Option SynthesizedNode)
  synthesize_node c o m =
      if not (has_line_numbers m) || is_empty o.file
      then ok none
      else make_function o m (synthetic_name c m)

  abbrev add_declared : MethodInfo → Text → Option (List Declared) → List Declared
  add_declared m caller none = (m, caller) ∷ []
  add_declared m caller (some ds) = ds ++ (m, caller) ∷ []

  -- `if own_id and can_override(method)`
  unfoldable pub declare_method : ClassInfo → Owner → MethodInfo → Text → ClassTables → ClassTables
  unfolding update
  declare_method c o m caller t =
      if not (is_empty o.own_id) && can_override m
      then record t { declared_methods = update c.name (add_declared m caller) t.declared_methods }
      else t

  -- The rest of the loop body, once the caller is known.
  unfoldable pub walk_method : ClassInfo → Owner → MethodInfo → Text → Pass → Pass
  walk_method c o m caller p = access_all s caller o.file m.field_accesses (
      invoke_all s caller o.file m.invocations
        (record p { tables = declare_method c o m caller p.tables }))

  abbrev pub contains_edge : Owner → MethodInfo → Text → Edge
  contains_edge o m caller = record {
    kind = contains;
    src = o.id;
    dst = caller;
    evidence_file = o.file;
    evidence_line = m.start_line;
  }

  -- This edge goes round `seen`.
  unfoldable pub add_function : Owner → MethodInfo → SynthesizedNode → Pass → Pass
  add_function o m node p = record p {
    synthesized = p.synthesized ++ node ∷ [];
    counts = record p.counts { synthesized_nodes = suc p.counts.synthesized_nodes };
    output = record p.output { edges = p.output.edges ++ contains_edge o m node.id ∷ [] };
  }

  unfoldable pub walk_synthesized :
      ClassInfo → Owner → MethodInfo → Option SynthesizedNode → Pass → Pass
  walk_synthesized c o m none p = record p {
    counts = record p.counts {
      synthesis_skipped_no_lines = suc p.counts.synthesis_skipped_no_lines;
    };
  }
  walk_synthesized c o m (some node) p = walk_method c o m node.id (add_function o m node p)

  unfoldable pub count_construct : MethodInfo → MatchStats → MatchStats
  count_construct m t =
      if is_lambda_body m
      then record t { lambda_body = suc t.lambda_body }
      else if is_class_initializer m
      then record t { class_initializer = suc t.class_initializer }
      else t

  unfoldable pub walk_matched : ClassInfo → Owner → MethodInfo → Text × MatchStats → Pass → Pass
  walk_matched c o m (caller, stats) p =
      let found = record p { stats = stats } in
      if is_empty caller then found else walk_method c o m caller found

  -- One round of the loop over methods.
  unfoldable pub method_step : ClassInfo → Owner → MethodInfo → Pass → Result Pass
  method_step c o m p =
      if should_skip_method m
      then ok (record p {
        stats = record p.stats { skipped_synthetic = suc p.stats.skipped_synthetic };
      })
      else if caller_needs_synthesis c m
      then (do
        node ← synthesize_node c o m
        ok (walk_synthesized c o m node (record p { stats = count_construct m p.stats })))
      else ok (walk_matched c o m (method_id s.index c.name m.name m.descriptor p.stats) p)

  unfoldable pub method_steps : ClassInfo → Owner → List MethodInfo → Pass → Result Pass
  method_steps c o [] p = ok p
  method_steps c o (m ∷ ms) p = do q ← method_step c o m p; method_steps c o ms q

  -- Both spellings of the path, with the separator of the host.
  unfoldable pub add_file : Text → List Text → List Text
  unfolding add_text
  add_file file files =
      if is_empty file
      then files
      else add_text (replace_char b'/' s.separator file) (add_text file files)

  unfoldable pub add_header : ClassInfo → Text → ClassTables → ClassTables
  unfolding put
  add_header c own_id t = if is_empty own_id then t else record t {
    hierarchy =
        put c.name (record { super_name = c.super_name; interfaces = c.interfaces }) t.hierarchy;
    own_class_ids = put c.name own_id t.own_class_ids;
  }

  unfoldable pub owner_of : ClassInfo → Owner
  owner_of c =
      let own = class_id s.index c.name in
      let owner = or_text own (class_id s.index (outer_name c)) in
      record {
        own_id = own;
        id = owner;
        file = file_of s.index owner;
        fqn = or_text (binary_to_source_fqn c.name) (binary_to_source_fqn (outer_name c));
      }

  unfoldable pub enter_class : ClassInfo → Owner → Pass → Pass
  enter_class c o p = record p {
    counts = record p.counts { classes_in_repo = suc p.counts.classes_in_repo };
    attributed = add_file o.file p.attributed;
    tables = add_header c o.own_id p.tables;
  }

  abbrev pub see_class : Pass → Pass
  see_class p = record p { counts = record p.counts { classes_seen = suc p.counts.classes_seen } }

  -- One round of the loop over classes.
  unfoldable pub class_step : ClassInfo → Pass → Result Pass
  class_step c p =
      let o = owner_of c in
      if is_empty o.fqn || is_empty o.id
      then ok (see_class p)
      else method_steps c o c.methods (enter_class c o (see_class p))

  unfoldable pub class_steps : List ClassInfo → Pass → Result Pass
  class_steps [] p = ok p
  class_steps (c ∷ cs) p = do q ← class_step c p; class_steps cs q
