-- ===== src/Bytecode/Calls.antt =====
-- The instructions of one method (graph_core/bytecode_resolver.py, the loops over
-- `method.invocations` and `method.field_accesses` in `resolve_java_bytecode`).
pub mod Tallies
pub mod Sound
use graph_ingest_test.Prelude.{
  ℕ, suc, List, [], ◌∷◌, ◌++◌, Option, none, some, Bool, true, false, ltb, if◌then◌else◌, length,
  Text, codes, is_empty, rsplit_last, starts_with, find, update, bump, has_text, add_text,
}
use graph_ingest_test.Prelude.Int.{ℤ, pos, negsuc}
use graph_ingest_test.Catalog.{Role, Entry, Hit, classify_taint, is_inventory_noise}
use graph_ingest_test.Catalog.Role.{source, sink, sanitizer}
use graph_ingest_test.External.{Kind, classify_external, external_key, external_display}
use graph_ingest_test.Classfile.Descriptor.{type_name}
use graph_ingest_test.Classfile.Shapes.{
  InvokeOp, Invocation, FieldAccess, is_read, invokevirtual, invokespecial, invokestatic,
  invokeinterface, invokedynamic,
}
use graph_ingest_test.Matcher.Index.{field_id}
use graph_ingest_test.Matcher.Lookup.{MatchStats, method_id}
use graph_ingest_test.Bytecode.State.{
  Edge, calls, calls_external, reads, writes, is_new, emit, count_new, Counts, Inventory, Site,
  TaintMarks, SynthesizedNode, Pass, Setting, no_stats,
}

-- The type that a call returns, where it is an object type.
unfoldable pub return_type : Text → Text
return_type descriptor =
    let ret = rsplit_last b')' descriptor in
    if starts_with (codes "L") ret then type_name ret else []

-- `if inv.line:`, for a number.
abbrev pub is_nonzero : ℤ → Bool
is_nonzero (pos n) = ltb 0 n
is_nonzero (negsuc n) = true

abbrev add_category : Text → Option (List Text) → List Text
add_category c none = c ∷ []
add_category c (some cs) = add_text c cs

abbrev add_site : Site → Option (List Site) → List Site
add_site s none = s ∷ []
add_site s (some ss) = ss ++ s ∷ []

unfoldable pub mark_role : Text → Entry → TaintMarks → TaintMarks
unfolding update add_text
mark_role caller e t = elim e.role [
  | source ↦ record t { sources = add_text caller t.sources }
  | sink ↦ record t { sink_kinds = update caller (add_category e.category) t.sink_kinds }
  | sanitizer ↦ record t { sanitizers = add_text caller t.sanitizers }
]

unfoldable pub mark_site : Text → ℤ → Hit → TaintMarks → TaintMarks
unfolding update
mark_site caller line hit t =
    if is_nonzero line
    then record t {
      sites =
          update caller
            (add_site (record {
              line = line;
              category = hit.entry.category;
              role = hit.entry.role;
              positions = hit.positions;
            }))
            t.sites;
    }
    else t

unfoldable pub mark_taint : Text → ℤ → Option Hit → TaintMarks → TaintMarks
mark_taint caller line none t = t
mark_taint caller line (some hit) t =
    if is_empty caller then t else mark_site caller line hit (mark_role caller hit.entry t)

-- The name of a kind, as the `External` node carries it.
abbrev kind_text : Kind → Text
kind_text Kind.db_acquire = codes "db_acquire"
kind_text Kind.db_execute = codes "db_execute"
kind_text Kind.db_release = codes "db_release"
kind_text Kind.db_other = codes "db_other"
kind_text Kind.reflection = codes "reflection"
kind_text Kind.other = codes "other"
kind_text Kind.taint_source = codes "taint_source"
kind_text Kind.taint_sink = codes "taint_sink"
kind_text Kind.taint_sanitizer = codes "taint_sanitizer"
kind_text Kind.exec = codes "exec"
kind_text Kind.file_write = codes "file_write"
kind_text Kind.deserialize = codes "deserialize"
kind_text Kind.response = codes "response"

unfoldable pub external_node : Text → Kind → Invocation → SynthesizedNode
external_node eid kind inv = record {
  id = eid;
  external = true;
  name = external_display inv.owner inv.name;
  fqn = external_key inv.owner inv.name;
  repo = codes "external";
  kind = kind_text kind;
  file = [];
  start_line = pos 0;
  end_line = pos 0;
  param_count = 0;
  is_static = false;
  signature = [];
}

-- `if inv.owner … is_inventory_noise`: the tally by method has a cap, the one by owner has none.
unfoldable pub tally_method : ℕ → Text → Inventory → Inventory
unfolding bump
tally_method cap key i = elim (find key i.unclassified) [
  | some n ↦ record i { unclassified = bump key i.unclassified }
  | none ↦
      if ltb (length i.unclassified) cap
      then record i { unclassified = bump key i.unclassified }
      else record i { overflow = suc i.overflow }
]

unfoldable pub tally_unclassified : ℕ → Text → Text → Inventory → Inventory
unfolding bump
tally_unclassified cap owner name i =
    let tallied = record i { unclassified_owners = bump owner i.unclassified_owners } in
    if is_inventory_noise owner then tallied else tally_method cap (external_key owner name) tallied

module _ (s : Setting) where
  -- `external_id`
  abbrev pub external_id : Invocation → Text
  external_id inv =
      s.make_id (codes "external") (external_key inv.owner inv.name) (codes "external")

  unfoldable pub call_kind : Invocation → Option Kind
  call_kind inv =
      classify_external s.catalogue s.enabled_categories s.include_external_other inv.owner inv.name
        (return_type inv.descriptor)

  module _ (caller owner_file : Text) where
    -- The first call of an external target makes its node.
    unfoldable pub add_external_node : Kind → Invocation → Pass → Pass
    add_external_node kind inv p =
        if has_text (external_id inv) p.external_ids then p else record p {
          external_ids = external_id inv ∷ p.external_ids;
          synthesized = p.synthesized ++ external_node (external_id inv) kind inv ∷ [];
          counts = record p.counts { external_nodes = suc p.counts.external_nodes };
        }

    abbrev pub external_edge : Invocation → Edge
    external_edge inv = record {
      kind = calls_external;
      src = caller;
      dst = external_id inv;
      evidence_file = owner_file;
      evidence_line = inv.line;
    }

    unfoldable pub emit_external : Invocation → Pass → Pass
    emit_external inv p = record p {
      output = emit (external_edge inv) p.output;
      counts = record p.counts {
        external_edges = count_new (external_edge inv) p.output p.counts.external_edges;
      };
    }

    unfoldable pub record_external : Invocation → Option Kind → Pass → Pass
    record_external inv none p = p
    record_external inv (some kind) p = emit_external inv (add_external_node kind inv p)

    abbrev pub call_edge : Text → Invocation → Edge
    call_edge callee inv = record {
      kind = calls;
      src = caller;
      dst = callee;
      evidence_file = owner_file;
      evidence_line = inv.line;
    }

    -- `if not kind`
    abbrev pub tally_if_unclassified : Invocation → Option Kind → Inventory → Inventory
    tally_if_unclassified inv (some kind) i = i
    tally_if_unclassified inv none i =
        tally_unclassified s.unclassified_max_keys inv.owner inv.name i

    -- The callee is out of the repository where the index has no id for it.
    unfoldable pub record_call : Text → Invocation → Option Kind → Pass → Pass
    record_call callee inv kind p =
        if is_empty callee
        then record p {
          counts = record p.counts { external_calls = suc p.counts.external_calls };
          inventory = tally_if_unclassified inv kind p.inventory;
        }
        else record p {
          output = emit (call_edge callee inv) p.output;
          counts = record p.counts {
            call_edges = count_new (call_edge callee inv) p.output p.counts.call_edges;
          };
        }

    abbrev callee_id : Invocation → Text
    callee_id inv = (method_id s.index inv.owner inv.name inv.descriptor no_stats).0

    abbrev pub mark_call : Invocation → Pass → Pass
    mark_call inv p = record p {
      taint = mark_taint caller inv.line (classify_taint s.catalogue inv.owner inv.name) p.taint;
    }

    unfoldable pub bound_call : Invocation → Pass → Pass
    bound_call inv p =
        record_call (callee_id inv) inv (call_kind inv)
          (record_external inv (call_kind inv) (mark_call inv p))

    -- One round of the loop over invocations.
    unfoldable pub invoke : Invocation → Pass → Pass
    invoke inv p = elim inv.opcode [ invokedynamic ↦ p | _ ↦ bound_call inv p ]

    unfoldable pub invoke_all : List Invocation → Pass → Pass
    invoke_all [] p = p
    invoke_all (inv ∷ invs) p = invoke_all invs (invoke inv p)

    abbrev pub access_edge : Text → FieldAccess → Edge
    access_edge target a = record {
      kind = (if is_read a.opcode then reads else writes);
      src = caller;
      dst = target;
      evidence_file = owner_file;
      evidence_line = a.line;
    }

    unfoldable pub record_access : Text → FieldAccess → Pass → Pass
    record_access target a p =
        if is_empty target
        then record p { stats = record p.stats { unmatched_field = suc p.stats.unmatched_field } }
        else record p {
          output = emit (access_edge target a) p.output;
          counts = record p.counts {
            field_edges = count_new (access_edge target a) p.output p.counts.field_edges;
          };
          stats = record p.stats {
            matched_fields = count_new (access_edge target a) p.output p.stats.matched_fields;
          };
        }

    -- One round of the loop over field accesses.
    unfoldable pub access : FieldAccess → Pass → Pass
    access a p = record_access (field_id s.index a.owner a.name) a p

    unfoldable pub access_all : List FieldAccess → Pass → Pass
    access_all [] p = p
    access_all (a ∷ accesses) p = access_all accesses (access a p)
