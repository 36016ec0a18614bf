-- ===== src/Bytecode/State.antt =====
-- The state of `resolve_java_bytecode` (graph_core/bytecode_resolver.py): edges, the keys in `seen`,
-- the counters of `BytecodeReport`, the inventory and the taint marks.
pub mod Agreement
pub mod Emitting
use graph_ingest_test.Prelude.{
  ℕ, suc, ◌+◌, ◌≡◌, List, [], ◌∷◌, ◌++◌, Option, none, some, Bool, true, false, not, ◌&&◌,
  if◌then◌else◌, ◌==◌, any_of, Text, text_eq,
}
use graph_ingest_test.Prelude.Int.{ℤ}
use graph_ingest_test.Catalog.{Role, Catalogue}
use graph_ingest_test.External.{Kind}
use graph_ingest_test.Classfile.Shapes.{MethodInfo}
use graph_ingest_test.Matcher.Index.{NodeIndex}
use graph_ingest_test.Matcher.Lookup.{MatchStats}

pub data EdgeKind : Type 0 where
  contains calls calls_external reads writes extends implements overrides : EdgeKind

-- Confidence, origin, extractor and strategy are the same on every edge of the pass.
pub record Edge : Type 0 where
  pub kind : EdgeKind
  pub src : Text
  pub dst : Text
  pub evidence_file : Text
  pub evidence_line : ℤ

abbrev rank : EdgeKind → ℕ
rank contains = 0
rank calls = 1
rank calls_external = 2
rank reads = 3
rank writes = 4
rank extends = 5
rank implements = 6
rank overrides = 7

abbrev pub same_kind : EdgeKind → EdgeKind → Bool
same_kind a b = rank a == rank b

-- (type, src, dst)
pub record EdgeKey : Type 0 where
  pub kind : EdgeKind
  pub src : Text
  pub dst : Text

abbrev pub key_of : Edge → EdgeKey
key_of e = record { kind = e.kind; src = e.src; dst = e.dst }

unfoldable pub same_key : EdgeKey → EdgeKey → Bool
same_key a b = same_kind a.kind b.kind && text_eq a.src b.src && text_eq a.dst b.dst

-- `edges` in order, and `seen` with the newest key first.
pub record Output : Type 0 where
  pub edges : List Edge
  pub seen : List EdgeKey

unfoldable pub is_new : Edge → Output → Bool
is_new e o = not (any_of (same_key (key_of e)) o.seen)

-- `if key not in seen: seen.add(key); edges.append(...)`
unfoldable pub emit : Edge → Output → Output
emit e o = if is_new e o then record { edges = o.edges ++ e ∷ []; seen = key_of e ∷ o.seen } else o

-- `rep.… += 1` beside an `emit`.
unfoldable pub count_new : Edge → Output → ℕ → ℕ
count_new e o n = if is_new e o then suc n else n

-- A node made by the pass: a function with no source declaration, or an external target. Label,
-- language, extractor and confidence follow from `external`.
pub record SynthesizedNode : Type 0 where
  pub id : Text
  pub external : Bool
  pub name : Text
  pub fqn : Text
  pub repo : Text
  pub kind : Text
  pub file : Text
  pub start_line : ℤ
  pub end_line : ℤ
  pub param_count : ℕ
  pub is_static : Bool
  pub signature : Text

pub record Counts : Type 0 where
  pub classes_seen : ℕ
  pub classes_in_repo : ℕ
  pub call_edges : ℕ
  pub field_edges : ℕ
  pub hierarchy_edges : ℕ
  pub override_edges : ℕ
  pub override_chains_truncated : ℕ
  pub external_edges : ℕ
  pub external_nodes : ℕ
  pub synthesized_nodes : ℕ
  pub synthesis_skipped_no_lines : ℕ
  pub external_calls : ℕ

-- Calls that leave the repository and have no kind: by owner and method, and by owner.
pub record Inventory : Type 0 where
  pub unclassified : List (Text × ℕ)
  pub unclassified_owners : List (Text × ℕ)
  pub overflow : ℕ

pub record Site : Type 0 where
  pub line : ℤ
  pub category : Text
  pub role : Role
  pub positions : List ℤ

pub record TaintMarks : Type 0 where
  pub sink_kinds : List (Text × List Text)
  pub sources : List Text
  pub sanitizers : List Text
  pub sites : List (Text × List Site)

-- What a class header says of its supertypes.
pub record Header : Type 0 where
  pub super_name : Text
  pub interfaces : List Text

abbrev pub Declared : Type 0
Declared = MethodInfo × Text

pub record ClassTables : Type 0 where
  pub hierarchy : List (Text × Header)
  pub own_class_ids : List (Text × Text)
  pub declared_methods : List (Text × List Declared)

pub record Pass : Type 0 where
  pub output : Output
  pub counts : Counts
  pub inventory : Inventory
  pub taint : TaintMarks
  pub synthesized : List SynthesizedNode
  pub external_ids : List Text
  pub attributed : List Text
  pub tables : ClassTables
  pub stats : MatchStats

-- What the pass reads: the index of extracted nodes, the configuration, the catalog, the hash of
-- `ids.make_id`, and `os.sep`.
pub record Setting : Type 0 where
  pub index : NodeIndex
  pub repo : Text
  pub include_external_other : Bool
  pub enabled_categories : List Text
  pub catalogue : Catalogue
  pub make_id : Text → Text → Text → Text
  pub separator : ℕ
  pub unclassified_max_keys : ℕ

abbrev pub no_counts : Counts
no_counts = record {
  classes_seen = 0;
  classes_in_repo = 0;
  call_edges = 0;
  field_edges = 0;
  hierarchy_edges = 0;
  override_edges = 0;
  override_chains_truncated = 0;
  external_edges = 0;
  external_nodes = 0;
  synthesized_nodes = 0;
  synthesis_skipped_no_lines = 0;
  external_calls = 0;
}

abbrev pub no_stats : MatchStats
no_stats = record {
  matched_methods = 0;
  matched_fields = 0;
  unmatched_class = 0;
  unmatched_method = 0;
  unmatched_field = 0;
  implicit_default_ctor = 0;
  ambiguous_method = 0;
  anonymous_class = 0;
  lambda_body = 0;
  class_initializer = 0;
  skipped_synthetic = 0;
}

abbrev pub empty_pass : Pass
empty_pass = record {
  output = record { edges = []; seen = [] };
  counts = no_counts;
  inventory = record { unclassified = []; unclassified_owners = []; overflow = 0 };
  taint = record { sink_kinds = []; sources = []; sanitizers = []; sites = [] };
  synthesized = [];
  external_ids = [];
  attributed = [];
  tables = record { hierarchy = []; own_class_ids = []; declared_methods = [] };
  stats = no_stats;
}
