-- ===== src/Reach/Store.antt =====
-- The part of the graph that analysis/reach.py reads and writes, and its seeds. Each query over the
-- functions of one repo is a pass over their list; a property that is NULL or true is a Bool.
use graph_ingest_test.Prelude.{
  ℕ, ◌+◌, refl, List, [], ◌∷◌, ◌++◌, Option, none, some, Bool, true, false, not, ◌&&◌, ◌||◌,
  if◌then◌else◌, any_of, map, Text, codes, text_eq, starts_with, is_empty,
}
use graph_ingest_test.Reach.Propagate.{Marking, Arc}

pub record Function : Type 0 where
  pub id : Text
  pub name : Text
  pub lang : Text
  -- the kinds of the External nodes that it calls
  pub external_kinds : List Text
  pub summary_json : Option Text
  -- summary_hash = body_hash
  pub fresh : Bool
  pub taint_categories : List Text
  pub taint_source : Bool
  pub annotations : List Text
  -- it has an EXPOSES edge to an Endpoint
  pub exposes : Bool
  pub sig_entry : Bool
  -- the marks
  pub reaches_sink : Bool
  pub sink_kinds : Option (List Text)
  pub reaches_sink_kinds : Option (List Text)
  pub from_entry : Bool

pub record Call : Type 0 where
  pub caller : Text
  pub callee : Text
  pub strategy : Text

pub record Graph : Type 0 where
  pub functions : List Function
  pub calls : List Call

-- `_TRUSTED`
pub is_trusted : Call → Bool
is_trusted c =
    text_eq c.strategy (codes "bytecode")
    || starts_with (codes "receiver_type") c.strategy
    || starts_with (codes "same_") c.strategy

pub trusted : List Call → List Call
trusted [] = []
trusted (c ∷ cs) = let rest = trusted cs in if is_trusted c then c ∷ rest else rest

-- A mark goes from a callee to its callers, or from a caller to its callees.
pub backward : Call → Arc
backward c = (c.callee, c.caller)

pub forward : Call → Arc
forward c = (c.caller, c.callee)

abbrev pub sink_marking : Marking Function
sink_marking = record {
  id = λ f. f.id;
  marked = λ f. f.reaches_sink;
  mark = λ f. record f { reaches_sink = true };
  id-mark = λ f. refl;
  marked-mark = λ f. refl;
}

abbrev pub entry_marking : Marking Function
entry_marking = record {
  id = λ f. f.id;
  marked = λ f. f.from_entry;
  mark = λ f. record f { from_entry = true };
  id-mark = λ f. refl;
  marked-mark = λ f. refl;
}

-- MATCH … WHERE … SET … RETURN count(f)
unfoldable pub set_where : (Function → Bool) → (Function → Function) → List Function → List Function
set_where test change fs = map (λ f. if test f then change f else f) fs

unfoldable pub count_where : (Function → Bool) → List Function → ℕ
count_where test [] = 0
count_where test (f ∷ fs) = (if test f then 1 else 0) + count_where test fs

abbrev pub is_in : List Text → Text → Bool
is_in ts t = any_of (text_eq t) ts

abbrev pub has_value {ℓ} : {A : Type ℓ} → Option A → Bool
has_value none = false
has_value (some a) = true

-- clear_marks
pub has_marks : Function → Bool
has_marks f = f.reaches_sink || f.from_entry || has_value f.reaches_sink_kinds

pub without_marks : Function → Function
without_marks f = record f {
  reaches_sink = false;
  sink_kinds = none;
  reaches_sink_kinds = none;
  from_entry = false;
}

pub clear_marks : List Function → List Function
clear_marks fs = set_where has_marks without_marks fs

-- DANGEROUS_KINDS
abbrev pub dangerous_kinds : List Text
dangerous_kinds =
    codes "db_execute"
    ∷ codes "db_other"
    ∷ codes "exec"
    ∷ codes "file_write"
    ∷ codes "deserialize"
    ∷ codes "response"
    ∷ codes "reflection"
    ∷ []

-- SUMMARY_SINKS
abbrev pub summary_sinks : List Text
summary_sinks =
    codes "sql"
    ∷ codes "exec"
    ∷ codes "file"
    ∷ codes "deserialize"
    ∷ codes "response"
    ∷ codes "reflection"
    ∷ []

-- ENTRY_ANNOTATIONS
abbrev pub entry_annotations : List Text
entry_annotations =
    codes "WebService"
    ∷ codes "WebMethod"
    ∷ codes "Path"
    ∷ codes "GET"
    ∷ codes "POST"
    ∷ codes "PUT"
    ∷ codes "DELETE"
    ∷ codes "RequestMapping"
    ∷ codes "GetMapping"
    ∷ codes "PostMapping"
    ∷ codes "PutMapping"
    ∷ codes "DeleteMapping"
    ∷ codes "RestController"
    ∷ codes "Controller"
    ∷ []

-- CATEGORY_TO_KIND with the default 'taint_sink'
pub category_kind : Text → Text
category_kind c =
    if text_eq c (codes "CWE-78/command-injection")
    then codes "exec"
    else if text_eq c (codes "CWE-94/code-injection")
    then codes "exec"
    else if text_eq c (codes "CWE-22/path-traversal")
    then codes "file_write"
    else if text_eq c (codes "CWE-502/unsafe-deserialization")
    then codes "deserialize"
    else if text_eq c (codes "CWE-79/xss")
    then codes "response"
    else if text_eq c (codes "CWE-113/response-splitting")
    then codes "response"
    else if text_eq c (codes "CWE-89/sql-injection")
    then codes "db_execute"
    else if text_eq c (codes "CWE-943/nosql-injection")
    then codes "db_execute"
    else codes "taint_sink"

-- `s CONTAINS t`
pub contains_text : Text → Text → Bool
contains_text t [] = is_empty t
contains_text t (x ∷ xs) = starts_with t (x ∷ xs) || contains_text t xs

-- collect(DISTINCT x.kind) of the kinds in the list
pub kinds_in : List Text → List Text → List Text
kinds_in kinds [] = []
kinds_in kinds (k ∷ ks) =
    let rest = kinds_in kinds ks in if is_in kinds k && not (is_in ks k) then k ∷ rest else rest

-- Seed 1: a CALLS_EXTERNAL edge to a kind of the list.
unfoldable pub calls_sink : List Text → Function → Bool
calls_sink kinds f = any_of (is_in kinds) f.external_kinds

unfoldable pub mark_sink_kinds : List Text → Function → Function
mark_sink_kinds kinds f = record f {
  reaches_sink = true;
  sink_kinds = some (kinds_in kinds f.external_kinds);
}

-- Seed 2: a fresh summary that names a sink in quotes.
unfoldable pub names_sink : Option Text → Bool
names_sink none = false
names_sink (some json) = any_of (λ k. contains_text (b'"' ∷ (k ++ b'"' ∷ [])) json) summary_sinks

unfoldable pub summary_sink : Function → Bool
summary_sink f = f.fresh && names_sink f.summary_json

abbrev pub is_nonempty : List Text → Bool
is_nonempty [] = false
is_nonempty (x ∷ xs) = true

-- Seed 3: the catalog's own marking.
unfoldable pub catalog_sink : Function → Bool
catalog_sink f = is_nonempty f.taint_categories

unfoldable pub mark_catalog : Function → Function
mark_catalog f = record f {
  reaches_sink = true;
  sink_kinds = some (map category_kind f.taint_categories);
}

unfoldable pub is_jsp_service : Function → Bool
is_jsp_service f = text_eq f.lang (codes "jsp") && text_eq f.name (codes "_jspService")
