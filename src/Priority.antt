-- ===== src/Priority.antt =====
-- analysis/priority.py: the severity table, and the signals that a summary gives a function. Scores
-- are in quarters of a point: every weight is a multiple of a half, and a sanitizer halves the score.
pub mod Table
pub mod Score
use graph_ingest_test.Prelude.{
  ℕ, ◌+◌, ◌*◌, ◌/◌, List, [], ◌∷◌, ◌++◌, Bool, true, false, not, ◌&&◌, ◌||◌, if◌then◌else◌, any_of,
  length, map, leb, Text, codes, text_eq, is_empty, lower, text_leb, split_head, rsplit_last, strip,
}
use graph_ingest_test.Prelude.Sorting.{sort}

-- A missing text is '', a missing list empty and a missing flag false.
pub record Db : Type 0 where
  pub sql_is_dynamic : Bool
  pub acquires : Bool
  pub released_in_finally : Bool
  pub resources_leaked : Bool
  pub throws_between_acquire_and_release : Bool

pub record Source : Type 0 where
  pub reads_untrusted : Bool
  pub is_entry_point : Bool
  pub kinds : List Text

pub record Guards : Type 0 where
  pub authenticates : Bool
  pub authorizes : Bool
  pub is_sanitizer : Bool
  pub validates_input : Bool

pub record Contracts : Type 0 where
  pub may_return_null : Bool
  pub null_condition : Text
  pub returns_sentinel : Text
  pub unguarded_calls : List Text
  pub swallowed_exception_calls : List Text

pub record Observation : Type 0 where
  pub certainty : Text
  pub impact : Text

pub record Summary : Type 0 where
  pub db : Db
  pub source : Source
  pub guards : Guards
  pub contracts : Contracts
  pub touches : List Text
  pub findings : List Observation

pub record Signals : Type 0 where
  pub sig_schema_version : ℕ
  pub sig_risk_score : ℕ
  pub sig_important : Bool
  pub sig_reasons : List Text
  pub sig_entry : Bool
  pub sig_untrusted : Bool
  pub sig_source_kinds : List Text
  pub sig_sanitizer : Bool
  pub sig_auth : Bool
  pub sig_validates : Bool
  pub sig_taint_params : ℕ
  pub sig_sql_dynamic : Bool
  pub sig_acquires : Bool
  pub sig_leak : Bool
  pub sig_confirmed_leak : Bool
  pub sig_findings : ℕ
  pub sig_may_return_null : Bool
  pub sig_null_condition : Text
  pub sig_returns_sentinel : Text
  pub sig_unguarded_calls : List Text
  pub sig_swallowed_calls : List Text
  pub sig_released_in_finally : Bool

-- RISK_WEIGHTS.get(r, 0.5), in quarters
pub risk_weight : Text → ℕ
risk_weight r =
    if text_eq r (codes "builds_sql_dynamically")
    then 12
    else if text_eq r (codes "deserialization")
    then 12
    else if text_eq r (codes "spawns_process")
    then 12
    else if text_eq r (codes "parses_untrusted_input")
    then 8
    else if text_eq r (codes "manual_resource_handling")
    then 8
    else if text_eq r (codes "reflection")
    then 8
    else if text_eq r (codes "crypto")
    then 6
    else if text_eq r (codes "writes_filesystem")
    then 6
    else if text_eq r (codes "transaction_boundary")
    then 4
    else if text_eq r (codes "auth_check")
    then 4
    else if text_eq r (codes "authz_check")
    then 4
    else if text_eq r (codes "none")
    then 0
    else 2

-- The columns of SEVERITY under a certainty, and the level of a certainty, an impact.
pub row : Text → Text → Text → Text → Text → Text
row exposure integrity correctness quality impact =
    if text_eq impact (codes "exposure")
    then exposure
    else if text_eq impact (codes "integrity")
    then integrity
    else if text_eq impact (codes "correctness")
    then correctness
    else if text_eq impact (codes "quality")
    then quality
    else codes "none"

pub table : Text → Text → Text
table certainty impact =
    if text_eq certainty (codes "demonstrated")
    then row (codes "critical") (codes "high") (codes "high") (codes "low") impact
    else if text_eq certainty (codes "probable")
    then row (codes "high") (codes "medium") (codes "medium") (codes "low") impact
    else if text_eq certainty (codes "speculative")
    then row (codes "medium") (codes "low") (codes "low") (codes "low") impact
    else codes "none"

pub severity : Text → Text → Text
severity certainty impact = table (lower certainty) (lower impact)

-- `sorted` of a set: each once.
pub distinct : List Text → List Text
distinct [] = []
distinct (x ∷ xs) = let rest = distinct xs in if any_of (text_eq x) xs then rest else x ∷ rest

pub sorted_set : List Text → List Text
sorted_set xs = sort text_leb (distinct xs)

pub bare_name : Text → Text
bare_name v = strip (rsplit_last b'.' (split_head b'(' v))

pub nonempty : List Text → List Text
nonempty [] = []
nonempty (x ∷ xs) = let rest = nonempty xs in if is_empty x then rest else x ∷ rest

-- _bare_names
pub bare_names : List Text → List Text
bare_names values = sorted_set (nonempty (map bare_name values))

-- {k for k in kinds if k and k != "none"}
pub named_kinds : List Text → List Text
named_kinds [] = []
named_kinds (k ∷ ks) =
    let rest = named_kinds ks in if is_empty k || text_eq k (codes "none") then rest else k ∷ rest

abbrev pub touched : Summary → Text → Bool
touched s t = any_of (text_eq t) (named_kinds s.touches)

abbrev pub reason : Bool → Text → List Text
reason b r = if b then r ∷ [] else []

abbrev pub is_guarded : Guards → Bool
is_guarded g = g.authenticates || g.authorizes

pub reasons_of : Summary → List Text
reasons_of s =
    reason s.db.sql_is_dynamic (codes "builds_sql_dynamically")
    ++ (reason s.db.acquires (codes "manual_resource_handling")
        ++ (reason (touched s (codes "exec")) (codes "spawns_process")
            ++ (reason (touched s (codes "deserialize")) (codes "deserialization")
                ++ (reason (touched s (codes "reflection")) (codes "reflection")
                    ++ (reason (touched s (codes "file")) (codes "writes_filesystem")
                        ++ (reason s.source.reads_untrusted (codes "parses_untrusted_input")
                            ++ reason (is_guarded s.guards) (codes "auth_check")))))))

-- acquires and not released in a finally block
unfoldable pub unguarded : Db → Bool
unguarded db = db.acquires && not db.released_in_finally

pub leak : Db → Bool
leak db = db.acquires && (unguarded db || db.resources_leaked)

unfoldable pub confirmed_leak : Db → Bool
confirmed_leak db = unguarded db && db.throws_between_acquire_and_release

pub is_strong : Observation → Bool
is_strong f =
    let s = severity f.certainty f.impact in
    text_eq s (codes "critical") || text_eq s (codes "high") || text_eq s (codes "medium")

pub strong_findings : List Observation → ℕ
strong_findings [] = 0
strong_findings (f ∷ fs) = (if is_strong f then 1 else 0) + strong_findings fs

pub weights : List Text → ℕ
weights [] = 0
weights (r ∷ rs) = risk_weight r + weights rs

abbrev pub points : Bool → ℕ → ℕ
points b n = if b then n else 0

-- min(n, 3)
abbrev pub at_most_three : ℕ → ℕ
at_most_three n = if leb n 3 then n else 3

-- Before a sanitizer halves it. No parameter is counted as tainted.
pub raw_score : Summary → ℕ
raw_score s =
    weights (reasons_of s)
    + points s.db.sql_is_dynamic 8
    + points (leak s.db) 8
    + points (confirmed_leak s.db) 4
    + points s.source.reads_untrusted 6
    + points s.source.is_entry_point 4
    + at_most_three (strong_findings s.findings) * 8

pub score : Summary → ℕ
score s = if s.guards.is_sanitizer then raw_score s / 2 else raw_score s

-- contract.SCHEMA_VERSION
abbrev pub schema_version : ℕ
schema_version = 5

-- _IMPORTANT_THRESHOLD, in quarters
abbrev pub important_threshold : ℕ
important_threshold = 12

unfoldable pub derive_signals : Summary → Signals
derive_signals s = record {
  sig_schema_version = schema_version;
  sig_risk_score = score s;
  sig_important = leb important_threshold (score s);
  sig_reasons = sort text_leb (reasons_of s);
  sig_entry = s.source.is_entry_point;
  sig_untrusted = s.source.reads_untrusted;
  sig_source_kinds = sorted_set (named_kinds s.source.kinds);
  sig_sanitizer = s.guards.is_sanitizer;
  sig_auth = is_guarded s.guards;
  sig_validates = s.guards.validates_input;
  sig_taint_params = 0;
  sig_sql_dynamic = s.db.sql_is_dynamic;
  sig_acquires = s.db.acquires;
  sig_leak = leak s.db;
  sig_confirmed_leak = confirmed_leak s.db;
  sig_findings = strong_findings s.findings;
  sig_may_return_null = s.contracts.may_return_null;
  sig_null_condition = s.contracts.null_condition;
  sig_returns_sentinel = s.contracts.returns_sentinel;
  sig_unguarded_calls = bare_names s.contracts.unguarded_calls;
  sig_swallowed_calls = bare_names s.contracts.swallowed_exception_calls;
  sig_released_in_finally = s.db.released_in_finally;
}
