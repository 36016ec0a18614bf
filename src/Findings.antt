-- ===== src/Findings.antt =====
-- analysis/findings.py: a finding, the fingerprint, and the parts of the report.
pub mod Dedupe
pub mod Rank
pub mod Dismissals
pub mod Reporting
use graph_ingest_test.Prelude.{
  ℕ, List, [], ◌∷◌, ◌++◌, Bool, Option, none, some, if◌then◌else◌, Text, text_eq, is_empty, ltb,
  true, false,
}

-- An AnalysisDismissal node. Of two values of a missing property '' is the false one.
pub record Dismissal : Type 0 where
  pub fingerprint : Text
  pub reason : Text
  pub by : Text
  pub at : ℕ

-- The keys of a finding that this file reads and writes. A text that is None or missing is '', a
-- number 0 and a list empty. `votes` is the dump of the votes of the adjudication.
pub record Finding : Type 0 where
  pub kind : Text
  pub severity : Text
  pub sink : Text
  pub file : Text
  pub line : ℕ
  pub entry : Text
  pub path_ids : List Text
  pub fingerprint : Text
  pub reachable_from_count : ℕ
  pub also_reachable_from : List Text
  pub duplicate_paths : ℕ
  pub dismissed : Bool
  pub dismissed_because : Text
  pub votes : Text
  pub previously_dismissed : Option Dismissal

-- `a or b` of texts.
abbrev pub or_else : Text → Text → Text
or_else [] b = b
or_else (x ∷ xs) b = x ∷ xs

-- ids[-1]; none if there is no id.
unfoldable pub last_id : List Text → Option Text
last_id [] = none
last_id (i ∷ []) = some i
last_id (i ∷ j ∷ ids) = last_id (j ∷ ids)

-- The graph gives the body hash of a function, '' where it has none, and the digest is
-- `hashlib.sha1(key.encode("utf-8")).hexdigest()[:16]`.
pub record Sources : Type 0 where
  pub body_hash : Text → Text
  pub digest : Text → Text

unfoldable pub sink_hash : Sources → List Text → Text
sink_hash src ids = elim (last_id ids) [ none ↦ [] | some i ↦ src.body_hash i ]

-- The texts joined by "\x00".
unfoldable pub fingerprint_key : Sources → Finding → Text
fingerprint_key src f = f.kind ++ 0 ∷ (or_else f.sink f.file ++ 0 ∷ sink_hash src f.path_ids)

unfoldable pub fingerprint : Sources → Finding → Text
fingerprint src f = src.digest (fingerprint_key src f)
