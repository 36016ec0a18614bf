-- ===== src/Tests/Reports.antt =====
-- Two paths to one defect and another defect that an adjudication rules out (analysis/findings.py).
use graph_ingest_test.Prelude.{
  text_leb, suc, ◌≤◌, ◌≡◌, ◌≢◌, refl, List, [], ◌∷◌, none, true, false, length, Text, codes, All,
}
use mathlib.Core.List.{Memᴰ, Perm}
use graph_ingest_test.Prelude.Sorting.{sort}
use graph_ingest_test.Findings.{Finding, Sources, fingerprint, fingerprint_key, sink_hash, last_id}
use graph_ingest_test.Findings.Dedupe.{
  stamp, group_add, group_all, primary, primaries, entries_of, others, dedupe,
}
use graph_ingest_test.Findings.Dedupe.Groups.{represented, dedupe-represented}
use graph_ingest_test.Findings.Dedupe.Primary.{with_fingerprint, dedupe-IsPrimary}
use graph_ingest_test.Findings.Rank.{rank}
use graph_ingest_test.Findings.Rank.Order.{InOrder, rank-IsOrdered}
use graph_ingest_test.Findings.Dismissals.{is_recorded}
use graph_ingest_test.Findings.Reporting.Totals.{Review, reported, stored_after, report-killed}

-- Every function has the same body, and the digest keeps the key.
abbrev sources : Sources
sources = record { body_hash = λ id. codes "h"; digest = λ key. key }

abbrev finding : Text → Text → List Text → Finding
finding sink entry path_ids = record {
  kind = codes "sqli";
  severity = codes "high";
  sink = sink;
  file = codes "A.java";
  line = 3;
  entry = entry;
  path_ids = path_ids;
  fingerprint = [];
  reachable_from_count = 0;
  also_reachable_from = [];
  duplicate_paths = 0;
  dismissed = false;
  dismissed_because = [];
  votes = [];
  previously_dismissed = none;
}

abbrev long_path : Finding
long_path = finding (codes "A#run") (codes "web") (codes "w" ∷ codes "m" ∷ codes "r" ∷ [])

abbrev short_path : Finding
short_path = finding (codes "A#run") (codes "job") (codes "j" ∷ codes "r" ∷ [])

abbrev ruled_out : Finding
ruled_out = record (finding (codes "A#safe") (codes "web") (codes "w" ∷ codes "s" ∷ [])) {
  dismissed = true;
  dismissed_because = codes "escaped";
}

abbrev confirmed : List Finding
confirmed = long_path ∷ short_path ∷ []

dedupe-represented_example : represented (dedupe sources confirmed) ≡ 2
dedupe-represented_example = dedupe-represented sources confirmed

-- The row that remains of the two paths.
abbrev row : Finding
row = record short_path {
  fingerprint = fingerprint_key sources short_path;
  reachable_from_count = 2;
  also_reachable_from = codes "web" ∷ [];
  duplicate_paths = 1;
}

row-listed : Memᴰ row (dedupe sources confirmed)
unfolding dedupe stamp group_add group_all primary primaries entries_of others fingerprint
    fingerprint_key sink_hash last_id text_leb sort
row-listed = Memᴰ.head refl

dedupe-IsPrimary_example :
    All
      (λ f. length row.path_ids ≤ length f.path_ids)
      (with_fingerprint sources row.fingerprint confirmed)
    × (suc row.duplicate_paths ≡ length (with_fingerprint sources row.fingerprint confirmed))
dedupe-IsPrimary_example = dedupe-IsPrimary sources confirmed row row-listed

rank-IsOrdered_example : InOrder (rank confirmed) × Perm (rank confirmed) confirmed
rank-IsOrdered_example = rank-IsOrdered confirmed

ruled_out-recorded : is_recorded (stamp sources ruled_out) ≡ true
unfolding is_recorded stamp fingerprint fingerprint_key
ruled_out-recorded = refl

-- A run kills a finding, and a second and a third one confirm it.
abbrev killing : Review
killing = record {
  sources = sources;
  persist = true;
  now = 7;
  confirmed = confirmed;
  killed = ruled_out ∷ [];
}

abbrev confirming : Review
confirming = record killing { now = 9; confirmed = ruled_out ∷ confirmed; killed = [] }

report-killed_example :
    All
      (λ g. g.fingerprint ≢ (stamp sources ruled_out).fingerprint)
      (reported confirming (stored_after (confirming ∷ []) (reported killing []).1)).0.findings
report-killed_example =
    report-killed killing [] ruled_out refl (Memᴰ.head refl) ruled_out-recorded (confirming ∷ [])
      confirming
