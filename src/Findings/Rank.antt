-- ===== src/Findings/Rank.antt =====
-- `rank` (analysis/findings.py).
pub mod Order
use graph_ingest_test.Prelude.{
  lower, text_leb, ℕ, ◌+◌, List, [], ◌∷◌, Bool, true, false, if◌then◌else◌, ◌&&◌, ◌==◌, map, length,
  Text, codes, text_eq, ltb, leb,
}
use graph_ingest_test.Prelude.Sorting.{sort}
use graph_ingest_test.Findings.{Finding, or_else}

-- _SEVERITY_ORDER.get(…, 4)
unfoldable pub severity_order : Text → ℕ
severity_order s =
    let t = lower (or_else s (codes "none")) in
    if text_eq t (codes "critical")
    then 0
    else if text_eq t (codes "high")
    then 1
    else if text_eq t (codes "medium")
    then 2
    else if text_eq t (codes "low")
    then 3
    else 4

-- The key tuple, compared from the left. The reach is negated, so the larger comes first.
pub record RankKey : Type 0 where
  pub severity : ℕ
  pub reach : ℕ
  pub path : ℕ
  pub file : Text
  pub line : ℕ

pub rank_key : Finding → RankKey
rank_key f = record {
  severity = severity_order f.severity;
  reach = f.reachable_from_count;
  path = length f.path_ids;
  file = f.file;
  line = f.line;
}

-- A tie in the first number is left to the second test.
abbrev pub then_by : ℕ → ℕ → Bool → Bool
then_by a b rest = if a == b then rest else ltb a b

abbrev pub file_leb : RankKey → RankKey → Bool
file_leb a b = if text_eq a.file b.file then leb a.line b.line else text_leb a.file b.file

pub key_leb : RankKey → RankKey → Bool
key_leb a b =
    then_by a.severity b.severity (then_by b.reach a.reach (then_by a.path b.path (file_leb a b)))

unfoldable pub rank : List Finding → List Finding
rank findings = sort (λ f g. key_leb (rank_key f) (rank_key g)) findings
