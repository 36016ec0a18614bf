-- ===== src/Findings/Dismissals.antt =====
-- The memory of dismissals (analysis/findings.py: `load_dismissals`, `save_dismissals`,
-- `apply_dismissals`). The AnalysisDismissal nodes of one repo are a list.
pub mod Memory
use graph_ingest_test.Prelude.{
  ℕ, List, [], ◌∷◌, Bool, true, false, not, ◌&&◌, Option, none, some, if◌then◌else◌, length, take,
  Text, codes, text_eq, is_empty,
}
use graph_ingest_test.Findings.{Dismissal, Finding, or_else}

abbrev pub Dismissals : Type 0
Dismissals = List Dismissal

-- `dismissals.get(fingerprint)`
pub prior : Text → Dismissals → Option Dismissal
prior fp [] = none
prior fp (d ∷ ds) = if text_eq d.fingerprint fp then some d else prior fp ds

-- MERGE on the fingerprint, and SET
pub merge : Dismissal → Dismissals → Dismissals
merge d [] = d ∷ []
merge d (e ∷ ds) = if text_eq e.fingerprint d.fingerprint then d ∷ ds else e ∷ merge d ds

pub merge_all : List Dismissal → Dismissals → Dismissals
merge_all [] ds = ds
merge_all (r ∷ rs) ds = merge_all rs (merge r ds)

-- What is recorded of a finding: why it was dismissed, or the votes, or the bare fact.
pub reason_of : Finding → Text
reason_of f =
    or_else f.dismissed_because (
      if is_empty f.votes
      then codes "dismissed"
      else or_else (take 600 f.votes) (codes "dismissed"))

unfoldable pub is_recorded : Finding → Bool
is_recorded f = f.dismissed && not (is_empty f.fingerprint)

pub rows_of : Text → ℕ → List Finding → List Dismissal
rows_of by now [] = []
rows_of by now (f ∷ fs) =
    let rest = rows_of by now fs in
    if is_recorded f
    then record { fingerprint = f.fingerprint; reason = reason_of f; by = by; at = now } ∷ rest
    else rest

-- The number of rows, and the nodes afterwards.
pub save_dismissals : Text → ℕ → List Finding → Dismissals → ℕ × Dismissals
save_dismissals by now findings ds =
    let rows = rows_of by now findings in (length rows, merge_all rows ds)

-- (to report, previously dismissed)
pub apply_dismissals : List Finding → Dismissals → List Finding × List Finding
apply_dismissals [] ds = ([], [])
apply_dismissals (f ∷ fs) ds =
    let (keep, suppressed) = apply_dismissals fs ds in
    elim (prior f.fingerprint ds) [
      | some d ↦ (keep, record f { previously_dismissed = some d } ∷ suppressed)
      | none ↦ (f ∷ keep, suppressed)
    ]
