-- ===== src/Findings/Reporting.antt =====
-- `report` (analysis/findings.py), with the dismissals before and after it.
pub mod Totals
use graph_ingest_test.Prelude.{
  ℕ, suc, ◌-◌, List, [], ◌∷◌, Bool, not, ◌&&◌, if◌then◌else◌, map, length, Text, codes, text_eq,
}
use graph_ingest_test.Findings.{Finding, Sources, fingerprint, or_else}
use graph_ingest_test.Findings.Dedupe.{stamp, dedupe}
use graph_ingest_test.Findings.Rank.{rank}
use graph_ingest_test.Findings.Dismissals.{Dismissals, save_dismissals, apply_dismissals}

-- d[key] = d.get(key, 0) + 1
pub bump : Text → List (Text × ℕ) → List (Text × ℕ)
bump k [] = (k, 1) ∷ []
bump k ((j, n) ∷ t) = if text_eq j k then (j, suc n) ∷ t else (j, n) ∷ bump k t

pub tally : (Finding → Text) → List Finding → List (Text × ℕ) → List (Text × ℕ)
tally field [] t = t
tally field (f ∷ fs) t = tally field fs (bump (field f) t)

pub record Report : Type 0 where
  pub findings : List Finding
  pub deduped_away : ℕ
  pub suppressed_by_prior_dismissal : ℕ
  pub killed_this_run : ℕ
  pub dismissals_recorded : ℕ
  pub by_severity : List (Text × ℕ)
  pub by_kind : List (Text × ℕ)

-- A verdict without a kind or a severity is no finding.
pub is_classified : Finding → Bool
is_classified f =
    not (text_eq (or_else f.kind (codes "none")) (codes "none"))
    && not (text_eq (or_else f.severity (codes "none")) (codes "none"))

pub classified : List Finding → List Finding
classified [] = []
classified (f ∷ fs) = let rest = classified fs in if is_classified f then f ∷ rest else rest

-- `save_dismissals(…) if persist else 0`
pub saved : Bool → ℕ → List Finding → Dismissals → ℕ × Dismissals
saved persist now killed ds =
    if persist then save_dismissals (codes "adversarial_pass") now killed ds else (0, ds)

pub report : Sources → Bool → ℕ → List Finding → List Finding → Dismissals → Report × Dismissals
report src persist now all_confirmed killed ds =
    let confirmed = classified all_confirmed in
    let deduped = dedupe src confirmed in
    let (keep, suppressed) = apply_dismissals deduped ds in
    let ranked = rank keep in
    let (recorded, after) = saved persist now (map (stamp src) killed) ds in
    (
      record {
        findings = ranked;
        deduped_away = length confirmed - length deduped;
        suppressed_by_prior_dismissal = length suppressed;
        killed_this_run = length killed;
        dismissals_recorded = recorded;
        by_severity = tally (λ f. or_else f.severity (codes "none")) ranked [];
        by_kind = tally (λ f. or_else f.kind (codes "other")) ranked [];
      },
      after,
    )
