-- ===== src/Findings/Reporting/Totals.antt =====
-- What a report holds, and what it no longer holds after a dismissal (analysis/findings.py).
use graph_ingest_test.Prelude.{
  ℕ, ◌+◌, ◌≤◌, ◌≡◌, ◌≢◌, List, [], ◌∷◌, Bool, true, false, map, length, Text, arith, All, Memᴰ-map,
  true-false, Bool-cases, inl, inr,
}
use mathlib.Core.List.{Memᴰ}
use graph_ingest_test.Prelude.Sorting.{All-sort, length-sort}
use graph_ingest_test.Findings.{Finding, Sources}
use graph_ingest_test.Findings.Dedupe.{stamp, dedupe}
use graph_ingest_test.Findings.Dedupe.Groups.{represented, dedupe-represented}
use graph_ingest_test.Findings.Rank.{rank}
use graph_ingest_test.Findings.Dismissals.{Dismissals, is_recorded, apply_dismissals}
use graph_ingest_test.Findings.Dismissals.Memory.{
  is_dismissed, length-apply_dismissals, apply_dismissals-kept, save_dismissals-recorded,
  save_dismissals-keeps,
}
use graph_ingest_test.Findings.Reporting.{Report, classified, saved, report}

length-represented : (ps : List Finding) → length ps ≤ represented ps
length-represented [] = omega arith
length-represented (p ∷ ps) = omega (arith, length-represented ps)

-- The findings of a report, those suppressed and those deduplicated away are together the confirmed
-- findings that have a kind and a severity.
pub report-total :
    (src : Sources) (persist : Bool) (now : ℕ) (confirmed killed : List Finding) (ds : Dismissals)
    → (let r = (report src persist now confirmed killed ds).0 in
        length r.findings + r.suppressed_by_prior_dismissal + r.deduped_away)
      ≡ length (classified confirmed)
unfolding report rank
report-total src persist now confirmed killed ds =
    let cs = classified confirmed in
    omega (
      arith,
      length-sort _ (apply_dismissals (dedupe src cs) ds).0,
      length-apply_dismissals (dedupe src cs) ds,
      dedupe-represented src cs,
      length-represented (dedupe src cs),
    )

-- No finding of a report has a dismissal from an earlier run.
pub report-dismissed :
    (src : Sources) (persist : Bool) (now : ℕ) (confirmed killed : List Finding) (ds : Dismissals)
    → All
        (λ f. is_dismissed f.fingerprint ds ≡ false)
        (report src persist now confirmed killed ds).0.findings
unfolding report rank
report-dismissed src persist now confirmed killed ds =
    All-sort _ _ _ (apply_dismissals-kept (dedupe src (classified confirmed)) ds)

differs :
    (fp : Text) (ds : Dismissals) (fs : List Finding)
    → is_dismissed fp ds ≡ true
    → All (λ f. is_dismissed f.fingerprint ds ≡ false) fs
    → All (λ f. f.fingerprint ≢ fp) fs
differs fp ds [] h hs = tt
differs fp ds (f ∷ fs) h hs = ((λ e. absurd (true-false h (rw e at hs.0))), differs fp ds fs h hs.1)

-- The arguments of one report.
pub record Review : Type 0 where
  pub sources : Sources
  pub persist : Bool
  pub now : ℕ
  pub confirmed : List Finding
  pub killed : List Finding

abbrev pub reported : Review → Dismissals → Report × Dismissals
reported v ds = report v.sources v.persist v.now v.confirmed v.killed ds

-- What is stored after a sequence of reports on one store.
pub stored_after : List Review → Dismissals → Dismissals
stored_after [] ds = ds
stored_after (v ∷ vs) ds = stored_after vs (reported v ds).1

reported-keeps :
    (v : Review) (ds : Dismissals) (fp : Text)
    → is_dismissed fp ds ≡ true
    → is_dismissed fp (reported v ds).1 ≡ true
unfolding report saved
reported-keeps v ds fp h = elim (Bool-cases v.persist) [
  | inl e ↦ rw e (save_dismissals-keeps _ v.now (map (stamp v.sources) v.killed) ds fp h)
  | inr e ↦ rw e h
]

stored_after-keeps :
    (vs : List Review) (ds : Dismissals) (fp : Text)
    → is_dismissed fp ds ≡ true
    → is_dismissed fp (stored_after vs ds) ≡ true
unfolding stored_after
stored_after-keeps [] ds fp h = h
stored_after-keeps (v ∷ vs) ds fp h =
    stored_after-keeps vs (reported v ds).1 fp (reported-keeps v ds fp h)

-- A finding that a run kills as dismissed, and persists, is in no later report on the same store:
-- whatever reports come between, and whatever the later run confirms, nothing with its fingerprint is
-- reported.
pub report-killed :
    (v : Review) (ds : Dismissals) (f : Finding)
    → v.persist ≡ true
    → Memᴰ f v.killed
    → is_recorded (stamp v.sources f) ≡ true
    → (between : List Review) (later : Review)
    → All
        (λ g. g.fingerprint ≢ (stamp v.sources f).fingerprint)
        (reported later (stored_after between (reported v ds).1)).0.findings
unfolding report saved
report-killed v ds f persists m h between later =
    let stored = stored_after between (reported v ds).1 in
    differs (stamp v.sources f).fingerprint stored _
      (stored_after-keeps between (reported v ds).1 _ (
        rw persists (
          save_dismissals-recorded _ v.now (map (stamp v.sources) v.killed) ds (stamp v.sources f)
            (Memᴰ-map (stamp v.sources) v.killed f m) h)))
      (report-dismissed later.sources later.persist later.now later.confirmed later.killed stored)
