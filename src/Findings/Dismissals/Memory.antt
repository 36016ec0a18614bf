-- ===== src/Findings/Dismissals/Memory.antt =====
-- What is remembered of dismissals (analysis/findings.py).
use graph_ingest_test.Prelude.{
  ℕ, ◌+◌, ◌≡◌, refl, List, [], ◌∷◌, Bool, true, false, none, some, length, Text, text_eq_iff, arith,
  All, Bool-cases, Option-cases, inl, inr, true-false,
}
use mathlib.Core.List.{Memᴰ}
use mathlib.Core.List.Memᴰ
use mathlib.Core.Logic.{⊎_elim}
use graph_ingest_test.Findings.{Dismissal, Finding}
use graph_ingest_test.Findings.Dismissals.{
  Dismissals, prior, merge, merge_all, is_recorded, rows_of, save_dismissals, apply_dismissals,
}

-- A fingerprint has a dismissal.
abbrev pub is_dismissed : Text → Dismissals → Bool
is_dismissed fp ds = elim (prior fp ds) [ none ↦ false | some d ↦ true ]

dismissed-merge : (d : Dismissal) (ds : Dismissals) → is_dismissed d.fingerprint (merge d ds) ≡ true
unfolding prior merge
dismissed-merge d [] = ground (arith, text_eq_iff d.fingerprint d.fingerprint)
dismissed-merge d (e ∷ ds) = ground (
  arith,
  text_eq_iff d.fingerprint d.fingerprint,
  text_eq_iff e.fingerprint d.fingerprint,
  dismissed-merge d ds,
)

merge-keeps :
    (fp : Text) (d : Dismissal) (ds : Dismissals)
    → is_dismissed fp ds ≡ true
    → is_dismissed fp (merge d ds) ≡ true
unfolding prior merge
merge-keeps fp d [] h = cc
merge-keeps fp d (e ∷ ds) h = ground (
  arith,
  text_eq_iff e.fingerprint fp,
  text_eq_iff d.fingerprint fp,
  text_eq_iff e.fingerprint d.fingerprint,
  merge-keeps fp d ds,
)

merge_all-keeps :
    (fp : Text) (rs : List Dismissal) (ds : Dismissals)
    → is_dismissed fp ds ≡ true
    → is_dismissed fp (merge_all rs ds) ≡ true
unfolding merge_all
merge_all-keeps fp [] ds h = h
merge_all-keeps fp (r ∷ rs) ds h = merge_all-keeps fp rs (merge r ds) (merge-keeps fp r ds h)

merge_all-rows :
    (by : Text) (now : ℕ) (fs : List Finding) (ds : Dismissals) (f : Finding)
    → Memᴰ f fs
    → is_recorded f ≡ true
    → is_dismissed f.fingerprint (merge_all (rows_of by now fs) ds) ≡ true
unfolding rows_of prior merge_all is_recorded
merge_all-rows by now [] ds f m h = absurd (Memᴰ.not-nil m)
merge_all-rows by now (g ∷ fs) ds f m h = elim (Bool-cases (is_recorded g)) [
  | inl e ↦
      rw (e, rows_of, merge_all)
        (⊎_elim
          (λ same.
            rw same (merge_all-keeps g.fingerprint (rows_of by now fs) _ (dismissed-merge _ ds)))
          (λ t. merge_all-rows by now fs _ f t h) (Memᴰ.cases_cons m))
  | inr e ↦
      rw (e, rows_of)
        (⊎_elim (λ same. absurd (true-false (rw same at h) e))
          (λ t. merge_all-rows by now fs ds f t h) (Memᴰ.cases_cons m))
]

-- After a run's dismissals are saved, every finding that was dismissed and has a fingerprint has a
-- dismissal under it, whatever was stored before.
pub save_dismissals-recorded :
    (by : Text) (now : ℕ) (fs : List Finding) (ds : Dismissals) (f : Finding)
    → Memᴰ f fs
    → is_recorded f ≡ true
    → is_dismissed f.fingerprint (save_dismissals by now fs ds).1 ≡ true
unfolding save_dismissals
save_dismissals-recorded = merge_all-rows

-- What is stored is not forgotten when more is saved.
pub save_dismissals-keeps :
    (by : Text) (now : ℕ) (fs : List Finding) (ds : Dismissals) (fp : Text)
    → is_dismissed fp ds ≡ true
    → is_dismissed fp (save_dismissals by now fs ds).1 ≡ true
unfolding save_dismissals
save_dismissals-keeps by now fs ds fp h = merge_all-keeps fp (rows_of by now fs) ds h

-- No finding is lost and none doubled between the two lists.
pub length-apply_dismissals :
    (fs : List Finding) (ds : Dismissals)
    → length (apply_dismissals fs ds).0 + length (apply_dismissals fs ds).1 ≡ length fs
unfolding apply_dismissals
length-apply_dismissals [] ds = refl
length-apply_dismissals (f ∷ fs) ds = elim (Option-cases (prior f.fingerprint ds)) [
  | inl e ↦ rw (e, apply_dismissals) (omega (arith, length-apply_dismissals fs ds))
  | inr (d, e) ↦ rw (e, apply_dismissals) (omega (arith, length-apply_dismissals fs ds))
]

-- A finding that is kept has no dismissal.
pub apply_dismissals-kept :
    (fs : List Finding) (ds : Dismissals)
    → All (λ f. is_dismissed f.fingerprint ds ≡ false) (apply_dismissals fs ds).0
unfolding apply_dismissals
apply_dismissals-kept [] ds = tt
apply_dismissals-kept (f ∷ fs) ds = elim (Option-cases (prior f.fingerprint ds)) [
  | inl e ↦ rw (e, apply_dismissals) (rw (e, is_dismissed) refl, apply_dismissals-kept fs ds)
  | inr (d, e) ↦ rw (e, apply_dismissals) (apply_dismissals-kept fs ds)
]
