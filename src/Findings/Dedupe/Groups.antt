-- ===== src/Findings/Dedupe/Groups.antt =====
-- The groups that `dedupe` collects and what becomes of them (analysis/findings.py).
use graph_ingest_test.Prelude.{
  ℕ, suc, ◌+◌, ◌<◌, ◌≡◌, refl, List, [], ◌∷◌, ◌++◌, length, Text, text_eq, arith, Bool-cases, inl,
  inr, length-append,
}
use graph_ingest_test.Prelude.Sorting.{sort, length-sort}
use graph_ingest_test.Findings.{Finding, Sources}
use graph_ingest_test.Findings.Dedupe.{
  Groups, stamp, group_add, group_all, by_path, primary, primaries, dedupe,
}

-- The findings that the rows of a report stand for.
abbrev pub represented : List Finding → ℕ
represented [] = 0
represented (p ∷ ps) = suc p.duplicate_paths + represented ps

abbrev grouped : Groups → ℕ
grouped [] = 0
grouped ((k, fs) ∷ gs) = length fs + grouped gs

abbrev AreFilled : Groups → Type 0
AreFilled [] = Unit
AreFilled ((k, fs) ∷ gs) = (0 < length fs) × AreFilled gs

grouped-add :
    (fp : Text) (f : Finding) (gs : Groups) → grouped (group_add fp f gs) ≡ suc (grouped gs)
unfolding group_add
grouped-add fp f [] = refl
grouped-add fp f ((k, fs) ∷ gs) = ground (arith, grouped-add fp f gs, length-append fs (f ∷ []))

grouped-all :
    (src : Sources) (fs : List Finding) (gs : Groups)
    → grouped (group_all src fs gs) ≡ grouped gs + length fs
unfolding group_all
grouped-all src [] gs = omega arith
grouped-all src (f ∷ fs) gs =
    let g = stamp src f in
    omega (arith, grouped-all src fs (group_add g.fingerprint g gs), grouped-add g.fingerprint g gs)

filled-add : (fp : Text) (f : Finding) (gs : Groups) → AreFilled gs → AreFilled (group_add fp f gs)
unfolding group_add
filled-add fp f [] h = (omega arith, tt)
filled-add fp f ((k, fs) ∷ gs) h = elim (Bool-cases (text_eq k fp)) [
  | inl e ↦ rw e (omega (arith, length-append fs (f ∷ [])), h.1)
  | inr e ↦ rw e (h.0, filled-add fp f gs h.1)
]

filled-all :
    (src : Sources) (fs : List Finding) (gs : Groups)
    → AreFilled gs
    → AreFilled (group_all src fs gs)
unfolding group_all
filled-all src [] gs h = h
filled-all src (f ∷ fs) gs h =
    let g = stamp src f in
    filled-all src fs (group_add g.fingerprint g gs) (filled-add g.fingerprint g gs h)

represented-primary :
    (group s rest : List Finding)
    → length s ≡ length group
    → 0 < length group
    → represented (primary group s ++ rest) ≡ length group + represented rest
unfolding primary
represented-primary group [] rest e h = omega arith
represented-primary group (f ∷ fs) rest e h = omega arith

represented-primaries : (gs : Groups) → AreFilled gs → represented (primaries gs) ≡ grouped gs
unfolding primaries
represented-primaries [] h = refl
represented-primaries ((k, fs) ∷ gs) h = omega (
  arith,
  represented-primary fs (sort by_path fs) (primaries gs) (length-sort by_path fs) h.0,
  represented-primaries gs h.1,
)

-- No finding is lost and none is counted twice: the rows that remain, with the duplicates that each
-- of them counts, are as many as the findings that went in.
pub dedupe-represented :
    (src : Sources) (findings : List Finding) → represented (dedupe src findings) ≡ length findings
unfolding dedupe
dedupe-represented src findings = omega (
  arith,
  represented-primaries (group_all src findings []) (filled-all src findings [] tt),
  grouped-all src findings [],
)
