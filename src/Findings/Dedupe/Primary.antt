-- ===== src/Findings/Dedupe/Primary.antt =====
-- Which finding of a group remains (analysis/findings.py, `dedupe`).
use graph_ingest_test.Prelude.{
  suc, ◌≤◌, ◌≡◌, refl, sym, List, [], ◌∷◌, ◌++◌, Bool, true, false, ◌||◌, if◌then◌else◌, length,
  Text, text_eq, text_eq_iff, arith, All, Bool-cases, inl, inr, true-false, append-nil,
  append_assoc, leb→le,
}
use mathlib.Core.List.{Memᴰ}
use mathlib.Core.List.Memᴰ
use mathlib.Core.Logic.{⊎_elim}
use graph_ingest_test.Prelude.Sorting.{sort, length-sort, All-sort, All-sort-back, sort-IsOrdered}
use graph_ingest_test.Findings.{Finding, Sources}
use graph_ingest_test.Findings.Dedupe.{
  Groups, stamp, group_add, group_all, by_path, primary, primaries, dedupe,
}

abbrev group_of : Text → Groups → List Finding
group_of k [] = []
group_of k ((j, fs) ∷ gs) = if text_eq j k then fs else group_of k gs

abbrev has_key : Text → Groups → Bool
has_key k [] = false
has_key k ((j, fs) ∷ gs) = text_eq j k || has_key k gs

-- The findings with a fingerprint, in the order in which they came.
abbrev pub with_fingerprint : Sources → Text → List Finding → List Finding
with_fingerprint src k [] = []
with_fingerprint src k (f ∷ fs) =
    if text_eq (stamp src f).fingerprint k
    then stamp src f ∷ with_fingerprint src k fs
    else with_fingerprint src k fs

-- Each key once, over findings with this fingerprint.
abbrev AreKeyed : Groups → Type 0
AreKeyed [] = Unit
AreKeyed ((k, fs) ∷ gs) = (has_key k gs ≡ false) × All (λ f. f.fingerprint ≡ k) fs × AreKeyed gs

group_of-add :
    (k : Text) (f : Finding) (gs : Groups)
    → group_of k (group_add f.fingerprint f gs)
      ≡ (if text_eq f.fingerprint k then group_of k gs ++ f ∷ [] else group_of k gs)
unfolding group_add
group_of-add k f [] = ground arith
group_of-add k f ((j, fs) ∷ gs) = ground (
  arith,
  text_eq_iff j k,
  text_eq_iff j f.fingerprint,
  text_eq_iff f.fingerprint k,
  group_of-add k f gs,
)

group_of-all :
    (src : Sources) (k : Text) (fs : List Finding) (gs : Groups)
    → group_of k (group_all src fs gs) ≡ group_of k gs ++ with_fingerprint src k fs
unfolding group_all
group_of-all src k [] gs = sym (append-nil _)
group_of-all src k (f ∷ fs) gs =
    let g = stamp src f in
    elim (Bool-cases (text_eq g.fingerprint k)) [
      | inl e ↦
          rw
            (
              group_of-all src k fs (group_add g.fingerprint g gs),
              group_of-add k g gs,
              e,
              append_assoc,
            )
            refl
      | inr e ↦
          rw (group_of-all src k fs (group_add g.fingerprint g gs), group_of-add k g gs, e) refl
    ]

has_key-add :
    (k : Text) (f : Finding) (gs : Groups)
    → has_key k (group_add f.fingerprint f gs) ≡ (has_key k gs || text_eq f.fingerprint k)
unfolding group_add
has_key-add k f [] = ground arith
has_key-add k f ((j, fs) ∷ gs) = ground (
  arith,
  text_eq_iff j k,
  text_eq_iff j f.fingerprint,
  text_eq_iff f.fingerprint k,
  has_key-add k f gs,
)

All-append : (P : Finding → Type 0) (fs gs : List Finding) → All P fs → All P gs → All P (fs ++ gs)
All-append P [] gs h k = k
All-append P (f ∷ fs) gs h k = (h.0, All-append P fs gs h.1 k)

keyed-add : (f : Finding) (gs : Groups) → AreKeyed gs → AreKeyed (group_add f.fingerprint f gs)
unfolding group_add
keyed-add f [] h = (refl, (refl, tt), tt)
keyed-add f ((k, fs) ∷ gs) h = elim (Bool-cases (text_eq k f.fingerprint)) [
  | inl e ↦
      rw e (h.0, All-append _ fs (f ∷ []) h.1 (sym ((text_eq_iff k f.fingerprint).0 e), tt), h.2)
  | inr e ↦ rw e (
    ground
        (arith, has_key-add k f gs, text_eq_iff k f.fingerprint, text_eq_iff f.fingerprint k, h.0),
    h.1,
    keyed-add f gs h.2,
  )
]

keyed-all :
    (src : Sources) (fs : List Finding) (gs : Groups) → AreKeyed gs → AreKeyed (group_all src fs gs)
unfolding group_all
keyed-all src [] gs h = h
keyed-all src (f ∷ fs) gs h =
    keyed-all src fs (group_add (stamp src f).fingerprint (stamp src f) gs)
      (keyed-add (stamp src f) gs h)

-- A row that stands for a group: it has the group's key, its path is no longer than any of the
-- group, and it counts the others.
record IsPrimary (k : Text) (group : List Finding) (p : Finding) : Type 0 where
  pub keyed : p.fingerprint ≡ k
  pub shortest : All (λ f. length p.path_ids ≤ length f.path_ids) group
  pub counted : suc p.duplicate_paths ≡ length group

by_path_total : (f g : Finding) → by_path f g ≡ false → by_path g f ≡ true
by_path_total f g h = ground arith

by_path_trans : (f g h : Finding) → by_path f g ≡ true → by_path g h ≡ true → by_path f h ≡ true
by_path_trans f g h a b = ground arith

All-by_path :
    (f : Finding) (fs : List Finding)
    → All (λ g. by_path f g ≡ true) fs
    → All (λ g. length f.path_ids ≤ length g.path_ids) fs
All-by_path f [] h = tt
All-by_path f (g ∷ fs) h = (leb→le _ _ h.0, All-by_path f fs h.1)

primary-IsPrimary :
    (k : Text) (group s : List Finding) (p : Finding)
    → sort by_path group ≡ s
    → All (λ f. f.fingerprint ≡ k) group
    → Memᴰ p (primary group s)
    → IsPrimary k group p
unfolding primary
primary-IsPrimary k group [] p e h m = absurd (Memᴰ.not-nil m)
primary-IsPrimary k group (f ∷ fs) p e h m =
    let is_first = Memᴰ.eq_of_singleton m in
    let ordered = rw e at (sort-IsOrdered by_path by_path_total by_path_trans group) in
    let keys = rw e at (All-sort by_path (λ g. g.fingerprint ≡ k) group h) in
    let size = rw e at (length-sort by_path group) in
    record {
      keyed = rw is_first keys.0;
      shortest = rw is_first (
          All-sort-back by_path (λ g. length f.path_ids ≤ length g.path_ids) group
            (rw e (omega arith, All-by_path f fs ordered.0)));
      counted = rw is_first (omega (arith, size));
    }

skip_other :
    (k j : Text) (fs : List Finding) (gs : Groups)
    → has_key k gs ≡ false
    → has_key j gs ≡ true
    → group_of j ((k, fs) ∷ gs) ≡ group_of j gs
skip_other k j fs gs h there = elim (Bool-cases (text_eq k j)) [
  | inl e ↦ absurd (true-false there (rw ((text_eq_iff k j).0 e) at h))
  | inr e ↦ rw e refl
]

-- Every row stands for the group of its own fingerprint.
primaries-IsPrimary :
    (gs : Groups) (p : Finding)
    → AreKeyed gs
    → Memᴰ p (primaries gs)
    → IsPrimary p.fingerprint (group_of p.fingerprint gs) p × (has_key p.fingerprint gs ≡ true)
unfolding primaries
primaries-IsPrimary [] p h m = absurd (Memᴰ.not-nil m)
primaries-IsPrimary ((k, fs) ∷ gs) p h m =
    ⊎_elim
      (λ here.
        let one = primary-IsPrimary k fs (sort by_path fs) p refl h.1 here in
        let same = (text_eq_iff k p.fingerprint).1 (sym one.keyed) in
        (
          rw (same, group_of)
              (record { keyed = refl; shortest = one.shortest; counted = one.counted }),
          rw (same, has_key) refl,
        ))
      (λ there.
        let (one, key) = primaries-IsPrimary gs p h.2 there in
        (rw (skip_other k p.fingerprint fs gs h.0 key) one, or_true (text_eq k p.fingerprint) key))
      (Memᴰ.append_cases (primary fs (sort by_path fs)) m)
  where
    or_true : (a : Bool) {b : Bool} → b ≡ true → a || b ≡ true
    or_true true e = refl
    or_true false e = e

-- Each row of the deduplicated report stands for all findings with its fingerprint: none of them
-- has a shorter path, and the row counts the others.
pub dedupe-IsPrimary :
    (src : Sources) (findings : List Finding) (p : Finding)
    → Memᴰ p (dedupe src findings)
    → All (λ f. length p.path_ids ≤ length f.path_ids) (with_fingerprint src p.fingerprint findings)
      × (suc p.duplicate_paths ≡ length (with_fingerprint src p.fingerprint findings))
unfolding dedupe
dedupe-IsPrimary src findings p m =
    let (one, key) =
      primaries-IsPrimary (group_all src findings []) p (keyed-all src findings [] tt) m in
    let group = group_of-all src p.fingerprint findings [] in
    (rw group at one.shortest, rw group at one.counted)
