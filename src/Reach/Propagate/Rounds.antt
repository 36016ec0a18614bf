-- ===== src/Reach/Propagate/Rounds.antt =====
-- When the fixpoint loop of analysis/reach.py has converged, and after how many rounds it does.
use graph_ingest_test.Prelude.{
  ℕ, zero, suc, ◌+◌, ◌<◌, ◌≡◌, refl, List, [], ◌∷◌, Bool, true, false, not, ◌&&◌, if◌then◌else◌,
  ◌==◌, map, Text, text_eq, text_eq_refl, arith, Bool-cases, inl, inr, Memᴰ-any_of, ==_iff,
}
use mathlib.Core.Path.{subst}
use mathlib.Core.Logic.{⊎_elim}
use mathlib.Core.List.{Memᴰ}
use mathlib.Core.List.Memᴰ
use graph_ingest_test.Reach.Propagate.{
  Marking, Arc, marked_id, is_new, step, count_new, newly, loop,
}
use graph_ingest_test.Reach.Propagate.Exact.{
  Reached, seed, hop, and_true, marked_of, there_node, after, marked_id-step, step-seed,
  Reached-step, step-Reached,
}

positive : (n : ℕ) → n == 0 ≡ false → 0 < n
positive n h = ground arith

module _ {F : Type 0} (M : Marking F) where
  open M use {id, marked, mark, marked-mark}

  -- The nodes without the mark.
  abbrev pub unmarked : List F → ℕ
  unmarked [] = 0
  unmarked (f ∷ fs) = (if marked f then 0 else 1) + unmarked fs

  module _ (arcs : List Arc) where
    none_new :
        (fs rest : List F) (f : F)
        → count_new M arcs fs rest ≡ 0
        → Memᴰ f rest
        → is_new M arcs fs f ≡ false
    unfolding count_new
    none_new fs [] f h m = absurd (Memᴰ.not-nil m)
    none_new fs (g ∷ rest) f h m = elim (Bool-cases (is_new M arcs fs g)) [
      | inl new ↦ absurd (omega (arith, rw (new, count_new) at h))
      | inr old ↦
          ⊎_elim (λ e. rw e old) (λ t. none_new fs rest f (rw (old, count_new) at h) t)
            (Memᴰ.cases_cons m)
    ]

    -- Where a round sets no mark, all that can be reached is marked.
    closed :
        (fs : List F)
        → newly M arcs fs ≡ 0
        → (i : Text) → Reached M arcs fs i
        → marked_id M fs i ≡ true
    closed fs h i (seed m) = m
    closed fs h i (hop {i = j} r at there) =
        let from = closed fs h j r in
        let (f, m, e) = there_node M fs i there in
        elim (Bool-cases (marked f)) [
          | inl mk ↦ subst (λ k. marked_id M fs k ≡ true) e (marked_of M fs f m mk)
          | inr un ↦ absurd (
              clash (is_new M arcs fs f) (none_new fs fs f (unfold newly in h) m)
                (must_be_new fs f j i un at e from))
        ]
      where
        clash : (b : Bool) → b ≡ false → b ≡ true → ⊥
        clash b p q = cc

        must_be_new :
            (fs : List F) (f : F) (j i : Text)
            → marked f ≡ false
            → Memᴰ (j, i) arcs
            → id f ≡ i
            → marked_id M fs j ≡ true
            → is_new M arcs fs f ≡ true
        must_be_new fs f j i un at e from =
            unfold is_new in
            rw un (
              Memᴰ-any_of (λ arc. text_eq arc.1 (id f) && marked_id M fs arc.0) arcs (j, i) at
                (rw (e, text_eq_refl i, from) refl))

    pub loop-to :
        (left : ℕ) (fs : List F) (n total : ℕ) (i : Text)
        → marked_id M (loop M arcs left fs n total).nodes i ≡ true
        → Reached M arcs fs i
    unfolding loop
    loop-to zero fs n total i h = seed h
    loop-to (suc left) fs n total i h = elim (Bool-cases (newly M arcs fs == 0)) [
      | inl done ↦ step-seed M arcs fs i (rw (done, loop) at h)
      | inr more ↦
          step-Reached M arcs fs i (
            loop-to left (step M arcs fs) (suc n) (total + newly M arcs fs) i
              (rw (more, loop) at h))
    ]

    pub loop-from :
        (left : ℕ) (fs : List F) (n total : ℕ) (i : Text)
        → (loop M arcs left fs n total).converged ≡ true
        → Reached M arcs fs i
        → marked_id M (loop M arcs left fs n total).nodes i ≡ true
    unfolding loop
    loop-from zero fs n total i c r = cc
    loop-from (suc left) fs n total i c r = elim (Bool-cases (newly M arcs fs == 0)) [
      | inl done ↦
          rw (done, loop) (marked_id-step M arcs fs i (closed fs ((==_iff _ 0).0 done) i r))
      | inr more ↦
          rw (more, loop)
            (loop-from left (step M arcs fs) (suc n) (total + newly M arcs fs) i
              (rw (more, loop) at c) (Reached-step M arcs fs i r))
    ]

    unmarked-map :
        (fs rest : List F)
        → unmarked (map (after M arcs fs) rest) + count_new M arcs fs rest ≡ unmarked rest
    unfolding count_new
    unmarked-map fs [] = omega arith
    unmarked-map fs (f ∷ rest) = elim (Bool-cases (is_new M arcs fs f)) [
      | inl new ↦
          rw (new, marked-mark f, marked_not f new, count_new) (omega (arith, unmarked-map fs rest))
      | inr old ↦ rw (old, count_new) (omega (arith, unmarked-map fs rest))
    ]
      where
        marked_not : (f : F) → is_new M arcs fs f ≡ true → marked f ≡ false
        marked_not f h = unfold is_new in (ground (arith, (and_true (not (marked f)) _ h).0))

    unmarked-step : (fs : List F) → unmarked (step M arcs fs) + newly M arcs fs ≡ unmarked fs
    unfolding step newly
    unmarked-step fs = unmarked-map fs fs

    -- Every mark that the rounds set is counted.
    pub loop_counts :
        (left : ℕ) (fs : List F) (n total : ℕ)
        → unmarked (loop M arcs left fs n total).nodes + (loop M arcs left fs n total).propagated
          ≡ unmarked fs + total
    unfolding loop
    loop_counts zero fs n total = refl
    loop_counts (suc left) fs n total = elim (Bool-cases (newly M arcs fs == 0)) [
      | inl done ↦ rw (done, loop) (omega (arith, unmarked-step fs))
      | inr more ↦
          rw (more, loop)
            (omega (
              arith,
              unmarked-step fs,
              loop_counts left (step M arcs fs) (suc n) (total + newly M arcs fs),
            ))
    ]

    -- Each round before the last sets a mark at least, so the rounds are fewer than the nodes.
    pub loop_converges :
        (left : ℕ) (fs : List F) (n total : ℕ)
        → unmarked fs < left
        → (loop M arcs left fs n total).converged ≡ true
    unfolding loop
    loop_converges zero fs n total h = elim h [ ]
    loop_converges (suc left) fs n total h = elim (Bool-cases (newly M arcs fs == 0)) [
      | inl done ↦ rw (done, loop) refl
      | inr more ↦
          rw (more, loop)
            (loop_converges left (step M arcs fs) (suc n) (total + newly M arcs fs)
              (omega (arith, unmarked-step fs, positive _ more)))
    ]
