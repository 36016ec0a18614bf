-- ===== src/Paths/Longest.antt =====
-- `dedupe_paths` keeps the longest row of each pair of ends (analysis/paths.py).
use mathlib.Core.List.{Memᴰ}
use mathlib.Core.List.Memᴰ
use mathlib.Core.Logic.{⊎_elim}
use graph_ingest_test.Prelude.{
  ℕ, ◌+◌, ◌≤◌, ◌<◌, ◌≡◌, refl, sym, ◌∙◌, List, [], ◌∷◌, Bool, true, false, ◌&&◌, ◌||◌, ◌==◌, ltb,
  leb, if◌then◌else◌, length, any_of, All, text_eq_iff, text_leb_total, text_leb_trans, Bool-cases,
  inl, inr, arith,
}
use graph_ingest_test.Prelude.Sorting.{
  insert, sort, IsOrdered, sort-IsOrdered, All-sort, any_of-sort,
}
use graph_ingest_test.Paths.{
  Row, first_id, last_id, same_ends, keep, has_ids, collect, by_hops, dedupe_paths,
}

same_ends_iff :
    (r s : Row)
    → (same_ends r s ≡ true → (first_id r.ids ≡ first_id s.ids) × (last_id r.ids ≡ last_id s.ids))
      × ((first_id r.ids ≡ first_id s.ids) → (last_id r.ids ≡ last_id s.ids) → same_ends r s ≡ true)
unfolding same_ends
same_ends_iff r s = (
  λ h. ground (
    arith,
    text_eq_iff (first_id r.ids) (first_id s.ids),
    text_eq_iff (last_id r.ids) (last_id s.ids),
  ),
  λ p q. ground (
    arith,
    text_eq_iff (first_id r.ids) (first_id s.ids),
    text_eq_iff (last_id r.ids) (last_id s.ids),
  ),
)

-- The row stands for the other one: the same ends, and at least as long.
pub stands_for : Row → Row → Bool
stands_for r s = same_ends r s && leb (length s.ids) (length r.ids)

-- The rows with the ends of a row.
pub with_ends : Row → List Row → ℕ
with_ends r [] = 0
with_ends r (s ∷ rows) = (if same_ends s r then 1 else 0) + with_ends r rows

same_ends_refl : (r : Row) → same_ends r r ≡ true
same_ends_refl r = (same_ends_iff r r).1 refl refl

same_ends-left : (r s q : Row) → same_ends r s ≡ true → same_ends r q ≡ same_ends s q
unfolding same_ends
same_ends-left r s q h = let (f, l) = (same_ends_iff r s).0 h in rw (f, l) refl

same_ends-right : (r s q : Row) → same_ends r s ≡ true → same_ends q r ≡ same_ends q s
unfolding same_ends
same_ends-right r s q h = let (f, l) = (same_ends_iff r s).0 h in rw (f, l) refl

with_ends-same :
    (r s : Row) (rows : List Row) → same_ends r s ≡ true → with_ends r rows ≡ with_ends s rows
unfolding with_ends
with_ends-same r s [] h = refl
with_ends-same r s (q ∷ rows) h = rw (same_ends-right r s q h, with_ends-same r s rows h) refl

-- The value of the key after the round of a row.
abbrev longer : Row → Row → Row
longer row prev = if ltb (length prev.ids) (length row.ids) then row else prev

same_ends-longer :
    (row prev q : Row)
    → same_ends prev row ≡ true
    → same_ends (longer row prev) q ≡ same_ends prev q
same_ends-longer row prev q h = elim (Bool-cases (ltb (length prev.ids) (length row.ids))) [
  | inl e ↦ rw e (sym (same_ends-left prev row q h))
  | inr n ↦ rw n refl
]

with_ends-keep :
    (q row : Row) (best : List Row)
    → (with_ends row best ≡ 0
        → with_ends q (keep row best) ≡ with_ends q best + (if same_ends row q then 1 else 0))
      × (0 < with_ends row best → with_ends q (keep row best) ≡ with_ends q best)
unfolding with_ends keep
with_ends-keep q row [] = (λ z. omega arith, λ p. absurd (omega arith))
with_ends-keep q row (prev ∷ best) = elim (Bool-cases (same_ends prev row)) [
  | inl e ↦ rw (e, same_ends-longer row prev q e) (λ z. absurd (omega arith), λ p. refl)
  | inr n ↦ rw n (
    λ z. omega (arith, (with_ends-keep q row best).0),
    λ p. omega (arith, (with_ends-keep q row best).1),
  )
]

keep-once :
    (row : Row) (best : List Row)
    → ((q : Row) → with_ends q best ≤ 1)
    → (q : Row) → with_ends q (keep row best) ≤ 1
keep-once row best h q = elim (Bool-cases (with_ends row best == 0)) [
  | inl z ↦ elim (Bool-cases (same_ends row q)) [
    | inl e ↦
        let k = (with_ends-keep q row best).0 (ground arith) in
        let s = with_ends-same row q best e in
        let v : with_ends row best ≡ 0 = ground arith in omega (arith, rw e at k, s, v)
    | inr n ↦ let k = (with_ends-keep q row best).0 (ground arith) in omega (arith, rw n at k, h q)
  ]
  | inr p ↦
      let v : 0 < with_ends row best = ground arith in
      omega (arith, (with_ends-keep q row best).1 v, h q)
]

abbrev covers : Row → List Row → Bool
covers r rows = any_of (λ p. stands_for p r) rows

stands_for-longer :
    (row prev r : Row)
    → same_ends prev row ≡ true
    → stands_for prev r ≡ true
    → stands_for (longer row prev) r ≡ true
unfolding stands_for
stands_for-longer row prev r e h = elim (Bool-cases (ltb (length prev.ids) (length row.ids))) [
  | inl l ↦ rw l (ground (arith, same_ends-left prev row r e))
  | inr n ↦ rw n h
]

covers-keep :
    (r row : Row) (best : List Row) → covers r best ≡ true → covers r (keep row best) ≡ true
unfolding keep
covers-keep r row [] h = cc
covers-keep r row (prev ∷ best) h = elim (Bool-cases (same_ends prev row)) [
  | inl e ↦ rw e (elim (Bool-cases (stands_for prev r)) [
    | inl s ↦ rw (stands_for-longer row prev r e s) refl
    | inr n ↦ or_true (stands_for (longer row prev) r) (rw n at h)
  ])
  | inr n ↦ rw n (elim (Bool-cases (stands_for prev r)) [
    | inl s ↦ rw s refl
    | inr m ↦ or_true (stands_for prev r) (covers-keep r row best (rw m at h))
  ])
]
  where
    or_true : (a : Bool) {b : Bool} → b ≡ true → a || b ≡ true
    or_true true e = refl
    or_true false e = e

keep-covers : (row : Row) (best : List Row) → covers row (keep row best) ≡ true
unfolding keep stands_for
keep-covers row [] = ground (arith, same_ends_refl row)
keep-covers row (prev ∷ best) = elim (Bool-cases (same_ends prev row)) [
  | inl e ↦ rw e (elim (Bool-cases (ltb (length prev.ids) (length row.ids))) [
    | inl l ↦ rw l (ground (arith, same_ends_refl row))
    | inr n ↦ rw n (ground arith)
  ])
  | inr n ↦ rw n (ground (arith, keep-covers row best))
]

collect-once :
    (rows best : List Row)
    → ((q : Row) → with_ends q best ≤ 1)
    → (q : Row) → with_ends q (collect rows best) ≤ 1
unfolding collect
collect-once [] best h q = h q
collect-once (row ∷ rows) best h q = elim (Bool-cases (has_ids row)) [
  | inl e ↦ rw e (collect-once rows (keep row best) (keep-once row best h) q)
  | inr n ↦ rw n (collect-once rows best h q)
]

covers-collect :
    (r : Row) (rows best : List Row) → covers r best ≡ true → covers r (collect rows best) ≡ true
unfolding collect
covers-collect r [] best h = h
covers-collect r (row ∷ rows) best h = elim (Bool-cases (has_ids row)) [
  | inl e ↦ rw e (covers-collect r rows (keep row best) (covers-keep r row best h))
  | inr n ↦ rw n (covers-collect r rows best h)
]

collect-covers :
    (r : Row) (rows best : List Row)
    → Memᴰ r rows
    → has_ids r ≡ true
    → covers r (collect rows best) ≡ true
unfolding collect
collect-covers r [] best m i = absurd (Memᴰ.not-nil m)
collect-covers r (row ∷ rows) best m i =
    ⊎_elim (λ e. here e) (λ t. collect-covers r rows _ t i) (Memᴰ.cases_cons m)
  where
    here : r ≡ row → covers r (collect rows (if has_ids row then keep row best else best)) ≡ true
    here e = rw (← e, i) (covers-collect r rows (keep r best) (keep-covers r best))

module _ (P : Row → Type 0) where
  keep-All : (row : Row) (best : List Row) → P row → All P best → All P (keep row best)
  unfolding keep
  keep-All row [] p h = (p, tt)
  keep-All row (prev ∷ best) p h = elim (Bool-cases (same_ends prev row)) [
    | inl e ↦ rw e (one (ltb (length prev.ids) (length row.ids)), h.1)
    | inr n ↦ rw n (h.0, keep-All row best p h.1)
  ]
    where
      one : (b : Bool) → P (if b then row else prev)
      one true = p
      one false = h.0

  collect-All :
      (rows best : List Row)
      → ((r : Row) → Memᴰ r rows → has_ids r ≡ true → P r)
      → All P best
      → All P (collect rows best)
  unfolding collect
  collect-All [] best h k = k
  collect-All (row ∷ rows) best h k = elim (Bool-cases (has_ids row)) [
    | inl e ↦ rw e (
        collect-All rows (keep row best) (λ r m. h r (Memᴰ.tail m))
          (keep-All row best (h row (Memᴰ.head refl) e) k))
    | inr n ↦ rw n (collect-All rows best (λ r m. h r (Memᴰ.tail m)) k)
  ]

with_ends-insert :
    (q r : Row) (rows : List Row)
    → with_ends q (insert by_hops r rows) ≡ (if same_ends r q then 1 else 0) + with_ends q rows
unfolding with_ends insert
with_ends-insert q r [] = refl
with_ends-insert q r (s ∷ rows) = elim (Bool-cases (by_hops r s)) [
  | inl e ↦ rw e refl
  | inr n ↦ rw n (omega (arith, with_ends-insert q r rows))
]

with_ends-sort : (q : Row) (rows : List Row) → with_ends q (sort by_hops rows) ≡ with_ends q rows
unfolding with_ends sort
with_ends-sort q [] = refl
with_ends-sort q (r ∷ rows) =
    omega (arith, with_ends-insert q r (sort by_hops rows), with_ends-sort q rows)

by_hops_total : (r s : Row) → by_hops r s ≡ false → by_hops s r ≡ true
by_hops_total r s h = ground (arith, text_leb_total r.entry_fqn s.entry_fqn)

by_hops_trans : (r s t : Row) → by_hops r s ≡ true → by_hops s t ≡ true → by_hops r t ≡ true
by_hops_trans r s t h k = ground (arith, text_leb_trans r.entry_fqn s.entry_fqn t.entry_fqn)

-- What is left of the rows of a query.
pub record Selected (rows kept : List Row) : Type 0 where
  pub given : All (λ p. Memᴰ p rows × (has_ids p ≡ true)) kept
  pub covered :
      (r : Row) → Memᴰ r rows → has_ids r ≡ true → any_of (λ p. stands_for p r) kept ≡ true
  pub once : (r : Row) → with_ends r kept ≤ 1
  pub ordered : IsOrdered by_hops kept

-- The rows that are kept are rows that were given; each given row with ids has a kept row with the
-- same first and last function that is at least as long; no two kept rows share both ends; and the
-- kept rows stand in the order of their hops, then of the name of the entry. So paths from one
-- entry to one sink are one row, but a path that starts later on a longer kept path to the same sink
-- has other ends and keeps a row of its own.
pub dedupe_paths_lem : (rows : List Row) → Selected rows (dedupe_paths rows)
unfolding dedupe_paths with_ends
dedupe_paths_lem rows = record {
  given = All-sort by_hops _ (collect rows []) (collect-All _ rows [] (λ r m i. (m, i)) tt);
  covered = λ r m i.
      any_of-sort by_hops (λ p. stands_for p r) (collect rows []) ∙ collect-covers r rows [] m i;
  once = λ r. rw with_ends-sort (collect-once rows [] (λ q. omega arith) r);
  ordered = sort-IsOrdered by_hops by_hops_total by_hops_trans (collect rows []);
}
