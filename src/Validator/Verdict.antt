-- ===== src/Validator/Verdict.antt =====
-- When graph_core/validator.py finds a graph in order.
use graph_ingest_test.Prelude.{
  ℕ, ◌≤◌, ◌≡◌, ◌≢◌, refl, List, [], ◌∷◌, ◌++◌, true, false, ◌↔◌, length, Text, arith, All,
  Bool-cases, inl, inr,
}
use graph_ingest_test.Validator.{
  Node, EdgeStats, has_id, ids_of, distinct, bad_ranges, is_bad_range, duplicate_errors,
  dangling_errors, range_errors, no_errors, validate_graph,
}

-- No id stands twice in the list.
abbrev pub AreDistinct : List Text → Type 0
AreDistinct [] = Unit
AreDistinct (i ∷ ids) = (has_id ids i ≡ false) × AreDistinct ids

-- A range that is set does not end before it starts.
abbrev pub HasRange : Node → Type 0
HasRange n = n.start_line ≢ 0 → n.end_line ≢ 0 → n.start_line ≤ n.end_line

length-distinct : (ids : List Text) → length (distinct ids) ≤ length ids
unfolding distinct
length-distinct [] = omega arith
length-distinct (i ∷ ids) = ground (arith, length-distinct ids)

distinct_full : (ids : List Text) → length ids ≡ length (distinct ids) → AreDistinct ids
unfolding distinct
distinct_full [] h = tt
distinct_full (i ∷ ids) h = elim (Bool-cases (has_id ids i)) [
  | inl again ↦ absurd (omega (arith, length-distinct ids, rw (again, distinct) at h))
  | inr once ↦ (once, distinct_full ids (omega (arith, rw (once, distinct) at h)))
]

full_distinct : (ids : List Text) → AreDistinct ids → length ids ≡ length (distinct ids)
unfolding distinct
full_distinct [] h = refl
full_distinct (i ∷ ids) h = rw (h.0, distinct) (omega (arith, full_distinct ids h.1))

good_range : (n : Node) → is_bad_range n ≡ false → HasRange n
unfolding is_bad_range
good_range n h a b = ground arith

range_good : (n : Node) → HasRange n → is_bad_range n ≡ false
unfolding is_bad_range
range_good n h = ground arith

bad_ranges-zero : (ns : List Node) → bad_ranges ns ≡ 0 → All HasRange ns
unfolding bad_ranges
bad_ranges-zero [] h = tt
bad_ranges-zero (n ∷ ns) h = elim (Bool-cases (is_bad_range n)) [
  | inl bad ↦ absurd (omega (arith, rw (bad, bad_ranges) at h))
  | inr good ↦ (good_range n good, bad_ranges-zero ns (rw (good, bad_ranges) at h))
]

zero-bad_ranges : (ns : List Node) → All HasRange ns → bad_ranges ns ≡ 0
unfolding bad_ranges
zero-bad_ranges [] h = refl
zero-bad_ranges (n ∷ ns) h = rw (range_good n h.0, bad_ranges) (zero-bad_ranges ns h.1)

-- No error is listed exactly when the three numbers behind them are in order.
no_errors_iff :
    (ids : List Text) (d b : ℕ)
    → (no_errors (duplicate_errors ids ++ (dangling_errors d ++ range_errors b)) ≡ true)
      ↔ ((length ids ≡ length (distinct ids)) × (d ≡ 0) × (b ≡ 0))
unfolding duplicate_errors dangling_errors range_errors
no_errors_iff ids d b = ((λ h. ground arith), (λ h. ground arith))

-- A graph is in order exactly when its node ids are distinct, no edge that was counted dangles, and
-- every range that is set ends no earlier than it starts.
pub validate_graph_ok :
    (nodes : List Node) (s : EdgeStats)
    → ((validate_graph nodes s).ok ≡ true)
      ↔ (AreDistinct (ids_of nodes) × (s.dangling ≡ 0) × All HasRange nodes)
unfolding validate_graph
validate_graph_ok nodes s =
    let iff = no_errors_iff (ids_of nodes) s.dangling (bad_ranges nodes) in
    (
      (λ h. (
        distinct_full (ids_of nodes) (iff.0 h).0,
        (iff.0 h).1,
        bad_ranges-zero nodes (iff.0 h).2,
      )),
      (λ h. iff.1 (full_distinct (ids_of nodes) h.0, h.1, zero-bad_ranges nodes h.2)),
    )
