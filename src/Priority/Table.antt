-- ===== src/Priority/Table.antt =====
-- The severity table and the lists of names (analysis/priority.py).
use graph_ingest_test.Prelude.{
  ℕ, ◌≤◌, ◌≡◌, ◌∙◌, refl, ap, List, [], ◌∷◌, true, false, not, ◌&&◌, ◌||◌, any_of, map, Text, codes,
  text_eq, text_eq_iff, is_empty, lower, text_leb, text_leb_total, text_leb_trans, arith,
  Bool-cases, inl, inr,
}
use graph_ingest_test.Prelude.Sorting.{IsOrdered, sort-IsOrdered, any_of-sort}
use graph_ingest_test.Findings.Rank.{severity_order}
use graph_ingest_test.Priority.{
  Observation, row, table, severity, is_strong, distinct, sorted_set, bare_name, nonempty,
  bare_names,
}

pub data Impact : Type 0 where
  exposure integrity correctness quality : Impact

abbrev pub impact_name : Impact → Text
impact_name exposure = codes "exposure"
impact_name integrity = codes "integrity"
impact_name correctness = codes "correctness"
impact_name quality = codes "quality"

-- How the report orders a cell of the table; 0 is the most severe.
abbrev pub cell : Text → Impact → ℕ
cell certainty i = severity_order (severity certainty (impact_name i))

-- In every column of the table a defect that is only probable is no more severe than one that is
-- demonstrated, and one that is speculative no more than a probable one; each has a level.
pub severity-descends :
    (i : Impact)
    → (cell (codes "demonstrated") i ≤ cell (codes "probable") i)
      × (cell (codes "probable") i ≤ cell (codes "speculative") i)
      × (cell (codes "speculative") i ≤ 3)
unfolding severity table row severity_order
severity-descends exposure = (omega arith, omega arith, omega arith)
severity-descends integrity = (omega arith, omega arith, omega arith)
severity-descends correctness = (omega arith, omega arith, omega arith)
severity-descends quality = (omega arith, omega arith, omega arith)

-- A finding of the impact `quality`, in whatever case it is written, never counts as strong, however
-- certain it is.
pub is_strong-quality : (f : Observation) → lower f.impact ≡ codes "quality" → is_strong f ≡ false
unfolding is_strong severity table row
is_strong-quality f h = rw h (ground arith)

absorb :
    (n x : Text) (xs : List Text)
    → any_of (text_eq x) xs ≡ true
    → any_of (text_eq n) xs ≡ (text_eq n x || any_of (text_eq n) xs)
absorb n x xs e = elim (Bool-cases (text_eq n x)) [
  | inl same ↦ rw same (rw (← (text_eq_iff n x).0 same) at e)
  | inr differs ↦ rw differs refl
]

any_of-distinct :
    (n : Text) (xs : List Text) → any_of (text_eq n) (distinct xs) ≡ any_of (text_eq n) xs
unfolding distinct
any_of-distinct n [] = refl
any_of-distinct n (x ∷ xs) = elim (Bool-cases (any_of (text_eq x) xs)) [
  | inl e ↦ rw e (any_of-distinct n xs ∙ absorb n x xs e)
  | inr e ↦ rw e (ap (λ b. text_eq n x || b) (any_of-distinct n xs))
]

any_of-nonempty :
    (n : Text) (xs : List Text)
    → any_of (text_eq n) (nonempty xs) ≡ (not (is_empty n) && any_of (text_eq n) xs)
unfolding nonempty
any_of-nonempty [] [] = refl
any_of-nonempty (d ∷ n) [] = refl
any_of-nonempty [] ([] ∷ xs) = any_of-nonempty [] xs
any_of-nonempty (d ∷ n) ([] ∷ xs) = any_of-nonempty (d ∷ n) xs
any_of-nonempty [] ((c ∷ x) ∷ xs) = any_of-nonempty [] xs
any_of-nonempty (d ∷ n) ((c ∷ x) ∷ xs) =
    ap (λ b. text_eq (d ∷ n) (c ∷ x) || b) (any_of-nonempty (d ∷ n) xs)

any_of-map :
    (n : Text) (vs : List Text)
    → any_of (text_eq n) (map bare_name vs) ≡ any_of (λ v. text_eq n (bare_name v)) vs
any_of-map n [] = refl
any_of-map n (v ∷ vs) = ap (λ b. text_eq n (bare_name v) || b) (any_of-map n vs)

-- The names that are projected from a list of calls are in order, and a name is among them exactly
-- when it is not empty and some call has it as its bare name.
pub bare_names-IsOrdered :
    (values : List Text) (n : Text)
    → IsOrdered text_leb (bare_names values)
      × (any_of (text_eq n) (bare_names values)
          ≡ (not (is_empty n) && any_of (λ v. text_eq n (bare_name v)) values))
unfolding bare_names sorted_set
bare_names-IsOrdered values n = (
  sort-IsOrdered text_leb text_leb_total text_leb_trans _,
  any_of-sort text_leb (text_eq n) _
      ∙ any_of-distinct n _
      ∙ any_of-nonempty n _
      ∙ ap (λ b. not (is_empty n) && b) (any_of-map n values),
)
