-- ===== src/Paths/Batches.antt =====
-- The batches of `batch_paths` (analysis/paths.py).
use mathlib.Core.Path.{subst}
use mathlib.Core.List.{Perm, perm_middle, append_assoc}
use mathlib.Core.List.Perm
use graph_ingest_test.Prelude.{
  ℕ, zero, suc, ◌≤◌, ◌<◌, ◌≡◌, refl, sym, ap, ◌∙◌, List, [], ◌∷◌, ◌++◌, append-nil, some, length,
  take, drop, length-drop, All, Text, text_eq, text_eq_iff, update, Bool-cases, inl, inr, arith,
}
use graph_ingest_test.Paths.{
  Row, sink_of, append_row, group_rows, slices, batch_groups, batch_paths,
}

abbrev pub together : List (List Row) → List Row
together [] = []
together (b ∷ ys) = b ++ together ys

-- A batch: at least one row, at most so many, and all with one sink.
pub record IsBatch (per_batch : ℕ) (rows : List Row) : Type 0 where
  pub filled : 0 < length rows
  pub bounded : length rows ≤ per_batch
  pub sink : Text
  pub one_sink : All (λ r. sink_of r ≡ sink) rows

abbrev grouped : List (Text × List Row) → List Row
grouped [] = []
grouped ((k, rows) ∷ groups) = rows ++ grouped groups

abbrev AreGroups : List (Text × List Row) → Type 0
AreGroups [] = Unit
AreGroups ((k, rows) ∷ groups) = All (λ r. sink_of r ≡ k) rows × AreGroups groups

-- The row goes to the end of a group: the same rows.
snoc-perm :
    (row : Row) (rows rest : List Row) → Perm ((rows ++ row ∷ []) ++ rest) (row ∷ rows ++ rest)
snoc-perm row rows rest = rw (append_assoc rows (row ∷ []) rest) (perm_middle rows rest)

grouped-update :
    (k : Text) (row : Row) (groups : List (Text × List Row))
    → Perm (grouped (update k (append_row row) groups)) (row ∷ grouped groups)
unfolding update
grouped-update k row [] = Perm.refl _
grouped-update k row ((j, rows) ∷ groups) = elim (Bool-cases (text_eq j k)) [
  | inl e ↦ rw e (snoc-perm row rows (grouped groups))
  | inr n ↦ rw n (
      Perm.trans (Perm.append_left rows (grouped-update k row groups))
        (perm_middle rows (grouped groups)))
]

grouped-rows :
    (rows : List Row) (groups : List (Text × List Row))
    → Perm (grouped (group_rows rows groups)) (rows ++ grouped groups)
unfolding group_rows
grouped-rows [] groups = Perm.refl _
grouped-rows (row ∷ rows) groups =
    Perm.trans (grouped-rows rows (update (sink_of row) (append_row row) groups)) (
      Perm.trans (Perm.append_left rows (grouped-update (sink_of row) row groups))
        (perm_middle rows (grouped groups)))

All-snoc :
    (P : Row → Type 0) (rows : List Row) (row : Row) → All P rows → P row → All P (rows ++ row ∷ [])
All-snoc P [] row h p = (p, tt)
All-snoc P (r ∷ rows) row h p = (h.0, All-snoc P rows row h.1 p)

update-AreGroups :
    (row : Row) (groups : List (Text × List Row))
    → AreGroups groups
    → AreGroups (update (sink_of row) (append_row row) groups)
unfolding update
update-AreGroups row [] h = ((refl, tt), tt)
update-AreGroups row ((j, rows) ∷ groups) h = elim (Bool-cases (text_eq j (sink_of row))) [
  | inl e ↦ rw e (All-snoc _ rows row h.0 (sym ((text_eq_iff j (sink_of row)).0 e)), h.1)
  | inr n ↦ rw n (h.0, update-AreGroups row groups h.1)
]

group_rows-AreGroups :
    (rows : List Row) (groups : List (Text × List Row))
    → AreGroups groups
    → AreGroups (group_rows rows groups)
unfolding group_rows
group_rows-AreGroups [] groups h = h
group_rows-AreGroups (row ∷ rows) groups h =
    group_rows-AreGroups rows _ (update-AreGroups row groups h)

together-append : (xs ys : List (List Row)) → together (xs ++ ys) ≡ together xs ++ together ys
together-append [] ys = refl
together-append (a ∷ xs) ys =
    ap (λ t. a ++ t) (together-append xs ys) ∙ sym (append_assoc a (together xs) (together ys))

take-drop : (n : ℕ) (rows : List Row) → take n rows ++ drop n rows ≡ rows
take-drop zero rows = refl
take-drop (suc n) [] = refl
take-drop (suc n) (r ∷ rows) = ap (λ t. r ∷ t) (take-drop n rows)

-- The slices of a group hold its rows in their order.
together-slices :
    (rounds n : ℕ) (group : List Row)
    → length group ≤ rounds
    → together (slices rounds (suc n) group) ≡ group
unfolding slices
together-slices zero n [] h = refl
together-slices zero n (r ∷ rows) h = absurd (omega arith)
together-slices (suc rounds) n [] h = refl
together-slices (suc rounds) n (r ∷ rows) h =
    ap (λ t. (r ∷ take n rows) ++ t)
      (together-slices rounds n (drop n rows) (omega (arith, length-drop n rows)))
    ∙ ap (λ t. r ∷ t) (take-drop n rows)

All-take : (P : Row → Type 0) (n : ℕ) (rows : List Row) → All P rows → All P (take n rows)
All-take P zero rows h = tt
All-take P (suc n) [] h = tt
All-take P (suc n) (r ∷ rows) h = (h.0, All-take P n rows h.1)

All-drop : (P : Row → Type 0) (n : ℕ) (rows : List Row) → All P rows → All P (drop n rows)
All-drop P zero rows h = h
All-drop P (suc n) [] h = tt
All-drop P (suc n) (r ∷ rows) h = All-drop P n rows h.1

length-take_le : (n : ℕ) (rows : List Row) → length (take n rows) ≤ n
length-take_le zero rows = omega arith
length-take_le (suc n) [] = omega arith
length-take_le (suc n) (r ∷ rows) = omega (arith, length-take_le n rows)

slices-AreBatches :
    (rounds n : ℕ) (group : List Row) (k : Text)
    → All (λ r. sink_of r ≡ k) group
    → All (IsBatch (suc n)) (slices rounds (suc n) group)
unfolding slices
slices-AreBatches zero n group k h = tt
slices-AreBatches (suc rounds) n [] k h = tt
slices-AreBatches (suc rounds) n (r ∷ rows) k h = (
  record {
    filled = omega arith;
    bounded = omega (arith, length-take_le n rows);
    sink = k;
    one_sink = (h.0, All-take _ n rows h.1);
  },
  slices-AreBatches rounds n (drop n rows) k (All-drop _ n rows h.1),
)

All-append :
    (P : List Row → Type 0) (xs ys : List (List Row)) → All P xs → All P ys → All P (xs ++ ys)
All-append P [] ys h k = k
All-append P (a ∷ xs) ys h k = (h.0, All-append P xs ys h.1 k)

batch_groups-lem :
    (n : ℕ) (groups : List (Text × List Row))
    → AreGroups groups
    → All (IsBatch (suc n)) (batch_groups (suc n) groups)
      × (together (batch_groups (suc n) groups) ≡ grouped groups)
unfolding batch_groups
batch_groups-lem n [] h = (tt, refl)
batch_groups-lem n ((k, rows) ∷ groups) h =
    let (batches, same) = batch_groups-lem n groups h.1 in
    (
      All-append _ (slices (length rows) (suc n) rows) _
          (slices-AreBatches (length rows) n rows k h.0) batches,
      together-append (slices (length rows) (suc n) rows) (batch_groups (suc n) groups)
          ∙ rw (together-slices (length rows) n rows (omega arith), same) refl,
    )

-- With a batch size above 0, `batch_paths` returns batches that hold just the given rows, each as
-- often as it was given, and every batch has a row at least, no more rows than the batch size, and
-- rows of one sink only.
pub batch_paths_lem :
    (rows : List Row) (per_batch : ℕ)
    → 0 < per_batch
    → (batches : List (List Row)) × (batch_paths rows per_batch ≡ some batches)
      × All (IsBatch per_batch) batches
      × Perm (together batches) rows
unfolding batch_paths
batch_paths_lem rows zero h = absurd (omega arith)
batch_paths_lem rows (suc n) h =
    let (batches, same) =
      batch_groups-lem n (group_rows rows []) (group_rows-AreGroups rows [] tt) in
    (
      batch_groups (suc n) (group_rows rows []),
      some_of rows,
      batches,
      rw same (
          subst (λ t. Perm (grouped (group_rows rows [])) t) (append-nil rows)
            (grouped-rows rows [])),
    )
  where
    some_of :
        (rs : List Row) → batch_paths rs (suc n) ≡ some (batch_groups (suc n) (group_rows rs []))
    some_of [] = refl
    some_of (r ∷ rs) = refl
