-- ===== src/Paths.antt =====
-- The selection of paths for the model pass (analysis/paths.py: `dedupe_paths`, `batch_paths`).
pub mod Longest
pub mod Batches
use graph_ingest_test.Prelude.{
  ℕ, zero, suc, List, [], ◌∷◌, ◌++◌, Option, none, some, Bool, true, false, ◌&&◌, ◌||◌, not, ◌==◌,
  ltb, leb, if◌then◌else◌, length, take, drop, Text, text_eq, text_leb, is_empty, update,
}
use graph_ingest_test.Prelude.Sorting.{sort}

-- A row of `sink_paths` or `leak_paths`: a missing text is empty, and missing hops are 0.
pub record Row : Type 0 where
  pub ids : List Text
  pub entry_fqn : Text
  pub sink_fqn : Text
  pub acquire_fqn : Text
  pub hops : ℕ

-- ids[0]
unfoldable pub first_id : List Text → Text
first_id [] = []
first_id (i ∷ is) = i

-- ids[-1]
unfoldable pub last_id : List Text → Text
last_id [] = []
last_id (i ∷ []) = i
last_id (i ∷ j ∷ is) = last_id (j ∷ is)

-- Two rows have the same key.
unfoldable pub same_ends : Row → Row → Bool
same_ends r s = text_eq (first_id r.ids) (first_id s.ids) && text_eq (last_id r.ids) (last_id s.ids)

-- The round of a row with ids. `best` is the list of the values of the dict: their ends are its keys.
unfoldable pub keep : Row → List Row → List Row
keep row [] = row ∷ []
keep row (prev ∷ best) =
    if same_ends prev row
    then (if ltb (length prev.ids) (length row.ids) then row else prev) ∷ best
    else prev ∷ keep row best

abbrev pub has_ids : Row → Bool
has_ids row = elim row.ids [ [] ↦ false | i ∷ is ↦ true ]

unfoldable pub collect : List Row → List Row → List Row
collect [] best = best
collect (row ∷ rows) best = collect rows (if has_ids row then keep row best else best)

abbrev pub by_hops : Row → Row → Bool
by_hops r s = if r.hops == s.hops then text_leb r.entry_fqn s.entry_fqn else ltb r.hops s.hops

unfoldable pub dedupe_paths : List Row → List Row
dedupe_paths rows = sort by_hops (collect rows [])

-- row.get("sink_fqn") or row.get("acquire_fqn") or ""
unfoldable pub sink_of : Row → Text
sink_of row = if is_empty row.sink_fqn then row.acquire_fqn else row.sink_fqn

abbrev pub append_row : Row → Option (List Row) → List Row
append_row row none = row ∷ []
append_row row (some rows) = rows ++ row ∷ []

unfoldable pub group_rows : List Row → List (Text × List Row) → List (Text × List Row)
unfolding update
group_rows [] by_sink = by_sink
group_rows (row ∷ rows) by_sink = group_rows rows (update (sink_of row) (append_row row) by_sink)

-- The slices from here on, by at most so many rounds of `range(0, len(group), per_batch)`.
unfoldable pub slices : ℕ → ℕ → List Row → List (List Row)
slices zero per_batch group = []
slices (suc rounds) per_batch [] = []
slices (suc rounds) per_batch (row ∷ group) =
    take per_batch (row ∷ group) ∷ slices rounds per_batch (drop per_batch (row ∷ group))

unfoldable pub batch_groups : ℕ → List (Text × List Row) → List (List Row)
batch_groups per_batch [] = []
batch_groups per_batch ((sink, group) ∷ groups) =
    slices (length group) per_batch group ++ batch_groups per_batch groups

-- `range` raises on a step of 0, where there is a group.
unfoldable pub batch_paths : List Row → ℕ → Option (List (List Row))
batch_paths [] zero = some []
batch_paths (row ∷ rows) zero = none
batch_paths rows (suc n) = some (batch_groups (suc n) (group_rows rows []))
