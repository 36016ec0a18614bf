-- ===== src/Validator.antt =====
-- graph_core/validator.py: running edge statistics and the validation of a graph. An error or a
-- warning is a value with the numbers of its message; what is only logged is left out.
pub mod Counting
pub mod Verdict
use graph_ingest_test.Prelude.{
  ℕ, zero, suc, ◌+◌, ◌-◌, List, [], ◌∷◌, ◌++◌, Bool, true, false, not, ◌&&◌, ◌||◌, if◌then◌else◌,
  ◌==◌, ltb, any_of, length, Text, codes, text_eq,
}

pub record Edge : Type 0 where
  pub type : Text
  pub src : Text
  pub dst : Text

-- The fields of `Node` that the validation reads. A line of 0 is not set.
pub record Node : Type 0 where
  pub id : Text
  pub label : Text
  pub start_line : ℕ
  pub end_line : ℕ

abbrev pub Counts : Type 0
Counts = List (Text × ℕ)

-- rel_counts[rel]
pub count_of : Text → Counts → ℕ
count_of rel [] = 0
count_of rel ((r, n) ∷ cs) = if text_eq r rel then n else count_of rel cs

-- rel_counts[rel] += n, of a defaultdict
pub bump : Text → ℕ → Counts → Counts
bump rel n [] = (rel, n) ∷ []
bump rel n ((r, m) ∷ cs) = if text_eq r rel then (r, m + n) ∷ cs else (r, m) ∷ bump rel n cs

pub record EdgeStats : Type 0 where
  pub rel_counts : Counts
  pub dangling : ℕ
  pub total : ℕ

abbrev pub empty_stats : EdgeStats
empty_stats = record { rel_counts = []; dangling = 0; total = 0 }

abbrev pub has_id : List Text → Text → Bool
has_id node_ids i = any_of (text_eq i) node_ids

-- `e.src not in node_ids or e.dst not in node_ids`
pub is_dangling : List Text → Edge → Bool
is_dangling node_ids e = not (has_id node_ids e.src) || not (has_id node_ids e.dst)

pub add_edge : List Text → EdgeStats → Edge → EdgeStats
add_edge node_ids s e = record {
  rel_counts = bump e.type 1 s.rel_counts;
  dangling = (if is_dangling node_ids e then suc s.dangling else s.dangling);
  total = suc s.total;
}

-- EdgeStats.add
pub add : EdgeStats → List Edge → List Text → EdgeStats
add s [] node_ids = s
add s (e ∷ es) node_ids = add (add_edge node_ids s e) es node_ids

-- EdgeStats.add_count: `if n:`
pub add_count : EdgeStats → Text → ℕ → EdgeStats
add_count s edge_type n =
    if n == 0
    then s
    else record s { rel_counts = bump edge_type n s.rel_counts; total = s.total + n }

-- EdgeStats.reset
pub reset : EdgeStats → EdgeStats
reset s = empty_stats

pub data GraphError : Type 0 where
  -- the duplicated ids and the redundant nodes
  duplicate_ids : ℕ → ℕ → GraphError
  dangling_edges : ℕ → GraphError
  invalid_ranges : ℕ → GraphError

pub record Stats : Type 0 where
  pub nodes : ℕ
  pub edges : ℕ
  pub functions : ℕ
  pub dangling_edges : ℕ
  pub invalid_ranges : ℕ
  pub relations : Counts

pub record Report : Type 0 where
  pub ok : Bool
  pub errors : List GraphError
  pub warnings : List Text
  pub stats : Stats

abbrev pub ids_of : List Node → List Text
ids_of [] = []
ids_of (n ∷ ns) = n.id ∷ ids_of ns

-- set(ids): each id once.
pub distinct : List Text → List Text
distinct [] = []
distinct (i ∷ ids) = let rest = distinct ids in if has_id ids i then rest else i ∷ rest

-- How often an id stands in the list.
pub occurrences : Text → List Text → ℕ
occurrences i [] = 0
occurrences i (j ∷ ids) = if text_eq i j then suc (occurrences i ids) else occurrences i ids

-- `{i: c for i, c in Counter(ids).items() if c > 1}`, the keys.
pub repeated : List Text → List Text → List Text
repeated ids [] = []
repeated ids (i ∷ is) =
    let rest = repeated ids is in if ltb 1 (occurrences i ids) then i ∷ rest else rest

-- `n.start_line and n.end_line and n.end_line < n.start_line`
pub is_bad_range : Node → Bool
is_bad_range n = not (n.start_line == 0) && not (n.end_line == 0) && ltb n.end_line n.start_line

pub bad_ranges : List Node → ℕ
bad_ranges [] = 0
bad_ranges (n ∷ ns) = if is_bad_range n then suc (bad_ranges ns) else bad_ranges ns

pub function_count : List Node → ℕ
function_count [] = 0
function_count (n ∷ ns) =
    if text_eq n.label (codes "Function") then suc (function_count ns) else function_count ns

pub duplicate_errors : List Text → List GraphError
duplicate_errors ids =
    let unique = distinct ids in
    if length ids == length unique
    then []
    else duplicate_ids (length (repeated ids unique)) (length ids - length unique) ∷ []

pub dangling_errors : ℕ → List GraphError
dangling_errors n = if n == 0 then [] else GraphError.dangling_edges n ∷ []

pub range_errors : ℕ → List GraphError
range_errors n = if n == 0 then [] else GraphError.invalid_ranges n ∷ []

-- `sorted(REQUIRED_RELATIONS)`
abbrev pub required_relations : List Text
required_relations = codes "CALLS" ∷ codes "CONTAINS" ∷ []

pub missing_relations : Counts → List Text → List Text
missing_relations counts [] = []
missing_relations counts (rel ∷ rels) =
    let rest = missing_relations counts rels in
    if count_of rel counts == 0 then rel ∷ rest else rest

abbrev pub no_errors : List GraphError → Bool
no_errors [] = true
no_errors (e ∷ es) = false

abbrev pub errors_of : List Node → EdgeStats → List GraphError
errors_of nodes s =
    duplicate_errors (ids_of nodes)
    ++ (dangling_errors s.dangling ++ range_errors (bad_ranges nodes))

pub validate_graph : List Node → EdgeStats → Report
validate_graph nodes s = record {
  ok = no_errors (errors_of nodes s);
  errors = errors_of nodes s;
  warnings = missing_relations s.rel_counts required_relations;
  stats = record {
    nodes = length nodes;
    edges = s.total;
    functions = function_count nodes;
    dangling_edges = s.dangling;
    invalid_ranges = bad_ranges nodes;
    relations = s.rel_counts;
  };
}
