-- ===== src/Validator/Counting.antt =====
-- The running edge statistics of graph_core/validator.py count what a scan of all edges would.
use graph_ingest_test.Prelude.{
  ℕ, ◌+◌, ◌≡◌, refl, List, [], ◌∷◌, ◌++◌, if◌then◌else◌, length, Text, text_eq, text_eq_iff, arith,
  All, length-append,
}
use graph_ingest_test.Validator.{
  Edge, Counts, count_of, bump, EdgeStats, has_id, is_dangling, add_edge, add, add_count,
}

-- The edges of a type, and those that dangle, by a scan of the list.
abbrev pub scan_type : Text → List Edge → ℕ
scan_type rel [] = 0
scan_type rel (e ∷ es) = (if text_eq e.type rel then 1 else 0) + scan_type rel es

abbrev pub scan_dangling : List Text → List Edge → ℕ
scan_dangling ids [] = 0
scan_dangling ids (e ∷ es) = (if is_dangling ids e then 1 else 0) + scan_dangling ids es

abbrev pub sum_counts : Counts → ℕ
sum_counts [] = 0
sum_counts ((r, n) ∷ cs) = n + sum_counts cs

pub count_of-bump :
    (r q : Text) (n : ℕ) (cs : Counts)
    → count_of q (bump r n cs) ≡ (if text_eq r q then count_of q cs + n else count_of q cs)
unfolding count_of bump
count_of-bump r q n [] = ground arith
count_of-bump r q n ((p, m) ∷ cs) =
    ground (arith, text_eq_iff p r, text_eq_iff p q, text_eq_iff r q, count_of-bump r q n cs)

sum_counts-bump : (r : Text) (n : ℕ) (cs : Counts) → sum_counts (bump r n cs) ≡ sum_counts cs + n
unfolding bump
sum_counts-bump r n [] = omega arith
sum_counts-bump r n ((p, m) ∷ cs) = ground (arith, sum_counts-bump r n cs)

count_of-add :
    (s : EdgeStats) (es : List Edge) (ids : List Text) (rel : Text)
    → count_of rel (add s es ids).rel_counts ≡ count_of rel s.rel_counts + scan_type rel es
unfolding add add_edge
count_of-add s [] ids rel = omega arith
count_of-add s (e ∷ es) ids rel =
    ground
      (arith, count_of-add (add_edge ids s e) es ids rel, count_of-bump e.type rel 1 s.rel_counts)

total-add :
    (s : EdgeStats) (es : List Edge) (ids : List Text) → (add s es ids).total ≡ s.total + length es
unfolding add add_edge
total-add s [] ids = omega arith
total-add s (e ∷ es) ids = omega (arith, total-add (add_edge ids s e) es ids)

dangling-add :
    (s : EdgeStats) (es : List Edge) (ids : List Text)
    → (add s es ids).dangling ≡ s.dangling + scan_dangling ids es
unfolding add add_edge
dangling-add s [] ids = omega arith
dangling-add s (e ∷ es) ids = ground (arith, dangling-add (add_edge ids s e) es ids)

-- The batches as they are handed over, each with the ids that are known then.
abbrev pub add_batches : EdgeStats → List (List Edge × List Text) → EdgeStats
add_batches s [] = s
add_batches s ((es, ids) ∷ bs) = add_batches (add s es ids) bs

abbrev pub all_edges : List (List Edge × List Text) → List Edge
all_edges [] = []
all_edges ((es, ids) ∷ bs) = es ++ all_edges bs

-- An endpoint that is known in the end is known when its edge is handed over, and ids stay.
abbrev pub IsInTime : List Text → List Text → Edge → Type 0
IsInTime ids final e =
    (has_id ids e.src ≡ has_id final e.src) × (has_id ids e.dst ≡ has_id final e.dst)

abbrev pub AreInTime : List Text → List (List Edge × List Text) → Type 0
AreInTime final [] = Unit
AreInTime final ((es, ids) ∷ bs) = All (IsInTime ids final) es × AreInTime final bs

is_dangling-final :
    (ids final : List Text) (e : Edge)
    → IsInTime ids final e
    → is_dangling ids e ≡ is_dangling final e
unfolding is_dangling
is_dangling-final ids final e h = rw (h.0, h.1) refl

scan_dangling-final :
    (ids final : List Text) (es : List Edge)
    → All (IsInTime ids final) es
    → scan_dangling ids es ≡ scan_dangling final es
scan_dangling-final ids final [] h = refl
scan_dangling-final ids final (e ∷ es) h =
    rw (is_dangling-final ids final e h.0, scan_dangling-final ids final es h.1) refl

scan_type-append :
    (rel : Text) (es fs : List Edge)
    → scan_type rel (es ++ fs) ≡ scan_type rel es + scan_type rel fs
scan_type-append rel [] fs = omega arith
scan_type-append rel (e ∷ es) fs = omega (arith, scan_type-append rel es fs)

scan_dangling-append :
    (ids : List Text) (es fs : List Edge)
    → scan_dangling ids (es ++ fs) ≡ scan_dangling ids es + scan_dangling ids fs
scan_dangling-append ids [] fs = omega arith
scan_dangling-append ids (e ∷ es) fs = omega (arith, scan_dangling-append ids es fs)

-- What the statistics hold after the edges, against a scan with the final ids.
pub record Scanned (s t : EdgeStats) (es : List Edge) (final : List Text) : Type 0 where
  pub types :
      (rel : Text) → count_of rel t.rel_counts ≡ count_of rel s.rel_counts + scan_type rel es
  pub dangling : t.dangling ≡ s.dangling + scan_dangling final es
  pub total : t.total ≡ s.total + length es

-- Adding edges batch by batch, each batch after the ids of its endpoints, leaves the same counts
-- by type, the same number of dangling edges and the same total as one scan over all edges with
-- the ids known in the end.
pub add_batches-Scanned :
    (final : List Text) (s : EdgeStats) (bs : List (List Edge × List Text))
    → AreInTime final bs
    → Scanned s (add_batches s bs) (all_edges bs) final
add_batches-Scanned final s [] h = record {
  types = λ rel. omega arith;
  dangling = omega arith;
  total = omega arith;
}
add_batches-Scanned final s ((es, ids) ∷ bs) h =
    let next = add_batches-Scanned final (add s es ids) bs h.1 in
    record {
      types = λ rel. omega (
        arith,
        next.types rel,
        count_of-add s es ids rel,
        scan_type-append rel es (all_edges bs),
      );
      dangling = omega (
        arith,
        next.dangling,
        dangling-add s es ids,
        scan_dangling-final ids final es h.0,
        scan_dangling-append final es (all_edges bs),
      );
      total = omega (arith, next.total, total-add s es ids, length-append es (all_edges bs));
    }

-- The counts by type sum up to the total.
abbrev pub IsBalanced : EdgeStats → Type 0
IsBalanced s = sum_counts s.rel_counts ≡ s.total

-- The counts by type still sum up to the total after edges are added, if they did before.
pub add-IsBalanced :
    (s : EdgeStats) (es : List Edge) (ids : List Text) → IsBalanced s → IsBalanced (add s es ids)
unfolding add add_edge
add-IsBalanced s [] ids h = h
add-IsBalanced s (e ∷ es) ids h =
    add-IsBalanced (add_edge ids s e) es ids (omega (arith, sum_counts-bump e.type 1 s.rel_counts))

add_count-IsBalanced :
    (s : EdgeStats) (t : Text) (n : ℕ) → IsBalanced s → IsBalanced (add_count s t n)
unfolding add_count
add_count-IsBalanced s t n h = ground (arith, sum_counts-bump t n s.rel_counts)
