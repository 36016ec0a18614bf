-- ===== src/Findings/Rank/Order.antt =====
-- The order of the report (analysis/findings.py, `rank`).
use graph_ingest_test.Prelude.{
  ℕ, suc, ◌≤◌, ◌<◌, ◌≡◌, ◌≢◌, refl, List, [], ◌∷◌, Bool-cases, inl, inr, if◌then◌else◌, ◌==◌, All,
  length, Text, codes, lower, text_eq, text_leb, true, false, true-false, Bool, ==_iff, text_eq_iff,
  text_leb_total, text_leb_trans, text_leb_antisym, arith,
}
use mathlib.Core.List.{Perm}
use graph_ingest_test.Prelude.Sorting.{IsOrdered, sort-IsOrdered, perm-sort}
use graph_ingest_test.Findings.{Finding}
use graph_ingest_test.Findings.Rank.{severity_order, RankKey, rank_key, file_leb, key_leb, rank}

file_leb_total : (a b : RankKey) → file_leb a b ≡ false → file_leb b a ≡ true
file_leb_total a b h =
    ground
      (arith, text_eq_iff a.file b.file, text_eq_iff b.file a.file, text_leb_total a.file b.file)

file_leb_trans : (a b c : RankKey) → file_leb a b ≡ true → file_leb b c ≡ true → file_leb a c ≡ true
file_leb_trans a b c h k = ground (
  arith,
  text_eq_iff a.file b.file,
  text_eq_iff b.file c.file,
  text_eq_iff a.file c.file,
  text_eq_iff b.file a.file,
  text_leb_trans a.file b.file c.file,
  text_leb_antisym a.file b.file,
)

key_leb_total : (a b : RankKey) → key_leb a b ≡ false → key_leb b a ≡ true
unfolding key_leb
key_leb_total a b h = ground (arith, file_leb_total a b)

key_leb_trans : (a b c : RankKey) → key_leb a b ≡ true → key_leb b c ≡ true → key_leb a c ≡ true
unfolding key_leb
key_leb_trans a b c h k = ground (arith, file_leb_trans a b c)

-- The severities from the worst on. Any other text, the empty one included, comes behind them.
abbrev pub severities : List Text
severities = codes "critical" ∷ codes "high" ∷ codes "medium" ∷ codes "low" ∷ []

pub place : Text → List Text → ℕ
place t [] = 0
place t (s ∷ ss) = if text_eq t s then 0 else suc (place t ss)

abbrev pub severity_of : Finding → ℕ
severity_of f = place (lower f.severity) severities

-- The first finding may stand before the second: by a worse severity, then by more entry points that
-- reach it, then by a shorter path, then by a file that is not behind, and in one file by a line that
-- is not behind.
pub data MayPrecede (f g : Finding) : Type 0 where
  worse : severity_of f < severity_of g → MayPrecede f g
  more_reached :
      severity_of f ≡ severity_of g
      → g.reachable_from_count < f.reachable_from_count
      → MayPrecede f g
  shorter :
      severity_of f ≡ severity_of g
      → f.reachable_from_count ≡ g.reachable_from_count
      → length f.path_ids < length g.path_ids
      → MayPrecede f g
  other_file :
      severity_of f ≡ severity_of g
      → f.reachable_from_count ≡ g.reachable_from_count
      → length f.path_ids ≡ length g.path_ids
      → f.file ≢ g.file
      → text_leb f.file g.file ≡ true
      → MayPrecede f g
  later_line :
      severity_of f ≡ severity_of g
      → f.reachable_from_count ≡ g.reachable_from_count
      → length f.path_ids ≡ length g.path_ids
      → f.file ≡ g.file
      → f.line ≤ g.line
      → MayPrecede f g

nested :
    (a b c d : Bool)
    → (if a then 0 else if b then 1 else if c then 2 else if d then 3 else 4)
      ≡ (if a then 0 else suc (if b then 0 else suc (if c then 0 else suc (if d then 0 else 1))))
nested true b c d = refl
nested false true c d = refl
nested false false true d = refl
nested false false false true = refl
nested false false false false = refl

severity_order-eq : (s : Text) → severity_order s ≡ place (lower s) severities
unfolding severity_order place
severity_order-eq [] = refl
severity_order-eq (x ∷ s) =
    nested (text_eq (lower (x ∷ s)) (codes "critical")) (text_eq (lower (x ∷ s)) (codes "high"))
      (text_eq (lower (x ∷ s)) (codes "medium")) (text_eq (lower (x ∷ s)) (codes "low"))

precedes : (f g : Finding) → key_leb (rank_key f) (rank_key g) ≡ true → MayPrecede f g
unfolding key_leb rank_key
precedes f g h = elim (Bool-cases (severity_order f.severity == severity_order g.severity)) [
  | inr n ↦
      MayPrecede.worse
        (rw (← severity_order-eq f.severity, ← severity_order-eq g.severity) (ground arith))
  | inl e ↦ elim (Bool-cases (g.reachable_from_count == f.reachable_from_count)) [
    | inr n ↦ MayPrecede.more_reached (same_severity e) (ground arith)
    | inl r ↦ elim (Bool-cases (length f.path_ids == length g.path_ids)) [
      | inr n ↦ MayPrecede.shorter (same_severity e) (ground arith) (ground arith)
      | inl p ↦ elim (Bool-cases (text_eq f.file g.file)) [
        | inl t ↦
            MayPrecede.later_line (same_severity e) (ground arith) (ground arith)
              ((text_eq_iff f.file g.file).0 t) (ground arith)
        | inr n ↦
            MayPrecede.other_file (same_severity e) (ground arith) (ground arith)
              (λ q. true-false ((text_eq_iff f.file g.file).1 q) n) (ground arith)
      ]
    ]
  ]
]
  where
    same_severity :
        severity_order f.severity == severity_order g.severity ≡ true
        → severity_of f ≡ severity_of g
    same_severity e =
        rw (← severity_order-eq f.severity, ← severity_order-eq g.severity)
          ((==_iff (severity_order f.severity) (severity_order g.severity)).0 e)

-- Each finding of the list stands before every later one by `MayPrecede`.
abbrev pub InOrder : List Finding → Type 0
InOrder [] = Unit
InOrder (f ∷ fs) = All (MayPrecede f) fs × InOrder fs

All-precedes :
    (f : Finding) (fs : List Finding)
    → All (λ g. key_leb (rank_key f) (rank_key g) ≡ true) fs
    → All (MayPrecede f) fs
All-precedes f [] h = tt
All-precedes f (g ∷ fs) h = (precedes f g h.0, All-precedes f fs h.1)

IsOrdered-InOrder :
    (fs : List Finding) → IsOrdered (λ f g. key_leb (rank_key f) (rank_key g)) fs → InOrder fs
IsOrdered-InOrder [] h = tt
IsOrdered-InOrder (f ∷ fs) h = (All-precedes f fs h.0, IsOrdered-InOrder fs h.1)

-- The ranked report holds just the findings that it was given, each as often, and each stands before
-- every later one by severity, critical first; on a tie by the entry points that reach it, more first;
-- then by the length of the path, shorter first; then by file and line.
pub rank-IsOrdered :
    (findings : List Finding) → InOrder (rank findings) × Perm (rank findings) findings
unfolding rank
rank-IsOrdered findings = (
  IsOrdered-InOrder _ (
      sort-IsOrdered _ (λ f g. key_leb_total (rank_key f) (rank_key g))
        (λ f g h. key_leb_trans (rank_key f) (rank_key g) (rank_key h)) findings),
  perm-sort _ findings,
)
