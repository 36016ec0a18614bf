-- ===== src/Priority/Score.antt =====
-- The score and the leak signals (analysis/priority.py, `derive_signals`).
use graph_ingest_test.Prelude.{
  ℕ, ◌+◌, ◌*◌, ◌≤◌, ◌≡◌, refl, List, ◌++◌, Bool, true, false, ◌&&◌, Text, codes, arith,
}
use graph_ingest_test.Priority.{
  Db, Summary, risk_weight, reason, reasons_of, unguarded, leak, confirmed_leak, strong_findings,
  weights, raw_score, score, derive_signals, points, at_most_three, touched, is_guarded,
}

weights-cons :
    (b : Bool) (r : Text) (rs : List Text)
    → weights (reason b r ++ rs) ≡ points b (risk_weight r) + weights rs
unfolding weights
weights-cons true r rs = refl
weights-cons false r rs = omega arith

weights-one : (b : Bool) (r : Text) → weights (reason b r) ≡ points b (risk_weight r)
unfolding weights
weights-one true r = omega arith
weights-one false r = refl

points_le : (b : Bool) (n : ℕ) → points b n ≤ n
points_le b n = ground arith

points_even : (b : Bool) (n : ℕ) → points b n * 2 ≡ points b (n * 2)
points_even b n = ground arith

-- The reasons' weights, one by one.
weights-reasons_of :
    (s : Summary)
    → weights (reasons_of s)
      ≡ points s.db.sql_is_dynamic 12
        + points s.db.acquires 8
        + points (touched s (codes "exec")) 12
        + points (touched s (codes "deserialize")) 12
        + points (touched s (codes "reflection")) 8
        + points (touched s (codes "file")) 6
        + points s.source.reads_untrusted 8
        + points (is_guarded s.guards) 4
unfolding reasons_of weights risk_weight
weights-reasons_of s = omega (
  arith,
  weights-cons s.db.sql_is_dynamic (codes "builds_sql_dynamically") _,
  weights-cons s.db.acquires (codes "manual_resource_handling") _,
  weights-cons (touched s (codes "exec")) (codes "spawns_process") _,
  weights-cons (touched s (codes "deserialize")) (codes "deserialization") _,
  weights-cons (touched s (codes "reflection")) (codes "reflection") _,
  weights-cons (touched s (codes "file")) (codes "writes_filesystem") _,
  weights-cons s.source.reads_untrusted (codes "parses_untrusted_input") _,
  weights-one (is_guarded s.guards) (codes "auth_check"),
)

raw_score_le : (s : Summary) → raw_score s ≤ 124
unfolding raw_score
raw_score_le s = omega (
  arith,
  weights-reasons_of s,
  points_le s.db.sql_is_dynamic 12,
  points_le s.db.acquires 8,
  points_le (touched s (codes "exec")) 12,
  points_le (touched s (codes "deserialize")) 12,
  points_le (touched s (codes "reflection")) 8,
  points_le (touched s (codes "file")) 6,
  points_le s.source.reads_untrusted 8,
  points_le (is_guarded s.guards) 4,
  points_le s.db.sql_is_dynamic 8,
  points_le (leak s.db) 8,
  points_le (confirmed_leak s.db) 4,
  points_le s.source.reads_untrusted 6,
  points_le s.source.is_entry_point 4,
  at_most_three_le (strong_findings s.findings),
)
  where
    at_most_three_le : (n : ℕ) → at_most_three n ≤ 3
    at_most_three_le n = ground arith

-- Half of it, so that it is even.
raw_score-even : (s : Summary) → (k : ℕ) × (raw_score s ≡ k * 2)
unfolding raw_score
raw_score-even s = (
  points s.db.sql_is_dynamic 6
      + points s.db.acquires 4
      + points (touched s (codes "exec")) 6
      + points (touched s (codes "deserialize")) 6
      + points (touched s (codes "reflection")) 4
      + points (touched s (codes "file")) 3
      + points s.source.reads_untrusted 4
      + points (is_guarded s.guards) 2
      + points s.db.sql_is_dynamic 4
      + points (leak s.db) 4
      + points (confirmed_leak s.db) 2
      + points s.source.reads_untrusted 3
      + points s.source.is_entry_point 2
      + at_most_three (strong_findings s.findings) * 4,
  omega (
    arith,
    weights-reasons_of s,
    points_even s.db.sql_is_dynamic 6,
    points_even s.db.acquires 4,
    points_even (touched s (codes "exec")) 6,
    points_even (touched s (codes "deserialize")) 6,
    points_even (touched s (codes "reflection")) 4,
    points_even (touched s (codes "file")) 3,
    points_even s.source.reads_untrusted 4,
    points_even (is_guarded s.guards) 2,
    points_even s.db.sql_is_dynamic 4,
    points_even (leak s.db) 4,
    points_even (confirmed_leak s.db) 2,
    points_even s.source.reads_untrusted 3,
    points_even s.source.is_entry_point 2,
  ),
)

-- No score is above 31 points, which is 124 quarters.
pub derive_signals_le : (s : Summary) → (derive_signals s).sig_risk_score ≤ 124
unfolding derive_signals score
derive_signals_le s = ground (arith, raw_score_le s)

abbrev pub not_sanitizer : Summary → Summary
not_sanitizer s = record s { guards = record s.guards { is_sanitizer = false } }

-- A sanitizer has exactly half the score that it would have otherwise.
pub derive_signals-not_sanitizer :
    (s : Summary)
    → s.guards.is_sanitizer ≡ true
    → (derive_signals s).sig_risk_score * 2 ≡ (derive_signals (not_sanitizer s)).sig_risk_score
unfolding derive_signals score raw_score reasons_of
derive_signals-not_sanitizer s h =
    let (k, even) = raw_score-even s in rw h (unfold raw_score reasons_of in omega (arith, even))

abbrev pub with_throws : Bool → Summary → Summary
with_throws b s = record s { db = record s.db { throws_between_acquire_and_release = b } }

confirmed_leak-released : (db : Db) → db.released_in_finally ≡ true → confirmed_leak db ≡ false
unfolding confirmed_leak unguarded
confirmed_leak-released db h = ground arith

-- Where a finally block releases the resource, no leak is confirmed, a leak is reported only if one
-- was observed, and what may be thrown between the acquisition and the release changes no signal.
pub derive_signals-with_throws :
    (s : Summary) (b : Bool)
    → s.db.released_in_finally ≡ true
    → (derive_signals (with_throws b s) ≡ derive_signals s)
      × ((derive_signals s).sig_confirmed_leak ≡ false)
      × ((derive_signals s).sig_leak ≡ (s.db.acquires && s.db.resources_leaked))
unfolding derive_signals score raw_score leak unguarded reasons_of
derive_signals-with_throws s b h = (
  rw (confirmed_leak-released s.db h, confirmed_leak-released (with_throws b s).db h) refl,
  confirmed_leak-released s.db h,
  ground arith,
)

-- A confirmed leak is reported as a leak, and as one of a resource that is acquired.
pub derive_signals-confirmed :
    (s : Summary)
    → (derive_signals s).sig_confirmed_leak ≡ true
    → ((derive_signals s).sig_leak ≡ true) × ((derive_signals s).sig_acquires ≡ true)
unfolding derive_signals leak confirmed_leak unguarded
derive_signals-confirmed s h = (ground arith, ground arith)
