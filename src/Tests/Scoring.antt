-- ===== src/Tests/Scoring.antt =====
-- A function that acquires a connection and may leak it, and one that releases it
-- (analysis/priority.py).
use graph_ingest_test.Prelude.{◌≡◌, refl, [], ◌∷◌, true, false, ◌&&◌, codes}
use graph_ingest_test.Priority.{Summary, Observation, unguarded, confirmed_leak, derive_signals}
use graph_ingest_test.Priority.Score.{with_throws, derive_signals-with_throws}

abbrev style_nit : Observation
style_nit = record { certainty = codes "demonstrated"; impact = codes "Quality" }

abbrev leaking : Summary
leaking = record {
  db = record {
    sql_is_dynamic = true;
    acquires = true;
    released_in_finally = false;
    resources_leaked = false;
    throws_between_acquire_and_release = true;
  };
  source = record { reads_untrusted = true; is_entry_point = false; kinds = codes "http" ∷ [] };
  guards = record {
    authenticates = false;
    authorizes = false;
    is_sanitizer = true;
    validates_input = false;
  };
  contracts = record {
    may_return_null = true;
    null_condition = [];
    returns_sentinel = [];
    unguarded_calls = codes "DriverManager.getConnection" ∷ codes "get()" ∷ [];
    swallowed_exception_calls = [];
  };
  touches = codes "exec" ∷ [];
  findings = style_nit ∷ [];
}

abbrev releasing : Summary
releasing = record leaking { db = record leaking.db { released_in_finally = true } }

derive_signals-with_throws_example :
    (derive_signals (with_throws false releasing) ≡ derive_signals releasing)
    × ((derive_signals releasing).sig_confirmed_leak ≡ false)
    × ((derive_signals releasing).sig_leak
        ≡ (releasing.db.acquires && releasing.db.resources_leaked))
derive_signals-with_throws_example = derive_signals-with_throws releasing false refl

leaking-confirmed : (derive_signals leaking).sig_confirmed_leak ≡ true
unfolding derive_signals confirmed_leak unguarded
leaking-confirmed = refl
