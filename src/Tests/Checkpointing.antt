-- ===== src/Tests/Checkpointing.antt =====
-- Crashes, resumed runs and the stream of refs (graph_core/checkpoint.py).
use graph_ingest_test.Prelude.{
  ℕ, ◌+◌, ◌<◌, ◌≡◌, ◌⊎◌, refl, List, [], ◌∷◌, ◌++◌, none, some, false, take, arith,
}
use graph_ingest_test.Checkpoint.{
  Disk, apply_all, load_batch, run, init_manifest, start_manifest, load_manifest, content,
  write_manifest, extract_batches, save_batch, add_done, has_batch, batch_exists, is_file, apply,
  at,
}
use graph_ingest_test.Checkpoint.Writes.{empty_disk}
use graph_ingest_test.Checkpoint.Runs.{Run, writes_of, Survives, new, crashed, Extracted}
use graph_ingest_test.Checkpoint.Resuming.{resumed_run}
use graph_ingest_test.Checkpoint.Stream.{
  Loaded, loaded, raised, load_fails, died, waiting, batch, putting, yielding, finished, Stream,
  is_open, after_put, start, receive, Step, load_next, put, get, yield_ref, Runs, begin, next,
}
use graph_ingest_test.Checkpoint.Stream.Order.{refs_from, refs_in_order}
use graph_ingest_test.Checkpoint.Stream.Ending.{IsBlocked, work, stream_progress, stream_terminates}

abbrev first_run : Run ℕ
first_run = record { total_batches = 2; batch_size = 3; extract = λ i. i }

-- The contents have changed, and the shape has not.
abbrev changed_run : Run ℕ
changed_run = record first_run { extract = λ i. 10 + i }

-- The first batch is done in the manifest, the second one is not on the disk.
abbrev halfway : Disk ℕ
halfway = apply_all (take 9 (writes_of [] first_run empty_disk)) empty_disk

halfway-Survives : Survives (first_run ∷ []) halfway
halfway-Survives = crashed new [] first_run 9

resumed_run_example :
    (b : ℕ) × (load_batch (apply_all (writes_of [] changed_run halfway) halfway) 1 ≡ some b)
    × Extracted (changed_run ∷ first_run ∷ []) 2 3 1 b
resumed_run_example = resumed_run halfway-Survives [] changed_run 1 (omega arith)

-- The batch that was done is kept though its contents have changed.
stale_batch : load_batch (apply_all (writes_of [] changed_run halfway) halfway) 0 ≡ some 0
unfolding writes_of run init_manifest start_manifest load_manifest content write_manifest
    extract_batches save_batch add_done has_batch batch_exists load_batch is_file apply apply_all at
stale_batch = refl

abbrev twice : ℕ → List ℕ
twice b = b ∷ b ∷ []

abbrev each : ℕ → Loaded ℕ
each i = loaded (some i)

abbrev prefetched : Stream ℕ ℕ
prefetched = record {
  loader = putting (batch (some 2)) 3;
  queue = some (batch (some 1));
  stop = false;
  consumer = yielding 0 (0 ∷ 0 ∷ []);
  out = [];
}

-- Three batches are in memory: the one consumed, the one queued, and the one that the loader holds
-- while the queue is full.
prefetched-Runs : Runs twice each 3 prefetched
unfolding start after_put receive
prefetched-Runs =
    next
      (next
        (next
          (next
            (next (next begin (load_next 0 (some 0) refl refl (omega arith) refl))
              (put (batch (some 0)) 1 refl refl))
            (get none (some 0) refl refl))
          (load_next 1 (some 1) refl refl (omega arith) refl))
        (put (batch (some 1)) 2 refl refl))
      (load_next 2 (some 2) refl refl (omega arith) refl)

abbrev after_one : Stream ℕ ℕ
after_one = record prefetched { consumer = yielding 0 (0 ∷ []); out = 0 ∷ [] }

after_one-Runs : Runs twice each 3 after_one
after_one-Runs = next prefetched-Runs (yield_ref 0 0 (0 ∷ []) refl)

refs_in_order_example :
    (after_one.consumer ≡ finished → after_one.out ≡ refs_from twice each 3 3 0)
    × (rest : List ℕ) × (after_one.out ++ rest ≡ refs_from twice each 3 3 0)
refs_in_order_example = refs_in_order twice each 3 after_one-Runs

-- The first batch raises: the loader dies, and nothing can go on.
abbrev deadlocked : Stream ℕ ℕ
deadlocked = record {
  loader = died 0;
  queue = none;
  stop = false;
  consumer = waiting none;
  out = [];
}

deadlocked-Runs : Runs twice (λ i. raised) 3 deadlocked
unfolding start
deadlocked-Runs = next begin (load_fails 0 refl refl (omega arith) refl)

stream_progress_example :
    ((t : Stream ℕ ℕ) × Step twice (λ i. raised) 3 deadlocked t)
    ⊎ (IsBlocked twice (λ i. raised) 3 deadlocked
        × ((t : Stream ℕ ℕ) → Step twice (λ i. raised) 3 deadlocked t → ⊥))
unfolding is_open
stream_progress_example = stream_progress twice (λ i. raised) 3 deadlocked-Runs refl

stream_terminates_example : work twice each 3 after_one < work twice each 3 prefetched
stream_terminates_example =
    stream_terminates twice each 3 {s = prefetched} (yield_ref 0 0 (0 ∷ []) refl)
