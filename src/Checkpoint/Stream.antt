-- ===== src/Checkpoint/Stream.antt =====
-- `RefStream` (graph_core/checkpoint.py): a thread loads the batch files ahead of the loop that
-- consumes their refs, through a queue with one place. The interleavings are a step relation.
pub mod Ending
pub mod Order
use graph_ingest_test.Prelude.{
  ℕ, zero, suc, ◌≤◌, ◌<◌, ◌≡◌, List, [], ◌∷◌, ◌++◌, Option, none, some, Bool, true, false,
}

-- A call of `load_batch`: it returns a batch, or none for an OSError, an EOFError or a ValueError, or
-- it raises another exception.
pub data Loaded (B : Type 0) : Type 0 where
  loaded : Option B → Loaded B
  raised : Loaded B

-- What the queue carries: a batch as `load_batch` returns it, or the object `done`.
pub data Item (B : Type 0) : Type 0 where
  batch : Option B → Item B
  done : Item B

-- `_loader`: before the round of `i`; in `_put` with an item and the next round; returned; ended by
-- an exception in the round of `i`.
pub data Loader (B : Type 0) : Type 0 where
  loading : ℕ → Loader B
  putting : Item B → ℕ → Loader B
  ended : Loader B
  died : ℕ → Loader B

-- The generator: in `q.get()`, with the batch that its variable still holds; in `yield from`, with
-- the refs that are left; ended; closed by the caller.
pub data Consumer (B R : Type 0) : Type 0 where
  waiting : Option B → Consumer B R
  yielding : B → List R → Consumer B R
  finished : Consumer B R
  closed : Consumer B R

pub record Stream (B R : Type 0) : Type 0 where
  pub loader : Loader B
  pub queue : Option (Item B)
  pub stop : Bool
  pub consumer : Consumer B R
  -- the refs that the generator has yielded
  pub out : List R

-- The refs of what `load_batch` returned: none where the file could not be loaded.
unfoldable pub refs_of : {B R : Type 0} → (B → List R) → Option B → List R
refs_of refs none = []
refs_of refs (some b) = refs b

-- None either where it raised.
unfoldable pub refs_loaded : {B R : Type 0} → (B → List R) → Loaded B → List R
unfolding refs_of
refs_loaded refs (loaded b) = refs_of refs b
refs_loaded refs raised = []

-- The caller still iterates.
unfoldable pub is_open : {B R : Type 0} → Consumer B R → Bool
is_open (waiting held) = true
is_open (yielding b rest) = true
is_open _ = false

unfoldable pub after_put : {B : Type 0} → Item B → ℕ → Loader B
after_put (batch b) i = loading i
after_put done i = ended

module _ {B R : Type 0} (refs : B → List R) (load : ℕ → Loaded B) (num_batches : ℕ) where
  unfoldable pub start : Stream B R
  start = record {
    loader = loading 0;
    queue = none;
    stop = false;
    consumer = waiting none;
    out = [];
  }

  unfoldable pub receive : Option B → Consumer B R
  receive none = waiting none
  receive (some b) = yielding b (refs b)

  -- `q.put` may pass after `stop` is set, when it was called before. Its timeouts change nothing.
  pub data Step (s : Stream B R) : Stream B R → Type 0 where
    load_next :
        (i : ℕ) (b : Option B)
        → s.loader ≡ loading i
        → s.stop ≡ false
        → i < num_batches
        → load i ≡ loaded b
        → Step s (record s { loader = putting (batch b) (suc i) })
    -- Nothing catches it, and no `done` is put.
    load_fails :
        (i : ℕ)
        → s.loader ≡ loading i
        → s.stop ≡ false
        → i < num_batches
        → load i ≡ raised
        → Step s (record s { loader = died i })
    stop_loading :
        (i : ℕ)
        → s.loader ≡ loading i
        → s.stop ≡ true
        → i < num_batches
        → Step s (record s { loader = ended })
    all_loaded :
        (i : ℕ)
        → s.loader ≡ loading i
        → num_batches ≤ i
        → Step s (record s { loader = putting done i })
    put :
        (item : Item B) (i : ℕ)
        → s.loader ≡ putting item i
        → s.queue ≡ none
        → Step s (record s { loader = after_put item i; queue = some item })
    give_up :
        (item : Item B) (i : ℕ)
        → s.loader ≡ putting item i
        → s.stop ≡ true
        → Step s (record s { loader = ended })
    get :
        (held b : Option B)
        → s.consumer ≡ waiting held
        → s.queue ≡ some (batch b)
        → Step s (record s { queue = none; consumer = receive b })
    get_done :
        (held : Option B)
        → s.consumer ≡ waiting held
        → s.queue ≡ some done
        → Step s (record s { queue = none; consumer = finished; stop = true })
    yield_ref :
        (b : B) (r : R) (rest : List R)
        → s.consumer ≡ yielding b (r ∷ rest)
        → Step s (record s { consumer = yielding b rest; out = s.out ++ r ∷ [] })
    exhausted :
        (b : B) → s.consumer ≡ yielding b [] → Step s (record s { consumer = waiting (some b) })
    close :
        (b : B) (rest : List R)
        → s.consumer ≡ yielding b rest
        → Step s (record s { consumer = closed; stop = true })

  pub data Runs : Stream B R → Type 0 where
    begin : Runs start
    next : {s t : Stream B R} → Runs s → Step s t → Runs t
