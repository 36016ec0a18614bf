-- ===== src/Checkpoint/Stream/Ending.antt =====
-- `RefStream` does not run for ever, and blocks only where the loader dies.
use native.Mathlib.Decide.{dec_lt}
use graph_ingest_test.Prelude.{
  ℕ, zero, suc, ◌+◌, ◌-◌, ◌<◌, ◌≡◌, ◌⊎◌, inl, inr, refl, ap, List, [], ◌∷◌, length, Option, none,
  some, true, false, arith,
}
use graph_ingest_test.Checkpoint.Stream.{
  Loaded, loaded, raised, Item, batch, done, Loader, loading, putting, ended, died, Consumer,
  waiting, yielding, finished, closed, Stream, is_open, refs_of, refs_loaded, after_put, receive,
  Step, load_next, load_fails, stop_loading, all_loaded, put, give_up, get, get_done, yield_ref,
  exhausted, close, Runs, begin, next, start,
}
use graph_ingest_test.Checkpoint.Stream.Order.{IsOrdered, Runs-IsOrdered}

module _ {B R : Type 0} (refs : B → List R) (load : ℕ → Loaded B) (num_batches : ℕ) where
  -- Steps that so many batches from `i` on may still take.
  steps_from : ℕ → ℕ → ℕ
  steps_from zero i = 0
  steps_from (suc count) i = length (refs_loaded refs (load i)) + 4 + steps_from count (suc i)

  loader_work : Loader B → ℕ
  loader_work (loading i) = steps_from (num_batches - i) i + 4
  loader_work (putting (batch b) i) =
      length (refs_of refs b) + 3 + (steps_from (num_batches - i) i + 4)
  loader_work (putting done i) = 3
  loader_work ended = 0
  loader_work (died i) = 0

  queue_work : Option (Item B) → ℕ
  queue_work none = 0
  queue_work (some (batch b)) = length (refs_of refs b) + 2
  queue_work (some done) = 1

  consumer_work : Consumer B R → ℕ
  consumer_work (yielding b rest) = length rest + 1
  consumer_work _ = 0

  pub work : Stream B R → ℕ
  work s = loader_work s.loader + queue_work s.queue + consumer_work s.consumer

  steps_from-next :
      (i : ℕ)
      → i < num_batches
      → steps_from (num_batches - i) i
        ≡ length (refs_loaded refs (load i)) + 4 + steps_from (num_batches - suc i) (suc i)
  unfolding steps_from
  steps_from-next i h = ap (λ k. steps_from k i) count
    where
      count : num_batches - i ≡ suc (num_batches - suc i)
      count = omega arith

  -- Every step of the loader or of the consumer lowers the work that is left, so no interleaving goes
  -- on for ever.
  pub stream_terminates : {s t : Stream B R} → Step refs load num_batches s t → work t < work s
  unfolding work loader_work queue_work consumer_work after_put receive refs_of refs_loaded
  stream_terminates {s} (load_next i b at on below got) =
      rw (at, steps_from-next i below, got) (omega arith)
  stream_terminates {s} (load_fails i at on below fails) = rw at (omega arith)
  stream_terminates {s} (stop_loading i at off below) = rw at (omega arith)
  stream_terminates {s} (all_loaded i at past) = rw at (omega arith)
  stream_terminates {s} (put (batch b) i at free) = rw (at, free) (omega arith)
  stream_terminates {s} (put done i at free) = rw (at, free) (omega arith)
  stream_terminates {s} (give_up (batch b) i at off) = rw at (omega arith)
  stream_terminates {s} (give_up done i at off) = rw at (omega arith)
  stream_terminates {s} (get held none at item) = rw (at, item) (omega arith)
  stream_terminates {s} (get held (some b) at item) = rw (at, item) (omega arith)
  stream_terminates {s} (get_done held at item) = rw (at, item) (omega arith)
  stream_terminates {s} (yield_ref b r rest at) = rw at (omega arith)
  stream_terminates {s} (exhausted b at) = rw at (omega arith)
  stream_terminates {s} (close b rest at) = rw at (omega arith)

  -- A loader that died did so on a batch whose loading raised.
  died-raised :
      {s : Stream B R}
      → Runs refs load num_batches s
      → (i : ℕ) → s.loader ≡ died i
      → (load i ≡ raised) × (i < num_batches)
  unfolding start after_put
  died-raised begin i e = cc
  died-raised (next r (load_next j b at on below got)) i e = cc
  died-raised (next r (load_fails j at on below fails)) i e =
      let same : j ≡ i = cc in (rw (← same) fails, rw (← same) below)
  died-raised (next r (stop_loading j at off below)) i e = cc
  died-raised (next r (all_loaded j at past)) i e = cc
  died-raised (next r (put (batch b) j at free)) i e = cc
  died-raised (next r (put done j at free)) i e = cc
  died-raised (next r (give_up item j at off)) i e = cc
  died-raised (next r (get held b at item)) i e = died-raised r i e
  died-raised (next r (get_done held at item)) i e = died-raised r i e
  died-raised (next r (yield_ref b x rest at)) i e = died-raised r i e
  died-raised (next r (exhausted b at)) i e = died-raised r i e
  died-raised (next r (close b rest at)) i e = died-raised r i e

  -- The consumer waits on an empty queue for a loader that an exception of `load_batch` has ended.
  pub record IsBlocked (s : Stream B R) : Type 0 where
    pub failed : ℕ
    pub below : failed < num_batches
    pub raises : load failed ≡ raised
    pub loader_died : s.loader ≡ died failed
    pub empty : s.queue ≡ none
    pub held : Option B
    pub consumer_waits : s.consumer ≡ waiting held

  blocked-stuck : {s t : Stream B R} → IsBlocked s → Step refs load num_batches s t → ⊥
  blocked-stuck h (load_next i b at on below got) = cc (h.loader_died, at)
  blocked-stuck h (load_fails i at on below fails) = cc (h.loader_died, at)
  blocked-stuck h (stop_loading i at off below) = cc (h.loader_died, at)
  blocked-stuck h (all_loaded i at past) = cc (h.loader_died, at)
  blocked-stuck h (put item i at free) = cc (h.loader_died, at)
  blocked-stuck h (give_up item i at off) = cc (h.loader_died, at)
  blocked-stuck h (get held b at item) = cc (h.empty, item)
  blocked-stuck h (get_done held at item) = cc (h.empty, item)
  blocked-stuck h (yield_ref b x rest at) = cc (h.consumer_waits, at)
  blocked-stuck h (exhausted b at) = cc (h.consumer_waits, at)
  blocked-stuck h (close b rest at) = cc (h.consumer_waits, at)

  -- In every state that an interleaving reaches before the consumer has ended or was closed, either
  -- the loader or the consumer can take a step, or neither can, and then for one reason only:
  -- `load_batch` raised on some batch an exception that it does not catch, which ended the loader with
  -- no `done`, and the consumer waits for ever on the empty queue.
  pub stream_progress :
      {s : Stream B R}
      → Runs refs load num_batches s
      → is_open s.consumer ≡ true
      → ((t : Stream B R) × Step refs load num_batches s t)
        ⊎ (IsBlocked s × ((t : Stream B R) → Step refs load num_batches s t → ⊥))
  unfolding is_open
  stream_progress {s} r open_now = consuming s.consumer refl
    where
      h : IsOrdered refs load num_batches s
      h = Runs-IsOrdered refs load num_batches r

      on : s.stop ≡ false
      on = h.unstopped open_now

      Outcome : Type 0
      Outcome =
          ((t : Stream B R) × Step refs load num_batches s t)
          ⊎ (IsBlocked s × ((t : Stream B R) → Step refs load num_batches s t → ⊥))

      tries :
          (i : ℕ) → s.loader ≡ loading i → i < num_batches → (l : Loaded B) → load i ≡ l → Outcome
      tries i at p (loaded b) e = inl (_, load_next i b at on p e)
      tries i at p raised e = inl (_, load_fails i at on p e)

      loads :
          (l : Loader B) (held : Option B)
          → s.loader ≡ l
          → s.consumer ≡ waiting held
          → s.queue ≡ none
          → Outcome
      loads (loading i) held at waits free = elim (dec_lt i num_batches) [
        | yes p ↦ tries i at p (load i) refl
        | no p ↦ inl (_, all_loaded i at (omega arith))
      ]
      loads (putting item i) held at waits free = inl (_, put item i at free)
      loads ended held at waits free = cc (h.handed on at)
      loads (died i) held at waits free =
          let (raises, below) = died-raised r i at in
          let b : IsBlocked s = record {
            failed = i;
            below = below;
            raises = raises;
            loader_died = at;
            empty = free;
            held = held;
            consumer_waits = waits;
          } in
          inr (b, λ t. blocked-stuck b)

      receives :
          (held : Option B) (q : Option (Item B))
          → s.consumer ≡ waiting held
          → s.queue ≡ q
          → Outcome
      receives held none at free = loads s.loader held refl at free
      receives held (some (batch b)) at item = inl (_, get held b at item)
      receives held (some done) at item = inl (_, get_done held at item)

      consuming : (c : Consumer B R) → s.consumer ≡ c → Outcome
      consuming (waiting held) at = receives held s.queue at refl
      consuming (yielding b []) at = inl (_, exhausted b at)
      consuming (yielding b (x ∷ rest)) at = inl (_, yield_ref b x rest at)
      consuming finished at = cc
      consuming closed at = cc
