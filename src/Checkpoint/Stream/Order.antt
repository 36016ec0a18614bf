-- ===== src/Checkpoint/Stream/Order.antt =====
-- However the thread and the consumer of `RefStream` interleave, the refs come in the order of the
-- batches.
use graph_ingest_test.Prelude.{
  ℕ, zero, suc, ◌-◌, ◌≤◌, ◌<◌, ◌≡◌, refl, sym, ap, ◌∙◌, List, [], ◌∷◌, ◌++◌, append_assoc,
  append-nil, Option, none, some, true, false, arith,
}
use graph_ingest_test.Checkpoint.Stream.{
  Loaded, Item, batch, done, Loader, loading, putting, ended, died, Consumer, yielding, finished,
  Stream, is_open, refs_of, refs_loaded, after_put, start, receive, Step, load_next, load_fails,
  stop_loading, all_loaded, put, give_up, get, get_done, yield_ref, exhausted, close, Runs, begin,
  next,
}

pub left : {B R : Type 0} → Consumer B R → List R
left (yielding b rest) = rest
left _ = []

module _ {B R : Type 0} (refs : B → List R) (load : ℕ → Loaded B) (num_batches : ℕ) where
  -- The refs of so many batches from `i` on, read one after the other.
  unfoldable pub refs_from : ℕ → ℕ → List R
  unfolding refs_loaded
  refs_from zero i = []
  refs_from (suc count) i = refs_loaded refs (load i) ++ refs_from count (suc i)

  pub queued : Option (Item B) → List R
  queued (some (batch b)) = refs_of refs b
  queued _ = []

  pub to_come : Loader B → List R
  to_come (loading i) = refs_from (num_batches - i) i
  to_come (putting (batch b) i) = refs_of refs b ++ refs_from (num_batches - i) i
  to_come (putting done i) = []
  to_come ended = []
  to_come (died i) = refs_from (num_batches - i) i

  refs_from-next :
      (i : ℕ)
      → i < num_batches
      → refs_from (num_batches - i) i
        ≡ refs_loaded refs (load i) ++ refs_from (num_batches - suc i) (suc i)
  unfolding refs_from
  refs_from-next i h = ap (λ k. refs_from k i) count
    where
      count : num_batches - i ≡ suc (num_batches - suc i)
      count = omega arith

  refs_from-done : (i : ℕ) → num_batches ≤ i → refs_from (num_batches - i) i ≡ []
  unfolding refs_from
  refs_from-done i h = ap (λ k. refs_from k i) count
    where
      count : num_batches - i ≡ 0
      count = omega arith

  abbrev pub ahead : Stream B R → List R
  ahead s = left s.consumer ++ (queued s.queue ++ to_come s.loader)

  -- Nothing is lost or swapped between the files and what was yielded.
  pub record IsOrdered (s : Stream B R) : Type 0 where
    pub begun : (rest : List R) × (s.out ++ rest ≡ refs_from num_batches 0)
    pub running : s.stop ≡ false → s.out ++ ahead s ≡ refs_from num_batches 0
    pub complete : s.consumer ≡ finished → s.out ≡ refs_from num_batches 0
    pub last : s.queue ≡ some done → s.loader ≡ ended
    pub unstopped : is_open s.consumer ≡ true → s.stop ≡ false
    pub handed : s.stop ≡ false → s.loader ≡ ended → s.queue ≡ some done

  Step-IsOrdered : {s t : Stream B R} → IsOrdered s → Step refs load num_batches s t → IsOrdered t
  unfolding left queued to_come after_put receive is_open refs_of refs_loaded
  Step-IsOrdered {s} h (load_fails i at on below fails) = record {
    begun = h.begun;
    running = λ k. rw at at (h.running k);
    complete = h.complete;
    last = λ q. cc (h.last q);
    unstopped = h.unstopped;
    handed = λ k q. cc;
  }
  Step-IsOrdered {s} h (load_next i b at on below got) = record {
    begun = h.begun;
    running = λ k. rw (at, refs_from-next i below, got) at (h.running k);
    complete = h.complete;
    last = λ q. cc (h.last q);
    unstopped = h.unstopped;
    handed = λ k q. cc;
  }
  Step-IsOrdered {s} h (stop_loading i at off below) = record {
    begun = h.begun;
    running = λ k. cc;
    complete = h.complete;
    last = λ q. refl;
    unstopped = h.unstopped;
    handed = λ k q. cc;
  }
  Step-IsOrdered {s} h (all_loaded i at past) = record {
    begun = h.begun;
    running = λ k. rw (at, refs_from-done i past) at (h.running k);
    complete = h.complete;
    last = λ q. cc (h.last q);
    unstopped = h.unstopped;
    handed = λ k q. cc;
  }
  Step-IsOrdered {s} h (put (batch b) i at free) = record {
    begun = h.begun;
    running = λ k. rw (at, free) at (h.running k);
    complete = h.complete;
    last = λ q. cc;
    unstopped = h.unstopped;
    handed = λ k q. cc;
  }
  Step-IsOrdered {s} h (put done i at free) = record {
    begun = h.begun;
    running = λ k. rw (at, free) at (h.running k);
    complete = h.complete;
    last = λ q. refl;
    unstopped = h.unstopped;
    handed = λ k q. refl;
  }
  Step-IsOrdered {s} h (give_up item i at off) = record {
    begun = h.begun;
    running = λ k. cc;
    complete = h.complete;
    last = λ q. refl;
    unstopped = h.unstopped;
    handed = λ k q. cc;
  }
  Step-IsOrdered {s} h (get held none at item) = record {
    begun = h.begun;
    running = λ k. rw (at, item) at (h.running k);
    complete = λ q. cc;
    last = λ q. cc;
    unstopped = λ q. h.unstopped (rw at refl);
    handed = λ k q. cc (h.handed k q);
  }
  Step-IsOrdered {s} h (get held (some b) at item) = record {
    begun = h.begun;
    running = λ k. rw (at, item) at (h.running k);
    complete = λ q. cc;
    last = λ q. cc;
    unstopped = λ q. h.unstopped (rw at refl);
    handed = λ k q. cc (h.handed k q);
  }
  Step-IsOrdered {s} h (get_done held at item) = record {
    begun = h.begun;
    running = λ k. cc;
    complete = λ q. sym (append-nil s.out) ∙ everything;
    last = λ q. cc;
    unstopped = λ q. cc;
    handed = λ k q. cc;
  }
    where
      everything : s.out ++ [] ≡ refs_from num_batches 0
      everything = rw (at, item, h.last item) at (h.running (h.unstopped (rw at refl)))
  Step-IsOrdered {s} h (yield_ref b r rest at) = record {
    begun = (rest ++ (queued s.queue ++ to_come s.loader), onward (h.unstopped (rw at refl)));
    running = onward;
    complete = λ q. cc;
    last = h.last;
    unstopped = λ q. h.unstopped (rw at refl);
    handed = h.handed;
  }
    where
      onward :
          s.stop ≡ false
          → (s.out ++ r ∷ []) ++ (rest ++ (queued s.queue ++ to_come s.loader))
            ≡ refs_from num_batches 0
      onward k = append_assoc s.out (r ∷ []) _ ∙ rw at at (h.running k)
  Step-IsOrdered {s} h (exhausted b at) = record {
    begun = h.begun;
    running = λ k. rw at at (h.running k);
    complete = λ q. cc;
    last = h.last;
    unstopped = λ q. h.unstopped (rw at refl);
    handed = h.handed;
  }
  Step-IsOrdered {s} h (close b rest at) = record {
    begun = h.begun;
    running = λ k. cc;
    complete = λ q. cc;
    last = h.last;
    unstopped = λ q. cc;
    handed = λ k q. cc;
  }

  pub Runs-IsOrdered : {s : Stream B R} → Runs refs load num_batches s → IsOrdered s
  unfolding start left queued to_come is_open
  Runs-IsOrdered begin = record {
    begun = (refs_from num_batches 0, refl);
    running = λ k. ap (λ n. refs_from n 0) count;
    complete = λ q. cc;
    last = λ q. cc;
    unstopped = λ q. refl;
    handed = λ k q. cc;
  }
    where
      count : num_batches - 0 ≡ num_batches
      count = omega arith
  Runs-IsOrdered (next r st) = Step-IsOrdered (Runs-IsOrdered r) st

  -- Once the consumer has ended by itself, it has yielded the refs of all batches, in the order of the
  -- batches and of their files, each once; and at every moment before, or where the caller closes it
  -- early, what it has yielded is a beginning of that. This holds for every interleaving of the loader
  -- thread with the consumer.
  pub refs_in_order :
      {s : Stream B R}
      → Runs refs load num_batches s
      → (s.consumer ≡ finished → s.out ≡ refs_from num_batches 0)
        × (rest : List R) × (s.out ++ rest ≡ refs_from num_batches 0)
  refs_in_order r = let h = Runs-IsOrdered r in (h.complete, h.begun.0, h.begun.1)
