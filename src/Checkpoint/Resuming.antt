-- ===== src/Checkpoint/Resuming.antt =====
-- What a run finds and leaves after crashes: the batches of its own shape.
use mathlib.Core.List.{Memᴰ}
use mathlib.Core.Logic.{◌⊎◌, ⊎_elim}
use graph_ingest_test.Prelude.{
  ℕ, zero, suc, ◌+◌, ◌≤◌, ◌<◌, ◌≡◌, refl, ◌∙◌, List, ◌∷◌, some, Bool, true, false, ◌&&◌, ◌==◌,
  if◌then◌else◌, inl, inr, Bool-cases, arith, ==_iff,
}
use graph_ingest_test.Checkpoint.{
  File, whole, content, is_file, has_batch, Manifest, Disk, Name, at, apply, apply_all,
  batch_exists, load_batch, write_manifest, add_done, save_batch, init_manifest, extract_batches,
  run,
}
use graph_ingest_test.Checkpoint.Writes.{Holds, IsReadable, apply_all-append, ==_refl}
use graph_ingest_test.Checkpoint.Crashes.{IsSafe, IsHeld, save_batch-IsHeld}
use graph_ingest_test.Checkpoint.Runs.{
  add_done-shape, init_manifest-Started, Run, writes_of, Survives, Extracted, own, Survives-IsSafe,
}

save_batch-batch :
    {B : Type 0} (i : ℕ) (b : B) (m : Manifest) (d : Disk B) (j : ℕ)
    → (apply_all (save_batch i b m).0 d).batch j ≡ (if i == j then whole b else d.batch j)
unfolding save_batch apply_all apply write_manifest at
save_batch-batch i b m d j = rw (==_refl i) refl

module _ {B : Type 0} (Allowed : ℕ → ℕ → ℕ → B → Type 0) where
  -- The file of batch `j` holds what is allowed under that shape.
  abbrev IsThere : ℕ → ℕ → ℕ → File B → Type 0
  IsThere total size j f = (b : B) × (f ≡ whole b) × Allowed total size j b

  -- A batch that the loop skips is there.
  skipped :
      (i : ℕ) (m : Manifest) (d : Disk B)
      → IsHeld Allowed m d
      → has_batch i m.batches_done && batch_exists d i ≡ true
      → IsThere m.total_batches m.batch_size i (d.batch i)
  unfolding batch_exists is_file
  skipped i m d h e =
      here (d.batch i) (both (has_batch i m.batches_done) e).1
        (h.safe.recorded m h.on_disk i (both (has_batch i m.batches_done) e).0)
    where
      both : (a : Bool) {b : Bool} → a && b ≡ true → (a ≡ true) × (b ≡ true)
      both true e = (refl, e)
      both false e = cc

      here :
          (f : File B)
          → is_file f ≡ true
          → Holds (Allowed m.total_batches m.batch_size i) f
          → IsThere m.total_batches m.batch_size i f
      here f e Holds.missing = cc
      here f e (Holds.there {a} p) = (a, refl, p)

  -- One more round decides batch `i`.
  decided : (P : ℕ → Type 0) (i j : ℕ) → P j ⊎ (i ≤ j) → P i → P j ⊎ (suc i ≤ j)
  decided P i j before this = elim (Bool-cases (i == j)) [
    | inl e ↦ inl (rw (← (==_iff i j).0 e) this)
    | inr n ↦ ⊎_elim (λ e. inl e) (λ le. inr (ground arith)) before
  ]

  -- The rounds from `i` on: the batches before stay, and each later one is allowed.
  extract_batches-lem :
      (extract : ℕ → B) (total size left i : ℕ) (d : Disk B) (m : Manifest)
      → ((k : ℕ) → Allowed total size k (extract k))
      → m.total_batches ≡ total
      → m.batch_size ≡ size
      → IsHeld Allowed m d
      → (j : ℕ) → IsThere total size j (d.batch j) ⊎ (i ≤ j)
      → j < i + left
      → IsThere total size j ((apply_all (extract_batches extract left i d m) d).batch j)
  unfolding extract_batches apply_all save_batch
  extract_batches-lem extract total size zero i d m ok t b h j before below =
      ⊎_elim (λ e. e) (λ le. absurd (omega arith)) before
  extract_batches-lem extract total size (suc left) i d m ok t b h j before below =
      elim (Bool-cases (has_batch i m.batches_done && batch_exists d i)) [
        | inl e ↦
            rw (e, extract_batches)
              (extract_batches-lem extract total size left (suc i) d m ok t b h j
                (decided (λ k. IsThere total size k (d.batch k)) i j before
                  (rw (← t, ← b) (skipped i m d h e)))
                (omega arith))
        | inr n ↦
            rw (n, extract_batches)
              (rw
                (apply_all-append (save_batch i (extract i) m).0
                  (extract_batches extract left (suc i) next (add_done i m)) d)
                (extract_batches-lem extract total size left (suc i) next (add_done i m) ok
                  ((add_done-shape Allowed i m).0 ∙ t) ((add_done-shape Allowed i m).1 ∙ b)
                  (save_batch-IsHeld Allowed i (extract i) m d (rw (t, b) (ok i)) h) j
                  (rw (save_batch-batch i (extract i) m d j) written) (omega arith)))
      ]
    where
      next : Disk B
      next = apply_all (save_batch i (extract i) m).0 d

      written : IsThere total size j (if i == j then whole (extract i) else d.batch j) ⊎ (suc i ≤ j)
      written = elim (Bool-cases (i == j)) [
        | inl e ↦ rw e (inl (extract i, refl, rw (← (==_iff i j).0 e) (ok i)))
        | inr n ↦ rw n (⊎_elim (λ e. inl e) (λ le. inr (ground arith)) before)
      ]

  -- A run that ends has every batch of its shape on the disk.
  run-batches :
      (extract : ℕ → B) (d : Disk B)
      → IsSafe Allowed d
      → (names : List Name) (total size i : ℕ) → ((k : ℕ) → Allowed total size k (extract k))
      → i < total
      → IsThere total size i ((apply_all (run names extract total size d) d).batch i)
  unfolding run
  run-batches extract d safe names total size i ok below =
      let s = init_manifest-Started Allowed names total size d safe in
      rw
        (apply_all-append (init_manifest names total size d).0
          (extract_batches extract total 0 (apply_all (init_manifest names total size d).0 d)
            (init_manifest names total size d).1)
          d)
        (extract_batches-lem extract total size total 0
          (apply_all (init_manifest names total size d).0 d) (init_manifest names total size d).1 ok
          s.total_same s.size_same s.held i (inr (omega arith)) (omega arith))

-- Whatever runs, crashes and clean-ups came before, once a run has made all its writes each of its
-- batches loads, and the bundle is one that this run, or an earlier run with the same number and size
-- of batches, extracted for that batch. No partial batch and none of another shape is kept, and none
-- that is missing is skipped. Contents that change while the shape stays are not noticed: such a batch
-- may be the one of the earlier run.
pub resumed_run :
    {B : Type 0} {rs : List (Run B)} {d : Disk B}
    → Survives rs d
    → (names : List Name) (r : Run B) (i : ℕ) → i < r.total_batches
    → (b : B) × (load_batch (apply_all (writes_of names r d) d) i ≡ some b)
      × Extracted (r ∷ rs) r.total_batches r.batch_size i b
unfolding load_batch content writes_of
resumed_run {rs} {d} h names r i below =
    let all = r ∷ rs in
    let (b, held, by) =
      run-batches (Extracted all) r.extract d (Survives-IsSafe all h (λ q m. Memᴰ.tail m)) names
        r.total_batches r.batch_size i (λ k. own all r k (Memᴰ.head refl)) below in
    (b, rw held refl, by)

-- After any crashes, at any write, the file of a batch that exists can be loaded.
pub existing_batch_loads :
    {B : Type 0} {rs : List (Run B)} {d : Disk B}
    → Survives rs d
    → (i : ℕ) → batch_exists d i ≡ true
    → (b : B) × (load_batch d i ≡ some b)
unfolding load_batch batch_exists content is_file
existing_batch_loads {B} {rs} {d} h i e =
    readable (d.batch i) e ((Survives-IsSafe rs h (λ q m. m)).batches_readable i)
  where
    readable : (f : File B) → is_file f ≡ true → IsReadable f → (b : B) × (content f ≡ some b)
    readable f e IsReadable.missing = cc
    readable f e (IsReadable.there {a}) = (a, refl)
