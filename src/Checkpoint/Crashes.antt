-- ===== src/Checkpoint/Crashes.antt =====
-- Every crash leaves a directory from which the batch loop can resume.
use mathlib.Core.Path.{subst}
use graph_ingest_test.Prelude.{
  ℕ, ◌≡◌, refl, sym, ◌∙◌, List, [], ◌∷◌, ◌++◌, Bool, true, false, ◌||◌, ◌==◌, any_of-append, inl,
  inr, Bool-cases,
}
use graph_ingest_test.Checkpoint.{
  File, absent, torn, whole, has_batch, Manifest, Disk, Name, manifest_name, manifest_tmp_name,
  batch_name, batch_tmp_name, batch_replaced, at, remove, apply, apply_all, write_manifest,
  add_done, save_batch, clear_checkpoint,
}
use graph_ingest_test.Checkpoint.Writes.{
  Holds, IsReadable, at_same, at_induction, Always, Always-last,
}

-- `Allowed total size i b`: batch `i` under that shape may be `b`. The batches that a manifest calls
-- done are missing or are allowed under its shape.
module _ {B : Type 0} (Allowed : ℕ → ℕ → ℕ → B → Type 0) where
  abbrev pub Recorded : Manifest → (ℕ → File B) → Type 0
  Recorded m f =
      (i : ℕ)
      → has_batch i m.batches_done ≡ true
      → Holds (Allowed m.total_batches m.batch_size i) (f i)

  pub record IsSafe (d : Disk B) : Type 0 where
    pub manifest_readable : IsReadable d.manifest
    pub batches_readable : (i : ℕ) → IsReadable (d.batch i)
    pub recorded : (m : Manifest) → d.manifest ≡ whole m → Recorded m d.batch

  remove-IsSafe : (n : Name) (d : Disk B) → IsSafe d → IsSafe (remove n d)
  unfolding remove
  remove-IsSafe manifest_name d s = record {
    manifest_readable = IsReadable.missing;
    batches_readable = s.batches_readable;
    recorded = λ m e. cc;
  }
  remove-IsSafe manifest_tmp_name d s = record {
    manifest_readable = s.manifest_readable;
    batches_readable = s.batches_readable;
    recorded = s.recorded;
  }
  remove-IsSafe (batch_name i) d s = record {
    manifest_readable = s.manifest_readable;
    batches_readable =
        at_induction (λ j v. IsReadable v) i absent d.batch IsReadable.missing
          (λ j n. s.batches_readable j);
    recorded = λ m e j h.
        at_induction
          (λ j v.
            has_batch j m.batches_done ≡ true → Holds (Allowed m.total_batches m.batch_size j) v)
          i absent d.batch (λ _. Holds.missing) (λ k n. s.recorded m e k) j h;
  }
  remove-IsSafe (batch_tmp_name i) d s = record {
    manifest_readable = s.manifest_readable;
    batches_readable = s.batches_readable;
    recorded = s.recorded;
  }

  pub clear_checkpoint-IsSafe :
      (names : List Name) (d : Disk B) → IsSafe d → Always IsSafe (clear_checkpoint names) d
  unfolding clear_checkpoint apply
  clear_checkpoint-IsSafe [] d s = s
  clear_checkpoint-IsSafe (n ∷ names) d s =
      (s, clear_checkpoint-IsSafe names (remove n d) (remove-IsSafe n d s))

  -- Writes to the temporary files only.
  tmp-IsSafe :
      (d : Disk B) (m : File Manifest) (f : ℕ → File B)
      → IsSafe d
      → IsSafe (record d { manifest_tmp = m; batch_tmp = f })
  tmp-IsSafe d m f s = record {
    manifest_readable = s.manifest_readable;
    batches_readable = s.batches_readable;
    recorded = s.recorded;
  }

  pub write_manifest-IsSafe :
      (m : Manifest) (d : Disk B)
      → IsSafe d
      → Recorded m d.batch
      → Always IsSafe (write_manifest m) d
  unfolding write_manifest apply
  write_manifest-IsSafe m d s r = (
    s,
    (
      tmp-IsSafe d torn d.batch_tmp s,
      (
        tmp-IsSafe d (whole m) d.batch_tmp s,
        record {
          manifest_readable = IsReadable.there;
          batches_readable = s.batches_readable;
          recorded = λ k e. same k e;
        },
      ),
    ),
  )
    where
      same : (k : Manifest) → whole m ≡ whole k → Recorded k d.batch
      same k e = subst (λ k. Recorded k d.batch) (cc (e)) r

  -- The new file of a batch is the one of the shape on the disk.
  replaced-IsSafe :
      (i : ℕ) (b : B) (d : Disk B)
      → IsSafe d
      → ((m : Manifest) → d.manifest ≡ whole m → Allowed m.total_batches m.batch_size i b)
      → d.batch_tmp i ≡ whole b
      → IsSafe (apply (batch_replaced i) d)
  unfolding apply
  replaced-IsSafe i b d s shape e = record {
    manifest_readable = s.manifest_readable;
    batches_readable =
        at_induction (λ j v. IsReadable v) i (d.batch_tmp i) d.batch (rw e IsReadable.there)
          (λ j n. s.batches_readable j);
    recorded = λ m at_disk j h.
        at_induction
          (λ j v.
            has_batch j m.batches_done ≡ true → Holds (Allowed m.total_batches m.batch_size j) v)
          i (d.batch_tmp i) d.batch (λ _. rw e (Holds.there (shape m at_disk)))
          (λ k n. s.recorded m at_disk k) j h;
  }

  -- What the loop knows of the disk: it holds the manifest that the loop keeps.
  pub record IsHeld (m : Manifest) (d : Disk B) : Type 0 where
    pub safe : IsSafe d
    pub on_disk : d.manifest ≡ whole m

  add_done-Recorded :
      (i : ℕ) (b : B) (m : Manifest) (f : ℕ → File B)
      → Allowed m.total_batches m.batch_size i b
      → Recorded m f
      → Recorded (add_done i m) (at i (whole b) f)
  unfolding add_done has_batch
  add_done-Recorded i b m f ok r = elim (Bool-cases (has_batch i m.batches_done)) [
    | inl e ↦ rw e (λ j h.
        at_induction (λ k v. has_batch k m.batches_done ≡ true → held k v) i _ f
          (λ _. Holds.there ok) (λ k n. r k) j h)
    | inr n ↦ rw n (λ j h.
        at_induction (λ k v. has_batch k (m.batches_done ++ i ∷ []) ≡ true → held k v) i _ f
          (λ _. Holds.there ok) (λ k ne q. r k (before k ne q)) j h)
  ]
    where
      held : ℕ → File B → Type 0
      held j v = Holds (Allowed m.total_batches m.batch_size j) v

      before :
          (k : ℕ)
          → i == k ≡ false
          → has_batch k (m.batches_done ++ i ∷ []) ≡ true
          → has_batch k m.batches_done ≡ true
      before k ne q = or_false _ (rw (any_of-append (λ j. j == k) m.batches_done i, ne) at q)
        where
          or_false : (b : Bool) → b || false ≡ true → b ≡ true
          or_false true e = refl
          or_false false e = e

  pub save_batch-IsSafe :
      (i : ℕ) (b : B) (m : Manifest) (d : Disk B)
      → Allowed m.total_batches m.batch_size i b
      → IsHeld m d
      → Always IsSafe (save_batch i b m).0 d
  unfolding save_batch apply
  save_batch-IsSafe i b m d ok h = (
    h.safe,
    (
      tmp-IsSafe d d.manifest_tmp _ h.safe,
      (
        tmp-IsSafe d d.manifest_tmp _ h.safe,
        write_manifest-IsSafe (add_done i m) _
            (replaced-IsSafe i b _ (tmp-IsSafe d d.manifest_tmp _ h.safe) shape
              (at_same i _ (at i torn d.batch_tmp)))
            (subst (λ v. Recorded (add_done i m) (at i v d.batch))
              (sym (at_same i _ (at i torn d.batch_tmp)))
              (add_done-Recorded i b m d.batch ok (h.safe.recorded m h.on_disk))),
      ),
    ),
  )
    where
      shape : (k : Manifest) → d.manifest ≡ whole k → Allowed k.total_batches k.batch_size i b
      shape k e =
          subst (λ k. Allowed k.total_batches k.batch_size i b) (same k (sym h.on_disk ∙ e)) ok
        where
          same : (k : Manifest) → whole m ≡ whole k → m ≡ k
          same k e = cc

  -- The disk after `save_batch`.
  pub save_batch-IsHeld :
      (i : ℕ) (b : B) (m : Manifest) (d : Disk B)
      → Allowed m.total_batches m.batch_size i b
      → IsHeld m d
      → IsHeld (add_done i m) (apply_all (save_batch i b m).0 d)
  unfolding save_batch apply_all apply
  save_batch-IsHeld i b m d ok h = record {
    safe = Always-last IsSafe (save_batch i b m).0 d (save_batch-IsSafe i b m d ok h);
    on_disk = refl;
  }
