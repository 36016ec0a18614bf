-- ===== src/Checkpoint/Runs.antt =====
-- A whole run of the batch loop, cut anywhere, keeps the directory safe.
use mathlib.Core.List.{Memᴰ}
use graph_ingest_test.Prelude.{
  ℕ, zero, suc, ◌≡◌, refl, ◌∙◌, List, [], ◌∷◌, ◌++◌, Option, none, some, ◌&&◌, ◌==◌, take, inl, inr,
  Bool-cases, arith,
}
use graph_ingest_test.Checkpoint.{
  File, absent, torn, whole, content, has_batch, Manifest, Disk, Name, Write, apply, apply_all,
  load_manifest, batch_exists, write_manifest, add_done, fresh, save_batch, clear_checkpoint,
  start_manifest, init_manifest, extract_batches, run,
}
use graph_ingest_test.Checkpoint.Writes.{
  IsReadable, Always, Always-append, Always-last, Always-cut, apply_all-append, empty_disk,
}
use graph_ingest_test.Checkpoint.Crashes.{
  IsSafe, IsHeld, clear_checkpoint-IsSafe, write_manifest-IsSafe, save_batch-IsSafe,
  save_batch-IsHeld,
}

pub content-some : {A : Type 0} (f : File A) (a : A) → content f ≡ some a → f ≡ whole a
unfolding content
content-some absent a e = cc
content-some torn a e = cc
content-some (whole b) a e = cc

write_manifest-manifest :
    {B : Type 0} (m : Manifest) (d : Disk B) → (apply_all (write_manifest m) d).manifest ≡ whole m
unfolding write_manifest apply_all apply
write_manifest-manifest m d = refl

module _ {B : Type 0} (Allowed : ℕ → ℕ → ℕ → B → Type 0) where
  pub add_done-shape :
      (i : ℕ) (m : Manifest)
      → ((add_done i m).total_batches ≡ m.total_batches)
        × ((add_done i m).batch_size ≡ m.batch_size)
  unfolding add_done
  add_done-shape i m = elim (Bool-cases (has_batch i m.batches_done)) [
    | inl e ↦ rw e (refl, refl)
    | inr n ↦ rw n (refl, refl)
  ]

  extract_batches-IsSafe :
      (extract : ℕ → B) (total size left i : ℕ) (d : Disk B) (m : Manifest)
      → ((i : ℕ) → Allowed total size i (extract i))
      → m.total_batches ≡ total
      → m.batch_size ≡ size
      → IsHeld Allowed m d
      → Always (IsSafe Allowed) (extract_batches extract left i d m) d
  unfolding extract_batches save_batch
  extract_batches-IsSafe extract total size zero i d m ok t b h = h.safe
  extract_batches-IsSafe extract total size (suc left) i d m ok t b h =
      elim (Bool-cases (has_batch i m.batches_done && batch_exists d i)) [
        | inl e ↦
            rw (e, extract_batches)
              (extract_batches-IsSafe extract total size left (suc i) d m ok t b h)
        | inr n ↦
            rw (n, extract_batches)
              (Always-append (IsSafe Allowed) (save_batch i (extract i) m).0 _ d
                (save_batch-IsSafe Allowed i (extract i) m d (rw (t, b) (ok i)) h)
                (extract_batches-IsSafe extract total size left (suc i) _ (add_done i m) ok
                  ((add_done-shape i m).0 ∙ t) ((add_done-shape i m).1 ∙ b)
                  (save_batch-IsHeld Allowed i (extract i) m d (rw (t, b) (ok i)) h)))
      ]

  -- The writes of `init_manifest` and the manifest that it returns.
  pub record Started (total size : ℕ) (d : Disk B) (p : List (Write B) × Manifest) : Type 0 where
    pub safe : Always (IsSafe Allowed) p.0 d
    pub held : IsHeld Allowed p.1 (apply_all p.0 d)
    pub total_same : p.1.total_batches ≡ total
    pub size_same : p.1.batch_size ≡ size

  -- After a manifest with no batch done was written.
  fresh-Started :
      (total size : ℕ) (d : Disk B)
      → IsSafe Allowed d
      → Started total size d (write_manifest (fresh total size), fresh total size)
  unfolding has_batch
  fresh-Started total size d s =
      let always = write_manifest-IsSafe Allowed (fresh total size) d s (λ i h. cc) in
      record {
        safe = always;
        held = record {
          safe = Always-last (IsSafe Allowed) (write_manifest (fresh total size)) d always;
          on_disk = write_manifest-manifest (fresh total size) d;
        };
        total_same = refl;
        size_same = refl;
      }

  start_manifest-Started :
      (names : List Name) (total size : ℕ) (d : Disk B) (o : Option Manifest)
      → IsSafe Allowed d
      → content d.manifest ≡ o
      → Started total size d (start_manifest names total size o)
  unfolding start_manifest apply_all
  start_manifest-Started names total size d none s e = fresh-Started total size d s
  start_manifest-Started names total size d (some m) s e =
      elim (Bool-cases (m.total_batches == total && m.batch_size == size)) [
        | inl q ↦ rw q (record {
          safe = s;
          held = record { safe = s; on_disk = content-some d.manifest m e };
          total_same = ground arith;
          size_same = ground arith;
        })
        | inr n ↦ rw n (restarted (clear_checkpoint-IsSafe Allowed names d s))
      ]
    where
      restarted :
          Always (IsSafe Allowed) (clear_checkpoint names) d
          → Started total size d
              (clear_checkpoint names ++ write_manifest (fresh total size), fresh total size)
      restarted cleared =
          let begun =
            fresh-Started total size (apply_all (clear_checkpoint names) d)
              (Always-last (IsSafe Allowed) (clear_checkpoint names) d cleared) in
          record {
            safe =
                Always-append (IsSafe Allowed) (clear_checkpoint names)
                  (write_manifest (fresh total size)) d cleared begun.safe;
            held =
                rw (apply_all-append (clear_checkpoint names) (write_manifest (fresh total size)) d)
                  begun.held;
            total_same = refl;
            size_same = refl;
          }

  pub init_manifest-Started :
      (names : List Name) (total size : ℕ) (d : Disk B)
      → IsSafe Allowed d
      → Started total size d (init_manifest names total size d)
  unfolding init_manifest load_manifest
  init_manifest-Started names total size d s =
      start_manifest-Started names total size d (content d.manifest) s refl

  run-IsSafe :
      (names : List Name) (extract : ℕ → B) (total size : ℕ) (d : Disk B)
      → ((i : ℕ) → Allowed total size i (extract i))
      → IsSafe Allowed d
      → Always (IsSafe Allowed) (run names extract total size d) d
  unfolding run
  run-IsSafe names extract total size d ok s =
      let h = init_manifest-Started names total size d s in
      Always-append (IsSafe Allowed) (init_manifest names total size d).0
        (extract_batches extract total 0 (apply_all (init_manifest names total size d).0 d)
          (init_manifest names total size d).1)
        d h.safe
        (extract_batches-IsSafe extract total size total 0
          (apply_all (init_manifest names total size d).0 d) (init_manifest names total size d).1 ok
          h.total_same h.size_same h.held)

-- A run: the number and the size of its batches, and what it extracts each batch to.
pub record Run (B : Type 0) : Type 0 where
  pub total_batches : ℕ
  pub batch_size : ℕ
  pub extract : ℕ → B

unfoldable pub writes_of : {B : Type 0} → List Name → Run B → Disk B → List (Write B)
writes_of names r d = run names r.extract r.total_batches r.batch_size d

-- The directories that some runs leave, the last one first: each with contents of its own, each
-- stopped after some of its writes; and clean-ups that stop after some of their removals.
pub data Survives {B : Type 0} : List (Run B) → Disk B → Type 0 where
  new : Survives [] empty_disk
  crashed :
      {rs : List (Run B)} {d : Disk B}
      → Survives rs d
      → (names : List Name) (r : Run B) (steps : ℕ)
      → Survives (r ∷ rs) (apply_all (take steps (writes_of names r d)) d)
  cleared :
      {rs : List (Run B)} {d : Disk B}
      → Survives rs d
      → (names : List Name) (steps : ℕ)
      → Survives rs (apply_all (take steps (clear_checkpoint names)) d)

-- Some run among these, with that shape, extracts batch `i` to `b`.
pub record Extracted {B : Type 0} (rs : List (Run B)) (total size i : ℕ) (b : B) : Type 0 where
  pub by : Run B
  pub among : Memᴰ by rs
  pub total_batches : by.total_batches ≡ total
  pub batch_size : by.batch_size ≡ size
  pub gives : by.extract i ≡ b

pub own :
    {B : Type 0} (rs : List (Run B)) (r : Run B) (i : ℕ)
    → Memᴰ r rs
    → Extracted rs r.total_batches r.batch_size i (r.extract i)
own rs r i m = record { by = r; among = m; total_batches = refl; batch_size = refl; gives = refl }

pub Survives-IsSafe :
    {B : Type 0} {rs : List (Run B)} {d : Disk B} (all : List (Run B))
    → Survives rs d
    → ((r : Run B) → Memᴰ r rs → Memᴰ r all)
    → IsSafe (Extracted all) d
unfolding writes_of
Survives-IsSafe all new sub = record {
  manifest_readable = IsReadable.missing;
  batches_readable = λ i. IsReadable.missing;
  recorded = λ m e. cc;
}
Survives-IsSafe all (crashed {d} h names r steps) sub =
    Always-cut (IsSafe (Extracted all)) steps (run names r.extract r.total_batches r.batch_size d) d
      (run-IsSafe (Extracted all) names r.extract r.total_batches r.batch_size d
        (λ i. own all r i (sub r (Memᴰ.head refl)))
        (Survives-IsSafe all h (λ q m. sub q (Memᴰ.tail m))))
Survives-IsSafe all (cleared {d} h names steps) sub =
    Always-cut (IsSafe (Extracted all)) steps (clear_checkpoint names) d
      (clear_checkpoint-IsSafe (Extracted all) names d (Survives-IsSafe all h sub))
