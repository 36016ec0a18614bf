-- ===== src/Checkpoint.antt =====
-- Checkpoints of the extraction (graph_core/checkpoint.py) and the batch loop that resumes from them
-- (graph_core/pipeline.py, `index_repo`). A write is one step on the files of a repository's
-- directory, and a crash is a run that stops between two of them.
pub mod Crashes
pub mod Resuming
pub mod Runs
pub mod Stream
pub mod Writes
use graph_ingest_test.Prelude.{
  ℕ, zero, suc, List, [], ◌∷◌, ◌++◌, Option, none, some, Bool, true, false, ◌&&◌, ◌==◌,
  if◌then◌else◌, any_of, map,
}

-- `torn` is a file that was opened for writing and not closed: loading it fails.
pub data File (A : Type 0) : Type 0 where
  absent : File A
  torn : File A
  whole : A → File A

pub record Manifest : Type 0 where
  pub total_batches : ℕ
  pub batch_size : ℕ
  pub batches_done : List ℕ

-- `<checkpoint_root>/<safe_repo_tag>/`
pub record Disk (B : Type 0) : Type 0 where
  pub manifest : File Manifest
  pub manifest_tmp : File Manifest
  pub batch : ℕ → File B
  pub batch_tmp : ℕ → File B

pub data Name : Type 0 where
  manifest_name : Name
  manifest_tmp_name : Name
  batch_name : ℕ → Name
  batch_tmp_name : ℕ → Name

-- `open(tmp_path, "w")`, the dump into it with the close, `os.replace`, and the removal of a file.
pub data Write (B : Type 0) : Type 0 where
  manifest_opened : Write B
  manifest_dumped : Manifest → Write B
  manifest_replaced : Write B
  batch_opened : ℕ → Write B
  batch_dumped : ℕ → B → Write B
  batch_replaced : ℕ → Write B
  removed : Name → Write B

-- `open`, `joblib.load`, `json.load`
unfoldable pub content : {A : Type 0} → File A → Option A
content absent = none
content torn = none
content (whole a) = some a

-- `os.path.isfile`
unfoldable pub is_file : {A : Type 0} → File A → Bool
is_file absent = false
is_file _ = true

unfoldable pub has_batch : ℕ → List ℕ → Bool
has_batch i done = any_of (λ j. j == i) done

unfoldable pub add_done : ℕ → Manifest → Manifest
unfolding has_batch
add_done i m =
    if has_batch i m.batches_done then m else record m { batches_done = m.batches_done ++ i ∷ [] }

abbrev pub fresh : ℕ → ℕ → Manifest
fresh total size = record { total_batches = total; batch_size = size; batches_done = [] }

module _ {B : Type 0} where
  unfoldable pub at : ℕ → File B → (ℕ → File B) → ℕ → File B
  at i v f j = if i == j then v else f j

  unfoldable pub remove : Name → Disk B → Disk B
  unfolding at
  remove manifest_name d = record d { manifest = absent }
  remove manifest_tmp_name d = record d { manifest_tmp = absent }
  remove (batch_name i) d = record d { batch = at i absent d.batch }
  remove (batch_tmp_name i) d = record d { batch_tmp = at i absent d.batch_tmp }

  unfoldable pub apply : Write B → Disk B → Disk B
  unfolding at remove
  apply manifest_opened d = record d { manifest_tmp = torn }
  apply (manifest_dumped m) d = record d { manifest_tmp = whole m }
  apply manifest_replaced d = record d { manifest = d.manifest_tmp; manifest_tmp = absent }
  apply (batch_opened i) d = record d { batch_tmp = at i torn d.batch_tmp }
  apply (batch_dumped i b) d = record d { batch_tmp = at i (whole b) d.batch_tmp }
  apply (batch_replaced i) d = record d {
    batch = at i (d.batch_tmp i) d.batch;
    batch_tmp = at i absent d.batch_tmp;
  }
  apply (removed n) d = remove n d

  unfoldable pub apply_all : List (Write B) → Disk B → Disk B
  apply_all [] d = d
  apply_all (w ∷ ws) d = apply_all ws (apply w d)

  unfoldable pub load_manifest : Disk B → Option Manifest
  unfolding content
  load_manifest d = content d.manifest

  unfoldable pub batch_exists : Disk B → ℕ → Bool
  unfolding is_file
  batch_exists d i = is_file (d.batch i)

  unfoldable pub load_batch : Disk B → ℕ → Option B
  unfolding content
  load_batch d i = content (d.batch i)

  -- `_write_manifest`
  unfoldable pub write_manifest : Manifest → List (Write B)
  write_manifest m = manifest_opened ∷ manifest_dumped m ∷ manifest_replaced ∷ []

  unfoldable pub save_batch : ℕ → B → Manifest → List (Write B) × Manifest
  unfolding write_manifest
  save_batch i b m = (
    batch_opened i ∷ batch_dumped i b ∷ batch_replaced i ∷ write_manifest (add_done i m),
    add_done i m,
  )

  -- `clear_checkpoint`: what `shutil.rmtree` removes, and in which order, is given. Errors are
  -- ignored, so files may stay.
  unfoldable pub clear_checkpoint : List Name → List (Write B)
  clear_checkpoint names = map removed names

  unfoldable pub start_manifest : List Name → ℕ → ℕ → Option Manifest → List (Write B) × Manifest
  unfolding write_manifest clear_checkpoint
  start_manifest names total size none = (write_manifest (fresh total size), fresh total size)
  start_manifest names total size (some m) =
      if m.total_batches == total && m.batch_size == size
      then ([], m)
      else (clear_checkpoint names ++ write_manifest (fresh total size), fresh total size)

  unfoldable pub init_manifest : List Name → ℕ → ℕ → Disk B → List (Write B) × Manifest
  init_manifest names total size d = start_manifest names total size (load_manifest d)

  -- The rounds of the batch loop from `i` on, with `left` of them to come.
  unfoldable pub extract_batches : (ℕ → B) → ℕ → ℕ → Disk B → Manifest → List (Write B)
  unfolding has_batch
  extract_batches extract zero i d m = []
  extract_batches extract (suc left) i d m = elim (has_batch i m.batches_done && batch_exists d i) [
    | true ↦ extract_batches extract left (suc i) d m
    | false ↦
        (save_batch i (extract i) m).0
        ++ extract_batches extract left (suc i) (apply_all (save_batch i (extract i) m).0 d)
            (save_batch i (extract i) m).1
  ]

  -- The writes of a run with checkpoints, up to the end of its batch loop.
  unfoldable pub run : List Name → (ℕ → B) → ℕ → ℕ → Disk B → List (Write B)
  run names extract total size d =
      (init_manifest names total size d).0
      ++ extract_batches extract total 0 (apply_all (init_manifest names total size d).0 d)
          (init_manifest names total size d).1
