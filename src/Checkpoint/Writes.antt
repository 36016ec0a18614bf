-- ===== src/Checkpoint/Writes.antt =====
-- Sequences of writes to the directory, and what holds between any two of them.
use graph_ingest_test.Prelude.{
  ℕ, zero, suc, ◌≡◌, refl, List, [], ◌∷◌, ◌++◌, true, false, ◌==◌, take, inl, inr, Bool-cases,
  arith, ==_iff,
}
use graph_ingest_test.Checkpoint.{File, absent, whole, Disk, Write, at, apply, apply_all}

-- The directory before the first run.
abbrev pub empty_disk : {B : Type 0} → Disk B
empty_disk = record {
  manifest = absent;
  manifest_tmp = absent;
  batch = λ i. absent;
  batch_tmp = λ i. absent;
}

module _ {A : Type 0} where
  -- The file is missing, or holds something with the property.
  pub data Holds (P : A → Type 0) : File A → Type 0 where
    missing : Holds P absent
    there : {a : A} → P a → Holds P (whole a)

  pub data IsReadable : File A → Type 0 where
    missing : IsReadable absent
    there : {a : A} → IsReadable (whole a)

pub ==_refl : (i : ℕ) → i == i ≡ true
==_refl i = ground arith

module _ {B : Type 0} where
  pub at_same : (i : ℕ) (v : File B) (f : ℕ → File B) → at i v f i ≡ v
  unfolding at
  at_same i v f = rw (==_refl i) refl

  pub at_induction :
      (P : ℕ → File B → Type 0) (i : ℕ) (v : File B) (f : ℕ → File B)
      → P i v
      → ((j : ℕ) → i == j ≡ false → P j (f j))
      → (j : ℕ) → P j (at i v f j)
  unfolding at
  at_induction P i v f p q j = elim (Bool-cases (i == j)) [
    | inl e ↦ rw (e, ← (==_iff i j).0 e) p
    | inr n ↦ rw n (q j n)
  ]

  -- `P` holds of the disk before each write and after the last one.
  abbrev pub Always : (Disk B → Type 0) → List (Write B) → Disk B → Type 0
  Always P [] d = P d
  Always P (w ∷ ws) d = P d × Always P ws (apply w d)

  module _ (P : Disk B → Type 0) where
    pub Always-append :
        (ws vs : List (Write B)) (d : Disk B)
        → Always P ws d
        → Always P vs (apply_all ws d)
        → Always P (ws ++ vs) d
    unfolding apply_all
    Always-append [] vs d h k = k
    Always-append (w ∷ ws) vs d h k = (h.0, Always-append ws vs (apply w d) h.1 k)

    pub Always-last : (ws : List (Write B)) (d : Disk B) → Always P ws d → P (apply_all ws d)
    unfolding apply_all
    Always-last [] d h = h
    Always-last (w ∷ ws) d h = Always-last ws (apply w d) h.1

    pub Always-cut :
        (steps : ℕ) (ws : List (Write B)) (d : Disk B)
        → Always P ws d
        → P (apply_all (take steps ws) d)
    unfolding apply_all
    Always-cut zero [] d h = h
    Always-cut zero (w ∷ ws) d h = h.0
    Always-cut (suc steps) [] d h = h
    Always-cut (suc steps) (w ∷ ws) d h = Always-cut steps ws (apply w d) h.1

  pub apply_all-append :
      (ws vs : List (Write B)) (d : Disk B) → apply_all (ws ++ vs) d ≡ apply_all vs (apply_all ws d)
  unfolding apply_all
  apply_all-append [] vs d = refl
  apply_all-append (w ∷ ws) vs d = apply_all-append ws vs (apply w d)
