-- ===== src/Classfile/Reader/RoundTrip.antt =====
-- Reading back what was written, for every parser that is built from the cursor of classfile.py.
use graph_ingest_test.Prelude.{
  ℕ, ◌+◌, ◌/◌, ◌%◌, ◌≡◌, refl, ap, List, [], ◌∷◌, ◌++◌, length, take-append, drop-append,
  length-append, append_assoc, append-nil, arith, ltb, Bool, false, All, flat_map, map,
}
use graph_ingest_test.Prelude.Result.{Result, ok}
use graph_ingest_test.Classfile.Reader.{
  Reader, M, ◌>>=◌, pure, lift, take_bytes, u1, u2, u4, skip, repeat, run,
}

-- The cursor between the bytes that were read and those that were not.
pub between : List ℕ → List ℕ → Reader
between before behind = record { bytes = before ++ behind; pos = length before }

-- From `bs` on, `m` reads all of `bs` and nothing more, and returns `v`.
pub record Reads {A : Type 0} (m : M A) (bs : List ℕ) (v : A) : Type 0 where
  pub at :
      (before rest : List ℕ) → m (between before (bs ++ rest)) ≡ ok (v, between (before ++ bs) rest)

-- How the cursor moves over `bs`.
pub between-advance :
    (before bs rest : List ℕ)
    → record { bytes = before ++ (bs ++ rest); pos = length before + length bs }
      ≡ between (before ++ bs) rest
unfolding between
between-advance before bs rest = simp (append_assoc, length-append)

module _ {A B : Type 0} {m : M A} (f : A → M B) {bs cs : List ℕ} {v : A} {w : B} where
  pub Reads-bind : Reads m bs v → Reads (f v) cs w → Reads (m >>= f) (bs ++ cs) w
  Reads-bind first next = record {
    at = λ before rest.
        rw
          (
            append_assoc bs cs rest,
            first.at before (cs ++ rest),
            ◌>>=◌,
            ← append_assoc before bs cs,
          )
          (next.at (before ++ bs) rest);
  }

-- The rest reads nothing.
module _ {A B : Type 0} {m : M A} (f : A → M B) {bs : List ℕ} {v : A} {w : B} where
  pub Reads-last : Reads m bs v → Reads (f v) [] w → Reads (m >>= f) bs w
  Reads-last first next = record {
    at = λ before rest.
        rw (first.at before rest, ◌>>=◌) (rw append-nil at (next.at (before ++ bs) rest));
  }

pub Reads-take : (bs : List ℕ) → Reads (take_bytes (length bs)) bs bs
unfolding take_bytes between
Reads-take bs = record {
  at = λ before rest. rw (fits before rest, drop-append, take-append, between-advance) refl;
}
  where
    fits :
        (before rest : List ℕ)
        → ◌≡◌ {A = Bool} (ltb (length (before ++ (bs ++ rest))) (length before + length bs)) false
    fits before rest = ground (arith, length-append before (bs ++ rest), length-append bs rest)

pub Reads-pure : {A : Type 0} (v : A) → Reads (pure v) [] v
Reads-pure v = record { at = λ before rest. rw append-nil }

pub Reads-lift : {A : Type 0} {e : Result A} {v : A} → e ≡ ok v → Reads (lift e) [] v
Reads-lift h = record { at = λ before rest. rw (h, append-nil) }

-- A step that returns without reading.
pub Reads-given :
    {A B : Type 0} {e : Result A} {v : A} (f : A → M B) {bs : List ℕ} {w : B}
    → e ≡ ok v
    → Reads (f v) bs w
    → Reads (lift e >>= f) bs w
Reads-given f h next = Reads-bind f (Reads-lift h) next

-- `n` in two and in four bytes, the high one first.
abbrev pub be16 : ℕ → List ℕ
be16 n = n / 256 ∷ n % 256 ∷ []

abbrev pub be32 : ℕ → List ℕ
be32 n = n / 0x1000000 ∷ n / 0x10000 % 256 ∷ n / 256 % 256 ∷ n % 256 ∷ []

pub Reads-u1 : (n : ℕ) → Reads u1 (n ∷ []) n
unfolding u1
Reads-u1 n = Reads-bind _ (Reads-take (n ∷ [])) (Reads-lift refl)

pub Reads-u2 : (n : ℕ) → Reads u2 (be16 n) n
unfolding u2
Reads-u2 n = Reads-bind _ (Reads-take (be16 n)) (Reads-lift (ap ok (omega arith)))

pub Reads-u4 : (n : ℕ) → Reads u4 (be32 n) n
unfolding u4
Reads-u4 n = Reads-bind _ (Reads-take (be32 n)) (Reads-lift (ap ok (omega arith)))

pub Reads-skip : (bs : List ℕ) → Reads (skip (length bs)) bs tt
unfolding skip between
Reads-skip bs = record { at = λ before rest. rw (fits before rest, between-advance) refl }
  where
    fits :
        (before rest : List ℕ)
        → ◌≡◌ {A = Bool} (ltb (length (before ++ (bs ++ rest))) (length before + length bs)) false
    fits before rest = ground (arith, length-append before (bs ++ rest), length-append bs rest)

-- A counted list of items, each written by `write` and read back as `read`.
module _ {A B : Type 0} (item : M A) (write : B → List ℕ) (read : B → A) where
  pub Reads-repeat :
      (xs : List B)
      → All (λ x. Reads item (write x) (read x)) xs
      → Reads (repeat (length xs) item) (flat_map write xs) (map read xs)
  unfolding repeat
  Reads-repeat [] h = Reads-pure []
  Reads-repeat (x ∷ xs) h =
      Reads-bind _ h.0 (Reads-last _ (Reads-repeat xs h.1) (Reads-pure (read x ∷ map read xs)))

-- What stands behind the bytes that are read makes no difference.
pub run-Reads :
    {A : Type 0} (m : M A) {bs : List ℕ} {v : A} (rest : List ℕ)
    → Reads m bs v
    → run m (bs ++ rest) ≡ ok v
unfolding run between
run-Reads m rest h = rw (h.at [] rest, run) refl
