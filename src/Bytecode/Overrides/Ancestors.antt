-- ===== src/Bytecode/Overrides/Ancestors.antt =====
-- The walk over the ancestors of a class ends, and finds exactly those that the headers lead to.
use mathlib.Core.List.{reverse, Memᴰ}
use mathlib.Core.List.Memᴰ
use mathlib.Core.Logic.{⊎_elim}
use graph_ingest_test.Prelude.{
  ℕ, zero, suc, ◌+◌, ◌<◌, ◌≡◌, refl, List, [], ◌∷◌, ◌++◌, Option, none, some, Bool, true, false,
  not, ◌||◌, ◌⊎◌, inl, inr, length, length-append, arith, Bool-cases, if◌then◌else◌, any_of,
  any_of-append, any_of-Memᴰ, Memᴰ-reverse, Memᴰ-of_reverse, length-reverse, Text, text_eq,
  text_eq_iff, is_empty, find, has_text,
}
use graph_ingest_test.Prelude.Search.{open_arcs, size_of, open_arcs_nil, open_arcs-visit}
use graph_ingest_test.Prelude.Result.{ok}
use graph_ingest_test.Matcher.Index.{NodeIndex}
use graph_ingest_test.Bytecode.State.{Header}
use graph_ingest_test.Bytecode.Overrides.{
  direct_ancestors, Walk, ancestor_count, push, is_gap, visit, walk, ancestors,
}

-- x names a direct ancestor of the class.
abbrev pub IsDirect : List (Text × Header) → Text → Text → Type 0
IsDirect hierarchy binary a =
    Memᴰ a (direct_ancestors (find binary hierarchy)) × (is_empty a ≡ false)

-- The classes above one, by the headers.
pub data Ancestor (hierarchy : List (Text × Header)) (binary : Text) : Text → Type 0 where
  direct : {a : Text} → IsDirect hierarchy binary a → Ancestor hierarchy binary a
  above :
      {x a : Text}
      → Ancestor hierarchy binary x
      → IsDirect hierarchy x a
      → Ancestor hierarchy binary a

find-ancestor_count :
    (hierarchy : List (Text × Header)) (a : Text)
    → size_of ancestor_count (find a hierarchy) ≡ length (direct_ancestors (find a hierarchy))
unfolding direct_ancestors
find-ancestor_count hierarchy a = by_cases (find a hierarchy)
  where
    by_cases : (o : Option Header) → size_of ancestor_count o ≡ length (direct_ancestors o)
    by_cases none = refl
    by_cases (some h) = refl

module _ (index : NodeIndex) (hierarchy : List (Text × Header)) (binary : Text) where
  -- What is known while the walk runs.
  record Invariant (stack : List Text) (w : Walk) : Type 0 where
    sound : (a : Text) → Memᴰ a w.chain → Ancestor hierarchy binary a
    pending : (a : Text) → Memᴰ a stack → is_empty a ≡ false → Ancestor hierarchy binary a
    source : (a : Text) → IsDirect hierarchy binary a → Memᴰ a w.chain ⊎ Memᴰ a stack
    closed : (x a : Text) → Memᴰ x w.chain → IsDirect hierarchy x a → Memᴰ a w.chain ⊎ Memᴰ a stack
    gaps : w.complete ≡ not (any_of (is_gap index hierarchy) w.chain)

  -- The answer: the chain is the set of ancestors, and the flag says that none is a gap.
  pub record Finds (w : Walk) : Type 0 where
    pub sound : (a : Text) → Memᴰ a w.chain → Ancestor hierarchy binary a
    pub full : (a : Text) → Ancestor hierarchy binary a → Memᴰ a w.chain
    pub gaps : w.complete ≡ not (any_of (is_gap index hierarchy) w.chain)

  module _ (a : Text) (stack : List Text) (w : Walk) (h : Invariant (a ∷ stack) w) where
    settled :
        (x : Text)
        → is_empty a || has_text a w.chain ≡ true
        → is_empty x ≡ false
        → Memᴰ x w.chain ⊎ Memᴰ x (a ∷ stack)
        → Memᴰ x w.chain ⊎ Memᴰ x stack
    settled x seen n =
        ⊎_elim inl
          (λ m. ⊎_elim (λ e. inl (on_chain e (rw (← e, n, ◌||◌) at seen))) inr (Memᴰ.cases_cons m))
      where
        on_chain : x ≡ a → has_text x w.chain ≡ true → Memᴰ x w.chain
        on_chain e q =
            let (y, m, p) = any_of-Memᴰ (text_eq x) w.chain q in rw ((text_eq_iff x y).0 p) m

    Invariant-skip : is_empty a || has_text a w.chain ≡ true → Invariant stack w
    Invariant-skip seen = record {
      sound = h.sound;
      pending = λ x m n. h.pending x (Memᴰ.tail m) n;
      source = λ x d. settled x seen d.1 (h.source x d);
      closed = λ y x m d. settled x seen d.1 (h.closed y x m d);
      gaps = h.gaps;
    }

    moved :
        (x : Text)
        → Memᴰ x w.chain ⊎ Memᴰ x (a ∷ stack)
        → Memᴰ x (w.chain ++ a ∷ []) ⊎ Memᴰ x (push index hierarchy a stack)
    moved x =
        ⊎_elim (λ m. inl (Memᴰ.append_left (a ∷ []) m))
          (λ m.
            ⊎_elim (λ e. inl (Memᴰ.append_right w.chain (Memᴰ.head e)))
              (λ t. inr (Memᴰ.append_right (reverse (direct_ancestors (find a hierarchy))) t))
              (Memᴰ.cases_cons m))

    flag : (b c d : Bool) → c ≡ not d → (if b then false else c) ≡ not (d || b)
    flag true c true e = refl
    flag true c false e = refl
    flag false c true e = e
    flag false c false e = e

    Invariant-visit :
        is_empty a ≡ false → Invariant (push index hierarchy a stack) (visit index hierarchy a w)
    unfolding visit
    Invariant-visit n = record {
      sound = λ x m.
          ⊎_elim (h.sound x) (λ q. let e : x ≡ a = Memᴰ.eq_of_singleton q in rw e here)
            (Memᴰ.append_cases w.chain m);
      pending = λ x m k.
          ⊎_elim (λ d. above here (Memᴰ-of_reverse (direct_ancestors (find a hierarchy)) x d, k))
            (λ t. h.pending x (Memᴰ.tail t) k)
            (Memᴰ.append_cases (reverse (direct_ancestors (find a hierarchy))) m);
      source = λ x d. moved x (h.source x d);
      closed = λ y x m d.
          ⊎_elim (λ old. moved x (h.closed y x old d))
            (λ q.
              let e : y ≡ a = Memᴰ.eq_of_singleton q in
              inr (Memᴰ.append_left stack (Memᴰ-reverse _ x (rw e at (d.0)))))
            (Memᴰ.append_cases w.chain m);
      gaps = rw (any_of-append (is_gap index hierarchy) w.chain a) (
          flag (is_gap index hierarchy a) w.complete (any_of (is_gap index hierarchy) w.chain)
            h.gaps);
    }
      where
        here : Ancestor hierarchy binary a
        here = h.pending a (Memᴰ.head refl) n

  Invariant-Finds : (w : Walk) → Invariant [] w → Finds w
  Invariant-Finds w h = record { sound = h.sound; full = full; gaps = h.gaps }
    where
      drained : (x : Text) → Memᴰ x w.chain ⊎ Memᴰ x [] → Memᴰ x w.chain
      drained x = ⊎_elim (λ m. m) (λ m. absurd (Memᴰ.not-nil m))

      full : (a : Text) → Ancestor hierarchy binary a → Memᴰ a w.chain
      full a (direct d) = drained a (h.source a d)
      full a (above {x} up d) = drained a (h.closed x a (full x up) d)

  walk-nil : (fuel : ℕ) (w : Walk) → walk index hierarchy (suc fuel) [] w ≡ ok w
  unfolding walk
  walk-nil fuel w = refl

  walk-skip :
      (fuel : ℕ) (a : Text) (stack : List Text) (w : Walk)
      → is_empty a || has_text a w.chain ≡ true
      → walk index hierarchy (suc fuel) (a ∷ stack) w ≡ walk index hierarchy fuel stack w
  unfolding walk
  walk-skip fuel a stack w old = rw (old, walk) refl

  walk-visit :
      (fuel : ℕ) (a : Text) (stack : List Text) (w : Walk)
      → is_empty a || has_text a w.chain ≡ false
      → walk index hierarchy (suc fuel) (a ∷ stack) w
        ≡ walk index hierarchy fuel (push index hierarchy a stack) (visit index hierarchy a w)
  unfolding walk
  walk-visit fuel a stack w new = rw (new, walk) refl

  both_false : (b c : Bool) → b || c ≡ false → (b ≡ false) × (c ≡ false)
  both_false true c e = cc
  both_false false c e = (refl, e)

  -- The stack and the arcs that are still open shrink together.
  visit-lt :
      (a : Text) (stack : List Text) (w : Walk)
      → has_text a w.chain ≡ false
      → length (push index hierarchy a stack)
          + open_arcs ancestor_count hierarchy (visit index hierarchy a w).chain
        < length (a ∷ stack) + open_arcs ancestor_count hierarchy w.chain
  unfolding visit
  visit-lt a stack w absent = omega (
    arith,
    open_arcs-visit ancestor_count hierarchy w.chain a absent,
    find-ancestor_count hierarchy a,
    length-append (reverse (direct_ancestors (find a hierarchy))) stack,
    length-reverse (direct_ancestors (find a hierarchy)),
  )

  walk-Finds :
      (fuel : ℕ) (stack : List Text) (w : Walk)
      → Invariant stack w
      → length stack + open_arcs ancestor_count hierarchy w.chain < fuel
      → (v : Walk) × (walk index hierarchy fuel stack w ≡ ok v) × Finds v
  walk-Finds zero stack w h m = absurd (omega arith)
  walk-Finds (suc fuel) [] w h m = (w, walk-nil fuel w, Invariant-Finds w h)
  walk-Finds (suc fuel) (a ∷ stack) w h m = elim (Bool-cases (is_empty a || has_text a w.chain)) [
    | inl old ↦
        rw (walk-skip fuel a stack w old)
          (walk-Finds fuel stack w (Invariant-skip a stack w h old) (omega arith))
    | inr new ↦
        let (n, absent) = both_false _ _ new in
        rw (walk-visit fuel a stack w new) (
          walk-Finds fuel (push index hierarchy a stack) (visit index hierarchy a w)
            (Invariant-visit a stack w h n) (omega (arith, visit-lt a stack w absent)))
  ]

  start : Invariant (push index hierarchy binary []) (record { chain = []; complete = true })
  start = record {
    sound = λ a m. absurd (Memᴰ.not-nil m);
    pending = λ a m n. direct (Memᴰ-of_reverse _ a (drop_nil a m), n);
    source = λ a d. inr (Memᴰ.append_left [] (Memᴰ-reverse _ a d.0));
    closed = λ x a m d. absurd (Memᴰ.not-nil m);
    gaps = refl;
  }
    where
      drop_nil :
          (a : Text)
          → Memᴰ a (push index hierarchy binary [])
          → Memᴰ a (reverse (direct_ancestors (find binary hierarchy)))
      drop_nil a m =
          ⊎_elim (λ k. k) (λ k. absurd (Memᴰ.not-nil k))
            (Memᴰ.append_cases (reverse (direct_ancestors (find binary hierarchy))) m)

  -- The walk over the headers ends, whatever they say, cycles included; its chain holds exactly the
  -- classes that superclass and interface names lead to, and it is complete exactly when each of
  -- them was parsed or lies outside the repository.
  pub ancestors_lem : (w : Walk) × (ancestors index hierarchy binary ≡ ok w) × Finds w
  unfolding ancestors
  ancestors_lem =
      walk-Finds _ (push index hierarchy binary []) _ start
        (omega (arith, open_arcs_nil ancestor_count hierarchy))
