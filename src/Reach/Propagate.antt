-- ===== src/Reach/Propagate.antt =====
-- The fixpoint loop that analysis/reach.py runs twice: `mark_reaches_sink` from callees to callers
-- and `mark_from_entry` from callers to callees. A query reads the graph before it sets a mark.
pub mod Exact
pub mod Rounds
use graph_ingest_test.Prelude.{
  ℕ, zero, suc, ◌+◌, ◌≡◌, List, [], ◌∷◌, Bool, true, false, not, ◌&&◌, if◌then◌else◌, ◌==◌, any_of,
  map, Text, text_eq,
}

-- A kind of node with an id and a mark.
pub record Marking (F : Type 0) : Type 0 where
  pub id : F → Text
  pub marked : F → Bool
  pub mark : F → F
  pub id-mark : (f : F) → id (mark f) ≡ id f
  pub marked-mark : (f : F) → marked (mark f) ≡ true

-- A trusted edge, from the end that gives the mark to the one that takes it.
abbrev pub Arc : Type 0
Arc = Text × Text

pub record Outcome (F : Type 0) : Type 0 where
  pub nodes : List F
  pub iterations : ℕ
  pub propagated : ℕ
  -- false where the loop ran into the iteration guard
  pub converged : Bool

module _ {F : Type 0} (M : Marking F) where
  open M use {id, marked, mark}

  -- Some node with that id is marked.
  unfoldable pub marked_id : List F → Text → Bool
  marked_id fs i = any_of (λ f. text_eq (id f) i && marked f) fs

  pub has_node : List F → Text → Bool
  has_node fs i = any_of (λ f. text_eq (id f) i) fs

  module _ (arcs : List Arc) where
    -- The MATCH and WHERE of the query, for one node.
    pub is_new : List F → F → Bool
    is_new fs f = not (marked f) && any_of (λ arc. text_eq arc.1 (id f) && marked_id fs arc.0) arcs

    -- SET
    unfoldable pub step : List F → List F
    step fs = map (λ f. if is_new fs f then mark f else f) fs

    pub count_new : List F → List F → ℕ
    count_new fs [] = 0
    count_new fs (f ∷ rest) = if is_new fs f then suc (count_new fs rest) else count_new fs rest

    -- RETURN count(f)
    pub newly : List F → ℕ
    newly fs = count_new fs fs

    -- `while iterations < _MAX_ITERATIONS`, by the rounds that are left.
    unfoldable pub loop : ℕ → List F → ℕ → ℕ → Outcome F
    loop zero fs iterations total = record {
      nodes = fs;
      iterations = iterations;
      propagated = total;
      converged = false;
    }
    loop (suc left) fs iterations total = elim (newly fs == 0) [
      | true ↦ record {
        nodes = step fs;
        iterations = suc iterations;
        propagated = total + newly fs;
        converged = true;
      }
      | false ↦ loop left (step fs) (suc iterations) (total + newly fs)
    ]

abbrev pub max_iterations : ℕ
max_iterations = 50
