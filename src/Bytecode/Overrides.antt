-- ===== src/Bytecode/Overrides.antt =====
-- OVERRIDES by erased descriptor (graph_core/bytecode_resolver.py: `_direct_ancestors`, and the loop
-- over `declared_methods` in `resolve_java_bytecode`).
pub mod Ancestors
pub mod Claimed
pub mod Emitted
pub mod Sound
use graph_ingest_test.Prelude.{
  ℕ, zero, suc, ◌+◌, List, [], ◌∷◌, ◌++◌, Option, none, some, Bool, true, false, ◌&&◌, ◌||◌,
  if◌then◌else◌, any_of, length, Text, text_eq, is_empty, find, has_text, add_text,
}
use mathlib.Core.List.{reverse}
use graph_ingest_test.Prelude.Result.{Result, ok, err, out_of_fuel, ◌>>=◌}
use graph_ingest_test.Prelude.Search.{arcs}
use graph_ingest_test.Classfile.Shapes.{MethodInfo}
use graph_ingest_test.Matcher.Index.{NodeIndex, class_id, file_of}
use graph_ingest_test.Matcher.Lookup.{override_target}
use graph_ingest_test.Bytecode.State.{
  Edge, overrides, emit, is_new, count_new, Counts, Header, Declared, Pass, Setting,
}

-- `_direct_ancestors`
unfoldable pub direct_ancestors : Option Header → List Text
direct_ancestors none = []
direct_ancestors (some h) =
    if is_empty h.super_name then h.interfaces else h.super_name ∷ h.interfaces

-- The chain, and whether every class of the repository on it was parsed. `visited` is the set of
-- the names on the chain.
pub record Walk : Type 0 where
  pub chain : List Text
  pub complete : Bool

abbrev pub ancestor_count : Header → ℕ
ancestor_count h = length (direct_ancestors (some h))

module _ (index : NodeIndex) (hierarchy : List (Text × Header)) where
  -- `stack.extend(...)`, with the top of the stack in front.
  abbrev pub push : Text → List Text → List Text
  push anc stack = reverse (direct_ancestors (find anc hierarchy)) ++ stack

  -- An ancestor that was not parsed ends the chain; it is a gap if it is in the repository.
  unfoldable pub is_gap : Text → Bool
  unfolding find
  is_gap anc = elim (find anc hierarchy) [
    | some h ↦ false
    | none ↦ if is_empty (class_id index anc) then false else true
  ]

  unfoldable pub visit : Text → Walk → Walk
  visit anc w = record {
    chain = w.chain ++ anc ∷ [];
    complete = (if is_gap anc then false else w.complete);
  }

  -- `while stack`
  unfoldable pub walk : ℕ → List Text → Walk → Result Walk
  unfolding find
  walk zero stack w = err out_of_fuel
  walk (suc fuel) [] w = ok w
  walk (suc fuel) (anc ∷ stack) w = elim (is_empty anc || has_text anc w.chain) [
    | true ↦ walk fuel stack w
    | false ↦ walk fuel (push anc stack) (visit anc w)
  ]

  unfoldable pub ancestors : Text → Result Walk
  ancestors binary =
      let stack = push binary [] in
      walk (suc (length stack + arcs ancestor_count hierarchy)) stack
        (record { chain = []; complete = true })

abbrev pub Pair : Type 0
Pair = Text × Text

abbrev pub same_pair : Pair → Pair → Bool
same_pair (a, b) (c, d) = text_eq a c && text_eq b d

-- `key in pairs`
abbrev pub has_pair : Pair → List Pair → Bool
has_pair k pairs = any_of (same_pair k) pairs

-- The sets that the pass hands to `pipeline._derive_overrides`.
pub record Claims : Type 0 where
  pub authoritative : List Text
  pub emitted_pairs : List Pair

abbrev pub Progress : Type 0
Progress = Pass × Claims

module _ (s : Setting) where
  abbrev pub override_edge : MethodInfo → Text → Text → Edge
  override_edge m method_id target = record {
    kind = overrides;
    src = method_id;
    dst = target;
    evidence_file = file_of s.index method_id;
    evidence_line = m.start_line;
  }

  unfoldable pub emit_override : Edge → Progress → Progress
  emit_override e (p, k) = (
    record p {
      output = emit e p.output;
      counts = record p.counts { override_edges = count_new e p.output p.counts.override_edges };
    },
    if is_new e p.output then record k { emitted_pairs = (e.src, e.dst) ∷ k.emitted_pairs } else k,
  )

  unfoldable pub override_step : Declared → Text → Progress → Progress
  override_step (m, method_id) anc g =
      let target = override_target s.index anc m.name m.descriptor in
      if is_empty target || text_eq target method_id
      then g
      else emit_override (override_edge m method_id target) g

  unfoldable pub override_chain : Declared → List Text → Progress → Progress
  override_chain d [] g = g
  override_chain d (anc ∷ chain) g = override_chain d chain (override_step d anc g)

  -- `if complete: … add(method_id)`
  unfoldable pub claim : Bool → Text → Progress → Progress
  unfolding add_text
  claim complete method_id (p, k) =
      (p, if complete then record k { authoritative = add_text method_id k.authoritative } else k)

  unfoldable pub override_methods : Walk → List Declared → Progress → Progress
  override_methods w [] g = g
  override_methods w ((m, method_id) ∷ ds) g =
      override_methods w ds (claim w.complete method_id (override_chain (m, method_id) w.chain g))

  unfoldable pub count_truncated : Walk → Progress → Progress
  count_truncated w (p, k) = (
    if w.complete then p else record p {
      counts = record p.counts {
        override_chains_truncated = suc p.counts.override_chains_truncated;
      };
    },
    k,
  )

  unfoldable pub override_classes :
      List (Text × Header) → List (Text × List Declared) → Progress → Result Progress
  override_classes hierarchy [] g = ok g
  override_classes hierarchy ((binary, ds) ∷ classes) g = do
    w ← ancestors s.index hierarchy binary
    override_classes hierarchy classes (count_truncated w (override_methods w ds g))
