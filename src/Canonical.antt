-- ===== src/Canonical.antt =====
-- Bundles of extracted nodes, edges and references and their merging (graph_core/canonical_ir.py),
-- and the merging batch by batch (graph_core/pipeline.py, `index_repo`).
pub mod Batched
use graph_ingest_test.Prelude.{
  List, [], ◌∷◌, ◌++◌, Bool, true, false, ◌&&◌, ◌==◌, if◌then◌else◌, any_of, flat_map, map, Text,
  text_eq,
}
use graph_ingest_test.Prelude.Int.{ℤ, pos, negsuc}

-- The fields of the keys; `content` stands for all others.
pub record Node : Type 0 where
  pub id : Text
  pub content : Text

pub record EdgeKey : Type 0 where
  pub kind : Text
  pub src : Text
  pub dst : Text
  pub evidence_line : ℤ
  pub evidence_col : ℤ
  pub evidence_file : Text

pub record Edge : Type 0 where
  pub key : EdgeKey
  pub content : Text

pub record RefKey : Type 0 where
  pub kind : Text
  pub src : Text
  pub target_name : Text
  pub ref_file : Text
  pub ref_line : ℤ
  pub ref_col : ℤ

pub record RawRef : Type 0 where
  pub key : RefKey
  pub content : Text

pub record CanonicalBundle : Type 0 where
  pub nodes : List Node
  pub edges : List Edge
  pub refs : List RawRef

unfoldable pub eq_ℤ : ℤ → ℤ → Bool
eq_ℤ (pos a) (pos b) = a == b
eq_ℤ (negsuc a) (negsuc b) = a == b
eq_ℤ _ _ = false

unfoldable pub same_edge : EdgeKey → EdgeKey → Bool
unfolding eq_ℤ
same_edge j k =
    text_eq j.kind k.kind
    && text_eq j.src k.src
    && text_eq j.dst k.dst
    && eq_ℤ j.evidence_line k.evidence_line
    && eq_ℤ j.evidence_col k.evidence_col
    && text_eq j.evidence_file k.evidence_file

unfoldable pub same_ref : RefKey → RefKey → Bool
unfolding eq_ℤ
same_ref j k =
    text_eq j.kind k.kind
    && text_eq j.src k.src
    && text_eq j.target_name k.target_name
    && text_eq j.ref_file k.ref_file
    && eq_ℤ j.ref_line k.ref_line
    && eq_ℤ j.ref_col k.ref_col

-- A list under construction, and the set of the keys in it.
pub record Kept (A K : Type 0) : Type 0 where
  pub items : List A
  pub seen : List K

abbrev pub nothing_kept : {A K : Type 0} → Kept A K
nothing_kept = record { items = []; seen = [] }

module _ {A K : Type 0} (key : A → K) (same : K → K → Bool) where
  unfoldable pub has_key : K → List K → Bool
  has_key k seen = any_of (λ j. same j k) seen

  unfoldable pub add_item : A → Kept A K → Kept A K
  add_item x kept =
      if has_key (key x) kept.seen
      then kept
      else record { items = kept.items ++ x ∷ []; seen = key x ∷ kept.seen }

  unfoldable pub add_items : List A → Kept A K → Kept A K
  add_items [] kept = kept
  add_items (x ∷ xs) kept = add_items xs (add_item x kept)

-- `for b in bundles`
unfoldable pub merge_from :
    List CanonicalBundle → Kept Node Text → Kept Edge EdgeKey → Kept RawRef RefKey → CanonicalBundle
merge_from [] ns es rs = record { nodes = ns.items; edges = es.items; refs = rs.items }
merge_from (b ∷ bs) ns es rs =
    merge_from bs (add_items (λ n. n.id) text_eq b.nodes ns)
      (add_items (λ e. e.key) same_edge b.edges es) (add_items (λ r. r.key) same_ref b.refs rs)

unfoldable pub merge_bundles : List CanonicalBundle → CanonicalBundle
merge_bundles bundles = merge_from bundles nothing_kept nothing_kept nothing_kept

-- `all_nodes.extend(batch.nodes)` and so on, for every batch, where references are not streamed
unfoldable pub extend_all : List CanonicalBundle → CanonicalBundle
extend_all batches = record {
  nodes = flat_map (λ b. b.nodes) batches;
  edges = flat_map (λ b. b.edges) batches;
  refs = flat_map (λ b. b.refs) batches;
}

-- Each batch is merged by itself, and the merged batches once more.
unfoldable pub merge_batches : List (List CanonicalBundle) → CanonicalBundle
merge_batches batches = merge_bundles (extend_all (map merge_bundles batches) ∷ [])
