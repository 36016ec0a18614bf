-- ===== src/Reach/Propagate/Exact.antt =====
-- What the fixpoint loop of analysis/reach.py marks.
use graph_ingest_test.Prelude.{
  ◌≡◌, refl, sym, ap, ◌∙◌, List, Bool, true, false, not, ◌&&◌, if◌then◌else◌, map, Text, text_eq,
  text_eq_iff, text_eq_refl, Bool-cases, inl, inr, any_of-Memᴰ, Memᴰ-any_of, Memᴰ-of_map, Memᴰ-map,
}
use mathlib.Core.Path.{subst}
use mathlib.Core.List.{Memᴰ}
use graph_ingest_test.Reach.Propagate.{Marking, Arc, marked_id, has_node, is_new, step}

pub and_true : (a b : Bool) → a && b ≡ true → (a ≡ true) × (b ≡ true)
and_true true b h = (refl, h)
and_true false b h = cc

module _ {F : Type 0} (M : Marking F) where
  open M use {id, marked, mark, id-mark, marked-mark}

  -- From a marked node over the arcs to nodes that exist.
  pub data Reached (arcs : List Arc) (fs : List F) : Text → Type 0 where
    seed : {i : Text} → marked_id M fs i ≡ true → Reached arcs fs i
    hop :
        {i j : Text}
        → Reached arcs fs i
        → Memᴰ (i, j) arcs
        → has_node M fs j ≡ true
        → Reached arcs fs j

  -- A marked node of that id.
  node_of :
      (fs : List F) (i : Text)
      → marked_id M fs i ≡ true
      → (f : F) × Memᴰ f fs × (id f ≡ i) × (marked f ≡ true)
  unfolding marked_id
  node_of fs i h =
      let (f, m, e) = any_of-Memᴰ (λ f. text_eq (id f) i && marked f) fs h in
      let (same, mk) = and_true _ _ e in (f, m, (text_eq_iff (id f) i).0 same, mk)

  pub marked_of : (fs : List F) (f : F) → Memᴰ f fs → marked f ≡ true → marked_id M fs (id f) ≡ true
  unfolding marked_id
  marked_of fs f m h =
      Memᴰ-any_of (λ g. text_eq (id g) (id f) && marked g) fs f m (rw (text_eq_refl (id f), h) refl)

  node_there : (fs : List F) (f : F) → Memᴰ f fs → has_node M fs (id f) ≡ true
  unfolding has_node
  node_there fs f m = Memᴰ-any_of (λ g. text_eq (id g) (id f)) fs f m (text_eq_refl (id f))

  pub there_node :
      (fs : List F) (i : Text) → has_node M fs i ≡ true → (f : F) × Memᴰ f fs × (id f ≡ i)
  unfolding has_node
  there_node fs i h =
      let (f, m, e) = any_of-Memᴰ (λ g. text_eq (id g) i) fs h in (f, m, (text_eq_iff (id f) i).0 e)

  module _ (arcs : List Arc) where
    abbrev pub after : List F → F → F
    after fs f = if is_new M arcs fs f then mark f else f

    id-after : (fs : List F) (f : F) → id (after fs f) ≡ id f
    id-after fs f = elim (Bool-cases (is_new M arcs fs f)) [
      | inl e ↦ rw e (id-mark f)
      | inr e ↦ rw e refl
    ]

    marked-after : (fs : List F) (f : F) → marked f ≡ true → marked (after fs f) ≡ true
    marked-after fs f h = elim (Bool-cases (is_new M arcs fs f)) [
      | inl e ↦ rw e (marked-mark f)
      | inr e ↦ rw e h
    ]

    -- Marks and nodes stay.
    pub marked_id-step :
        (fs : List F) (i : Text) → marked_id M fs i ≡ true → marked_id M (step M arcs fs) i ≡ true
    unfolding step
    marked_id-step fs i h =
        let (f, m, e, mk) = node_of fs i h in
        subst (λ j. marked_id M (map (after fs) fs) j ≡ true) (id-after fs f ∙ e)
          (marked_of (map (after fs) fs) (after fs f) (Memᴰ-map (after fs) fs f m)
            (marked-after fs f mk))

    has_node-step :
        (fs : List F) (i : Text) → has_node M fs i ≡ true → has_node M (step M arcs fs) i ≡ true
    unfolding step
    has_node-step fs i h =
        let (f, m, e) = there_node fs i h in
        subst (λ j. has_node M (map (after fs) fs) j ≡ true) (id-after fs f ∙ e)
          (node_there (map (after fs) fs) (after fs f) (Memᴰ-map (after fs) fs f m))

    step-has_node :
        (fs : List F) (i : Text) → has_node M (step M arcs fs) i ≡ true → has_node M fs i ≡ true
    unfolding step
    step-has_node fs i h =
        let (g, m, e) = there_node (map (after fs) fs) i h in
        let (f, n, p) = Memᴰ-of_map (after fs) fs g m in
        subst (λ j. has_node M fs j ≡ true) (sym (id-after fs f) ∙ (ap id (sym p) ∙ e))
          (node_there fs f n)

    -- A new mark comes over an arc from a marked node.
    is_new-hop :
        (fs : List F) (f : F) → Memᴰ f fs → is_new M arcs fs f ≡ true → Reached arcs fs (id f)
    unfolding is_new
    is_new-hop fs f m h =
        let (arc, at, e) = any_of-Memᴰ _ arcs (and_true (not (marked f)) _ h).1 in
        let (same, from) = and_true _ _ e in
        subst (Reached arcs fs) ((text_eq_iff arc.1 (id f)).0 same)
          (hop (seed from) at (rw ((text_eq_iff arc.1 (id f)).0 same) (node_there fs f m)))

    pub step-seed :
        (fs : List F) (i : Text) → marked_id M (step M arcs fs) i ≡ true → Reached arcs fs i
    unfolding step
    step-seed fs i h =
        let (g, m, e, mk) = node_of (map (after fs) fs) i h in
        let (f, n, p) = Memᴰ-of_map (after fs) fs g m in
        let here : id f ≡ i = sym (id-after fs f) ∙ (ap id (sym p) ∙ e) in
        subst (Reached arcs fs) here (elim (Bool-cases (is_new M arcs fs f)) [
          | inl new ↦ is_new-hop fs f n new
          | inr old ↦ seed (marked_of fs f n (rw old at (rw p at mk)))
        ])

    -- One round changes nothing about what can be reached.
    pub Reached-step :
        (fs : List F) (i : Text) → Reached arcs fs i → Reached arcs (step M arcs fs) i
    Reached-step fs i (seed h) = seed (marked_id-step fs i h)
    Reached-step fs i (hop {i = j} r m n) = hop (Reached-step fs j r) m (has_node-step fs i n)

    pub step-Reached :
        (fs : List F) (i : Text) → Reached arcs (step M arcs fs) i → Reached arcs fs i
    step-Reached fs i (seed h) = step-seed fs i h
    step-Reached fs i (hop {i = j} r m n) = hop (step-Reached fs j r) m (step-has_node fs i n)
