-- ===== src/Canonical/Batched.antt =====
-- Merging batch by batch gives what one merge of all bundles gives.
use graph_ingest_test.Prelude.{
  ◌≡◌, refl, sym, ap, ◌∙◌, List, [], ◌∷◌, ◌++◌, append_assoc, append-nil, Bool, true, false, ◌||◌,
  ==_iff, flat_map, map, Text, text_eq, text_eq_iff, Bool-cases, inl, inr, arith,
}
use graph_ingest_test.Prelude.Int.{ℤ, pos, negsuc}
use graph_ingest_test.Canonical.{
  Node, EdgeKey, Edge, RefKey, RawRef, CanonicalBundle, eq_ℤ, same_edge, same_ref, Kept,
  nothing_kept, has_key, add_item, add_items, merge_from, merge_bundles, extend_all, merge_batches,
}

module _ {A K : Type 0} (key : A → K) (same : K → K → Bool) where
  -- The items whose key is not seen, the first one of each key.
  pub news : List K → List A → List A
  news seen [] = []
  news seen (x ∷ xs) = elim (has_key key same (key x) seen) [
    | true ↦ news seen xs
    | false ↦ x ∷ news (key x ∷ seen) xs
  ]

  add_items-append :
      (xs ys : List A) (kept : Kept A K)
      → add_items key same (xs ++ ys) kept ≡ add_items key same ys (add_items key same xs kept)
  unfolding add_items
  add_items-append [] ys kept = refl
  add_items-append (x ∷ xs) ys kept = add_items-append xs ys (add_item key same x kept)

  add_item-seen :
      (x : A) (kept : Kept A K)
      → has_key key same (key x) kept.seen ≡ true
      → add_item key same x kept ≡ kept
  unfolding add_item
  add_item-seen x kept e = rw e refl

  add_item-new :
      (x : A) (kept : Kept A K)
      → has_key key same (key x) kept.seen ≡ false
      → add_item key same x kept ≡ record { items = kept.items ++ x ∷ []; seen = key x ∷ kept.seen }
  unfolding add_item
  add_item-new x kept n = rw n refl

  items-add_items :
      (xs : List A) (kept : Kept A K)
      → (add_items key same xs kept).items ≡ kept.items ++ news kept.seen xs
  unfolding add_items news
  items-add_items [] kept = sym (append-nil kept.items)
  items-add_items (x ∷ xs) kept = elim (Bool-cases (has_key key same (key x) kept.seen)) [
    | inl e ↦
        ap (λ k. (add_items key same xs k).items) (add_item-seen x kept e)
        ∙ rw (e, news) (items-add_items xs kept)
    | inr n ↦
        let grown : Kept A K = record { items = kept.items ++ x ∷ []; seen = key x ∷ kept.seen } in
        ap (λ k. (add_items key same xs k).items) (add_item-new x kept n)
        ∙ rw (n, news)
            (items-add_items xs grown
              ∙ append_assoc kept.items (x ∷ []) (news (key x ∷ kept.seen) xs))
  ]

  module _ (sound : (j k : K) → same j k ≡ true → j ≡ k) where
    -- What is dropped as seen before would have been dropped later anyway.
    news-news :
        (t s : List K) (xs before after : List A)
        → ((k : K) → has_key key same k t ≡ true → has_key key same k s ≡ true)
        → ((s : List K) → news s before ≡ news s after)
        → news s (news t xs ++ before) ≡ news s (xs ++ after)
    unfolding news has_key
    news-news t s [] before after sub h = h s
    news-news t s (x ∷ xs) before after sub h = elim (Bool-cases (has_key key same (key x) t)) [
      | inl e ↦ rw (e, sub (key x) e, news) (news-news t s xs before after sub h)
      | inr n ↦
          rw (n, news)
            (elim (Bool-cases (has_key key same (key x) s)) [
              | inl e ↦ rw (e, news) (news-news (key x ∷ t) s xs before after (grown e) h)
              | inr m ↦
                  rw (m, news)
                    (ap (λ r. x ∷ r) (news-news (key x ∷ t) (key x ∷ s) xs before after both h))
            ])
    ]
      where
        grown :
            has_key key same (key x) s ≡ true
            → (k : K) → has_key key same k (key x ∷ t) ≡ true
            → has_key key same k s ≡ true
        grown e k m = elim (Bool-cases (same (key x) k)) [
          | inl q ↦ rw (← sound (key x) k q) e
          | inr n ↦ sub k (rw (n, ◌||◌) at m)
        ]

        both :
            (k : K) → has_key key same k (key x ∷ t) ≡ true → has_key key same k (key x ∷ s) ≡ true
        both k m = elim (Bool-cases (same (key x) k)) [
          | inl q ↦ rw (q, ◌||◌) refl
          | inr n ↦ rw (n, ◌||◌) (sub k (rw (n, ◌||◌) at m))
        ]

    -- The batches that `merge_batches` makes of lists of items.
    news-batches :
        {G : Type 0} (items : G → List A) (groups : List (List G)) (s : List K)
        → news s (flat_map (λ g. news [] (flat_map items g)) groups)
          ≡ news s (flat_map items (flat_map (λ g. g) groups))
    unfolding has_key news
    news-batches items [] s = refl
    news-batches {G} items (g ∷ groups) s =
        news-news [] s (flat_map items g) (flat_map (λ g. news [] (flat_map items g)) groups)
          (flat_map items (flat_map (λ g. g) groups)) (λ k m. none m) (news-batches items groups)
        ∙ ap (news s) (sym (flat_map-append g (flat_map (λ g. g) groups)))
      where
        none : {b : Bool} → false ≡ true → b ≡ true
        none m = cc

        flat_map-append :
            (xs ys : List G) → flat_map items (xs ++ ys) ≡ flat_map items xs ++ flat_map items ys
        flat_map-append [] ys = refl
        flat_map-append (x ∷ xs) ys =
            ap (λ t. items x ++ t) (flat_map-append xs ys)
            ∙ sym (append_assoc (items x) (flat_map items xs) (flat_map items ys))

eq_ℤ_sound : (a b : ℤ) → eq_ℤ a b ≡ true → a ≡ b
unfolding eq_ℤ
eq_ℤ_sound (pos a) (pos b) h = ap pos ((==_iff a b).0 h)
eq_ℤ_sound (negsuc a) (negsuc b) h = ap negsuc ((==_iff a b).0 h)
eq_ℤ_sound (pos a) (negsuc b) h = cc
eq_ℤ_sound (negsuc a) (pos b) h = cc

same_edge_sound : (j k : EdgeKey) → same_edge j k ≡ true → j ≡ k
unfolding same_edge
same_edge_sound j k h = ground (
  arith,
  text_eq_iff j.kind k.kind,
  text_eq_iff j.src k.src,
  text_eq_iff j.dst k.dst,
  eq_ℤ_sound j.evidence_line k.evidence_line,
  eq_ℤ_sound j.evidence_col k.evidence_col,
  text_eq_iff j.evidence_file k.evidence_file,
)

same_ref_sound : (j k : RefKey) → same_ref j k ≡ true → j ≡ k
unfolding same_ref
same_ref_sound j k h = ground (
  arith,
  text_eq_iff j.kind k.kind,
  text_eq_iff j.src k.src,
  text_eq_iff j.target_name k.target_name,
  text_eq_iff j.ref_file k.ref_file,
  eq_ℤ_sound j.ref_line k.ref_line,
  eq_ℤ_sound j.ref_col k.ref_col,
)

merge_from-eq :
    (bs : List CanonicalBundle) (ns : Kept Node Text) (es : Kept Edge EdgeKey)
    (rs : Kept RawRef RefKey)
    → merge_from bs ns es rs ≡ record {
      nodes = (add_items (λ n. n.id) text_eq (flat_map (λ b. b.nodes) bs) ns).items;
      edges = (add_items (λ e. e.key) same_edge (flat_map (λ b. b.edges) bs) es).items;
      refs = (add_items (λ r. r.key) same_ref (flat_map (λ b. b.refs) bs) rs).items;
    }
unfolding merge_from add_items
merge_from-eq [] ns es rs = refl
merge_from-eq (b ∷ bs) ns es rs =
    rw
      (
        add_items-append (λ n. n.id) text_eq b.nodes (flat_map (λ b. b.nodes) bs) ns,
        add_items-append (λ e. e.key) same_edge b.edges (flat_map (λ b. b.edges) bs) es,
        add_items-append (λ r. r.key) same_ref b.refs (flat_map (λ b. b.refs) bs) rs,
      )
      (merge_from-eq bs (add_items (λ n. n.id) text_eq b.nodes ns)
        (add_items (λ e. e.key) same_edge b.edges es) (add_items (λ r. r.key) same_ref b.refs rs))

-- One merge: the first node, edge and reference of each key, in order.
merge_bundles-eq :
    (bs : List CanonicalBundle)
    → merge_bundles bs ≡ record {
      nodes = news (λ n. n.id) text_eq [] (flat_map (λ b. b.nodes) bs);
      edges = news (λ e. e.key) same_edge [] (flat_map (λ b. b.edges) bs);
      refs = news (λ r. r.key) same_ref [] (flat_map (λ b. b.refs) bs);
    }
unfolding merge_bundles
merge_bundles-eq bs =
    merge_from-eq bs nothing_kept nothing_kept nothing_kept
    ∙ rw
        (
          items-add_items (λ n. n.id) text_eq (flat_map (λ b. b.nodes) bs) nothing_kept,
          items-add_items (λ e. e.key) same_edge (flat_map (λ b. b.edges) bs) nothing_kept,
          items-add_items (λ r. r.key) same_ref (flat_map (λ b. b.refs) bs) nothing_kept,
        )
        refl

-- Merging each batch by itself and then the merged batches, as the pipeline does to keep one batch in
-- memory, gives the very bundle that one merge of all bundles gives: the same nodes, edges and
-- references, in the same order, and of several with one key the same one.
pub merge_batches-eq :
    (batches : List (List CanonicalBundle))
    → merge_batches batches ≡ merge_bundles (flat_map (λ batch. batch) batches)
unfolding merge_batches extend_all
merge_batches-eq batches =
    merge_bundles-eq (extend_all (map merge_bundles batches) ∷ [])
    ∙ (rw
          (
            append-nil,
            append-nil,
            append-nil,
            merged_nodes batches,
            merged_edges batches,
            merged_refs batches,
            news-batches (λ n. n.id) text_eq (λ j k. (text_eq_iff j k).0) (λ b. b.nodes) batches [],
            news-batches (λ e. e.key) same_edge same_edge_sound (λ b. b.edges) batches [],
            news-batches (λ r. r.key) same_ref same_ref_sound (λ b. b.refs) batches [],
          )
          refl
        ∙ sym (merge_bundles-eq (flat_map (λ batch. batch) batches)))
  where
    merged_nodes :
        (bs : List (List CanonicalBundle))
        → flat_map (λ b. b.nodes) (map merge_bundles bs)
          ≡ flat_map (λ g. news (λ n. n.id) text_eq [] (flat_map (λ b. b.nodes) g)) bs
    merged_nodes [] = refl
    merged_nodes (g ∷ bs) = rw (merge_bundles-eq g, merged_nodes bs) refl

    merged_edges :
        (bs : List (List CanonicalBundle))
        → flat_map (λ b. b.edges) (map merge_bundles bs)
          ≡ flat_map (λ g. news (λ e. e.key) same_edge [] (flat_map (λ b. b.edges) g)) bs
    merged_edges [] = refl
    merged_edges (g ∷ bs) = rw (merge_bundles-eq g, merged_edges bs) refl

    merged_refs :
        (bs : List (List CanonicalBundle))
        → flat_map (λ b. b.refs) (map merge_bundles bs)
          ≡ flat_map (λ g. news (λ r. r.key) same_ref [] (flat_map (λ b. b.refs) g)) bs
    merged_refs [] = refl
    merged_refs (g ∷ bs) = rw (merge_bundles-eq g, merged_refs bs) refl
