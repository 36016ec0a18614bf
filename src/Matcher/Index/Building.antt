-- ===== src/Matcher/Index/Building.antt =====
-- What the tables of a built `NodeIndex` hold (graph_core/bytecode/matcher.py, `NodeIndex.build`).
use graph_ingest_test.Prelude.{
  ◌≡◌, refl, sym, ap, List, [], ◌∷◌, ◌++◌, Option, none, some, true, false, ◌&&◌, if◌then◌else◌,
  Text, codes, text_eq, text_eq_iff, ◌↔◌, arith, append_assoc, append-nil, Bool-cases, inl, inr,
}
use graph_ingest_test.Matcher.Index.{
  Node, Key, key_eq, key_of, Candidate, NodeIndex, candidates, add_candidate, add_method,
  add_by_label, add_file, has_label, is_method, add_node, add_nodes, build,
}

pub key_eq_iff : (a b : Key) → (key_eq a b ≡ true) ↔ (a ≡ b)
unfolding key_eq
key_eq_iff a b = (
  λ h. ground (arith, text_eq_iff a.class_fqn b.class_fqn, text_eq_iff a.name b.name),
  λ h. ground (
    arith,
    text_eq_iff a.class_fqn b.class_fqn,
    text_eq_iff a.name b.name,
    ap (λ (k : Key). k.class_fqn) h,
    ap (λ (k : Key). k.name) h,
    ap (λ (k : Key). k.arity) h,
  ),
)

candidates-add :
    (k j : Key) (c : Candidate) (t : List (Key × List Candidate))
    → candidates j (add_candidate k c t)
      ≡ (if key_eq k j then candidates j t ++ c ∷ [] else candidates j t)
unfolding candidates add_candidate
candidates-add k j c [] = ground arith
candidates-add k j c ((i, cs) ∷ t) =
    ground (arith, key_eq_iff i k, key_eq_iff i j, key_eq_iff k j, candidates-add k j c t)

-- The method nodes with that key, in extraction order.
abbrev pub methods_with : Key → List Node → List Candidate
methods_with k [] = []
methods_with k (n ∷ ns) =
    if is_method n && key_eq (key_of n) k
    then (n.id, n.param_types) ∷ methods_with k ns
    else methods_with k ns

-- Among those put first, the id of the first class node with that name.
abbrev pub first_class : Text → List Node → Option Text
first_class fqn [] = none
first_class fqn (n ∷ ns) =
    if has_label n (codes "Class") && text_eq n.fqn fqn then some n.id else first_class fqn ns

one_label :
    (n : Node) (a b : Text) → has_label n a ≡ true → text_eq a b ≡ false → has_label n b ≡ false
unfolding has_label
one_label n a b h d = ground (arith, text_eq_iff n.label a, text_eq_iff n.label b, text_eq_iff a b)

class_is_no_method : (n : Node) → has_label n (codes "Class") ≡ true → is_method n ≡ false
unfolding is_method
class_is_no_method n h = rw (one_label n (codes "Class") (codes "Function") h refl) refl

field_is_no_method : (n : Node) → has_label n (codes "Field") ≡ true → is_method n ≡ false
unfolding is_method
field_is_no_method n h = rw (one_label n (codes "Field") (codes "Function") h refl) refl

methods-add_file : (ix : NodeIndex) (n : Node) → (add_file ix n).methods ≡ ix.methods
unfolding add_file
methods-add_file ix n = ground arith

methods-by_label :
    (ix : NodeIndex) (n : Node)
    → (add_by_label ix n).methods ≡ (
        if is_method n
        then add_candidate (key_of n) (n.id, n.param_types) ix.methods
        else ix.methods)
unfolding add_by_label add_method
methods-by_label ix n = ground (arith, class_is_no_method n, field_is_no_method n)

candidates-node :
    (ix : NodeIndex) (n : Node) (k : Key)
    → candidates k (add_node ix n).methods ≡ (
        if is_method n && key_eq (key_of n) k
        then candidates k ix.methods ++ (n.id, n.param_types) ∷ []
        else candidates k ix.methods)
unfolding add_node
candidates-node ix n k =
    rw (methods-add_file, methods-by_label)
      (ground (arith, candidates-add (key_of n) k (n.id, n.param_types) ix.methods))

candidates-nodes :
    (ix : NodeIndex) (ns : List Node) (k : Key)
    → candidates k (add_nodes ix ns).methods ≡ candidates k ix.methods ++ methods_with k ns
unfolding add_nodes
candidates-nodes ix [] k = sym (append-nil _)
candidates-nodes ix (n ∷ ns) k = elim (Bool-cases (is_method n && key_eq (key_of n) k)) [
  | inl e ↦ rw (candidates-nodes (add_node ix n) ns k, candidates-node, e, append_assoc) refl
  | inr e ↦ rw (candidates-nodes (add_node ix n) ns k, candidates-node, e) refl
]

-- In a built index the candidates under a class, a name and an arity are the function nodes with a
-- member name that have just this class, name and parameter count, in extraction order: none is
-- lost, none is doubled, and no other node stands among them.
pub candidates-build :
    (nodes : List Node) (k : Key) → candidates k (build nodes).methods ≡ methods_with k nodes
unfolding build candidates
candidates-build nodes k = candidates-nodes _ nodes k
