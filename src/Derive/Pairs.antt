-- ===== src/Derive/Pairs.antt =====
-- Each round of the derivation keeps its edges good: each pair once, none that is settled, equal names
-- and arities.
use mathlib.Core.List.{Memᴰ}
use graph_ingest_test.Prelude.{
  ◌≡◌, refl, List, [], ◌∷◌, ◌++◌, Bool, true, false, not, ◌&&◌, ◌||◌, inl, inr, Bool-cases,
  if◌then◌else◌, ◌==◌, ==_iff, All, Text, text_eq, text_eq_iff, has_text, arith,
}
use graph_ingest_test.Bytecode.State.{Edge, key_of, same_key}
use graph_ingest_test.Bytecode.State.Emitting.{tally, tally-append}
use graph_ingest_test.Bytecode.Overrides.Claimed.{override_key}
use graph_ingest_test.Bytecode.Overrides.{Pair, same_pair, has_pair}
use graph_ingest_test.Derive.{
  SlimNode, Indices, is_method_node, Derived, is_member, derived_edge, add_pair, consider,
  consider_all,
}

-- An edge from a method of the nodes to another one of the same name and arity.
pub record SameSignature (nodes : List SlimNode) (e : Edge) : Type 0 where
  pub source : SlimNode
  pub target : SlimNode
  pub source_among : Memᴰ source nodes
  pub among : Memᴰ target nodes
  pub methods : (is_method_node source ≡ true) × (is_method_node target ≡ true)
  pub names : text_eq target.name source.name ≡ true
  pub arities : target.param_count ≡ source.param_count
  pub apart : text_eq target.id source.id ≡ false
  pub ends : (e.src ≡ source.id) × (e.dst ≡ target.id)

All-append_one :
    (P : Edge → Type 0) (es : List Edge) (e : Edge) → All P es → P e → All P (es ++ e ∷ [])
All-append_one P [] e h p = (p, tt)
All-append_one P (d ∷ es) e h p = (h.0, All-append_one P es e h.1 p)

and_true : (b c : Bool) → b && c ≡ true → (b ≡ true) × (c ≡ true)
and_true true c h = (refl, h)
and_true false c h = cc

module _ (nodes : List SlimNode) (ix : Indices) (skip_methods : List Text)
    (skip_pairs : List Pair) where
  pub record IsGood (d : Derived) : Type 0 where
    pub once :
        (a b : Text) → tally (override_key a b) d.out ≡ (if has_pair (a, b) d.seen then 1 else 0)
    pub fresh :
        (k : Pair)
        → has_pair k d.seen ≡ true
        → (has_pair k skip_pairs ≡ false) × (has_text k.0 skip_methods ≡ false)
    pub signed : All (SameSignature nodes) d.out

  same_pair_eq : (j k : Pair) → same_pair j k ≡ true → j ≡ k
  same_pair_eq (a, b) (c, d) h = ground (arith, text_eq_iff a c, text_eq_iff b d)

  has_pair_same :
      (j k : Pair) (seen : List Pair) → same_pair j k ≡ true → has_pair j seen ≡ has_pair k seen
  has_pair_same j k seen h = rw (same_pair_eq j k h) refl

  key_pair :
      (a b : Text) (n m : SlimNode)
      → same_key (override_key a b) (key_of (derived_edge nodes ix skip_methods skip_pairs n m))
        ≡ same_pair (a, b) (n.id, m.id)
  unfolding same_key
  key_pair a b n m = refl

  add_new-IsGood :
      (n m : SlimNode) (d : Derived)
      → has_text n.id skip_methods ≡ false
      → has_pair (n.id, m.id) skip_pairs ≡ false
      → has_pair (n.id, m.id) d.seen ≡ false
      → SameSignature nodes (derived_edge nodes ix skip_methods skip_pairs n m)
      → IsGood d
      → IsGood (record {
        out = d.out ++ derived_edge nodes ix skip_methods skip_pairs n m ∷ [];
        seen = (n.id, m.id) ∷ d.seen;
      })
  add_new-IsGood n m d s p q sig h = record {
    once = λ a b. ground (
      arith,
      tally-append (override_key a b) d.out (derived_edge nodes ix skip_methods skip_pairs n m),
      h.once a b,
      key_pair a b n m,
      has_pair_same (a, b) (n.id, m.id) d.seen,
      q,
    );
    fresh = λ k at. elim (Bool-cases (same_pair k (n.id, m.id))) [
      | inl e ↦ rw (same_pair_eq k (n.id, m.id) e) (p, s)
      | inr e ↦ h.fresh k (rw (e, ◌||◌) at at)
    ];
    signed = All-append_one (SameSignature nodes) d.out _ h.signed sig;
  }

  add_pair-IsGood :
      (n m : SlimNode) (d : Derived)
      → has_text n.id skip_methods ≡ false
      → SameSignature nodes (derived_edge nodes ix skip_methods skip_pairs n m)
      → IsGood d
      → IsGood (add_pair nodes ix skip_methods skip_pairs n m d)
  unfolding add_pair
  add_pair-IsGood n m d s sig h = elim (Bool-cases (has_pair (n.id, m.id) skip_pairs)) [
    | inl e ↦ rw e h
    | inr e ↦ elim (Bool-cases (has_pair (n.id, m.id) d.seen)) [
      | inl f ↦ rw (e, f) h
      | inr f ↦ rw (e, f) (add_new-IsGood n m d s e f sig h)
    ]
  ]

  consider-IsGood :
      (n m : SlimNode) (cls : Text) (d : Derived)
      → has_text n.id skip_methods ≡ false
      → is_method_node n ≡ true
      → Memᴰ n nodes
      → Memᴰ m nodes
      → is_member nodes ix skip_methods skip_pairs cls n.name m ≡ true
      → IsGood d
      → IsGood (consider nodes ix skip_methods skip_pairs n m d)
  unfolding consider is_member
  consider-IsGood n m cls d s meth from at member h =
      elim (Bool-cases (not (text_eq m.id n.id) && m.param_count == n.param_count)) [
        | inr e ↦ rw e h
        | inl e ↦ rw e (
            add_pair-IsGood n m d s
              (record {
                source = n;
                target = m;
                source_among = from;
                among = at;
                methods = (meth, ground arith);
                names = ground arith;
                arities = (==_iff m.param_count n.param_count).0 ((and_true _ _ e).1);
                apart = ground arith;
                ends = (refl, refl);
              })
              h)
      ]

  pub consider_all-IsGood :
      (n : SlimNode) (cls : Text) (ms : List SlimNode) (d : Derived)
      → has_text n.id skip_methods ≡ false
      → is_method_node n ≡ true
      → Memᴰ n nodes
      → ((m : SlimNode) → Memᴰ m ms → Memᴰ m nodes)
      → IsGood d
      → IsGood (consider_all nodes ix skip_methods skip_pairs n cls ms d)
  unfolding consider_all
  consider_all-IsGood n cls [] d s meth from among h = h
  consider_all-IsGood n cls (m ∷ ms) d s meth from among h =
      consider_all-IsGood n cls ms
        (if is_member nodes ix skip_methods skip_pairs cls n.name m
          then consider nodes ix skip_methods skip_pairs n m d
          else d)
        s meth from (λ k at. among k (Memᴰ.tail at))
        (elim (Bool-cases (is_member nodes ix skip_methods skip_pairs cls n.name m)) [
          | inl e ↦ rw e (consider-IsGood n m cls d s meth from (among m (Memᴰ.head refl)) e h)
          | inr e ↦ rw e h
        ])
