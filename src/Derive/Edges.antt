-- ===== src/Derive/Edges.antt =====
-- The derived edges: each pair once, none that the bytecode pass has settled, and equal names and
-- arities.
use mathlib.Core.List.{reverse, Memᴰ}
use graph_ingest_test.Prelude.{
  ℕ, zero, suc, ◌+◌, ◌≤◌, ◌<◌, ◌≡◌, refl, List, [], ◌∷◌, ◌++◌, Option, none, some, true, false, inl,
  inr, Bool-cases, Option-cases, length, length-append, length-reverse, All, Text, find, has_text,
  arith,
}
use graph_ingest_test.Prelude.Search.{open_arcs, size_of, open_arcs_nil, open_arcs-visit}
use graph_ingest_test.Prelude.Result.{ok, ◌>>=◌}
use graph_ingest_test.Bytecode.State.{Edge}
use graph_ingest_test.Bytecode.State.Emitting.{tally}
use graph_ingest_test.Bytecode.Overrides.Claimed.{override_key}
use graph_ingest_test.Bytecode.Overrides.{Pair, has_pair}
use graph_ingest_test.Derive.{
  SlimNode, Indices, is_method_node, Derived, supers_of, consider_all, climb, super_count,
  climb_from, derive_node, derive_nodes, derive_overrides,
}
use graph_ingest_test.Derive.Pairs.{SameSignature, IsGood, consider_all-IsGood}

module _ (nodes : List SlimNode) (ix : Indices) (skip_methods : List Text)
    (skip_pairs : List Pair) where
  abbrev Good : Derived → Type 0
  Good d = IsGood nodes ix skip_methods skip_pairs d

  climb-nil :
      (n : SlimNode) (fuel : ℕ) (visited : List Text) (d : Derived)
      → climb nodes ix skip_methods skip_pairs n (suc fuel) [] visited d ≡ ok d
  unfolding climb
  climb-nil n fuel visited d = refl

  module _ (n : SlimNode) (fuel : ℕ) (anc : Text) (stack visited : List Text) (d : Derived) where
    abbrev above : List Text
    above = reverse (supers_of nodes ix skip_methods skip_pairs anc) ++ stack

    climb-skip :
        has_text anc visited ≡ true
        → climb nodes ix skip_methods skip_pairs n (suc fuel) (anc ∷ stack) visited d
          ≡ climb nodes ix skip_methods skip_pairs n fuel stack visited d
    unfolding climb
    climb-skip old = rw (old, climb) refl

    climb-visit :
        has_text anc visited ≡ false
        → climb nodes ix skip_methods skip_pairs n (suc fuel) (anc ∷ stack) visited d
          ≡ climb nodes ix skip_methods skip_pairs n fuel above
              (visited ++ anc ∷ [])
              (consider_all nodes ix skip_methods skip_pairs n anc nodes d)
    unfolding climb
    climb-visit new = rw (new, climb) refl

  supers_of-length :
      (cls : Text)
      → length (supers_of nodes ix skip_methods skip_pairs cls)
        ≡ size_of (super_count nodes ix skip_methods skip_pairs) (find cls ix.supers)
  unfolding supers_of
  supers_of-length cls = elim (Option-cases (find cls ix.supers)) [
    | inl e ↦ rw e refl
    | inr (ds, e) ↦ rw e refl
  ]

  visit-lt :
      (anc : Text) (stack visited : List Text)
      → has_text anc visited ≡ false
      → length (reverse (supers_of nodes ix skip_methods skip_pairs anc) ++ stack)
          + open_arcs (super_count nodes ix skip_methods skip_pairs) ix.supers (visited ++ anc ∷ [])
        < length (anc ∷ stack)
          + open_arcs (super_count nodes ix skip_methods skip_pairs) ix.supers visited
  visit-lt anc stack visited new = omega (
    arith,
    open_arcs-visit (super_count nodes ix skip_methods skip_pairs) ix.supers visited anc new,
    supers_of-length anc,
    length-append (reverse (supers_of nodes ix skip_methods skip_pairs anc)) stack,
    length-reverse (supers_of nodes ix skip_methods skip_pairs anc),
  )

  climb-IsGood :
      (n : SlimNode) (fuel : ℕ) (stack visited : List Text) (d : Derived)
      → has_text n.id skip_methods ≡ false
      → is_method_node n ≡ true
      → Memᴰ n nodes
      → Good d
      → length stack + open_arcs (super_count nodes ix skip_methods skip_pairs) ix.supers visited
        < fuel
      → (e : Derived) × (climb nodes ix skip_methods skip_pairs n fuel stack visited d ≡ ok e)
        × Good e
  climb-IsGood n zero stack visited d s meth from h m = absurd (omega arith)
  climb-IsGood n (suc fuel) [] visited d s meth from h m = (d, climb-nil n fuel visited d, h)
  climb-IsGood n (suc fuel) (anc ∷ stack) visited d s meth from h m =
      elim (Bool-cases (has_text anc visited)) [
        | inl old ↦
            rw (climb-skip n fuel anc stack visited d old)
              (climb-IsGood n fuel stack visited d s meth from h (omega arith))
        | inr new ↦ rw (climb-visit n fuel anc stack visited d new) (
            climb-IsGood n fuel (reverse (supers_of nodes ix skip_methods skip_pairs anc) ++ stack)
              (visited ++ anc ∷ []) (consider_all nodes ix skip_methods skip_pairs n anc nodes d) s
              meth from
              (consider_all-IsGood nodes ix skip_methods skip_pairs n anc nodes d s meth from
                (λ k at. at) h)
              (omega (arith, visit-lt anc stack visited new)))
      ]

  climb_from-IsGood :
      (n : SlimNode) (o : Option Text) (d : Derived)
      → has_text n.id skip_methods ≡ false
      → is_method_node n ≡ true
      → Memᴰ n nodes
      → Good d
      → (e : Derived) × (climb_from nodes ix skip_methods skip_pairs n o d ≡ ok e) × Good e
  unfolding climb_from
  climb_from-IsGood n none d s meth from h = (d, refl, h)
  climb_from-IsGood n (some cls) d s meth from h =
      climb-IsGood n _ (reverse (supers_of nodes ix skip_methods skip_pairs cls)) [] d s meth from h
        (omega (arith, open_arcs_nil (super_count nodes ix skip_methods skip_pairs) ix.supers))

  derive_node-IsGood :
      (n : SlimNode) (d : Derived)
      → Memᴰ n nodes
      → Good d
      → (e : Derived) × (derive_node nodes ix skip_methods skip_pairs n d ≡ ok e) × Good e
  unfolding derive_node
  derive_node-IsGood n d from h = elim (Bool-cases (is_method_node n)) [
    | inr meth ↦ (d, rw meth refl, h)
    | inl meth ↦ elim (Bool-cases (has_text n.id skip_methods)) [
      | inl s ↦ (d, rw (meth, s) refl, h)
      | inr s ↦ rw (meth, s) (climb_from-IsGood n (find n.id ix.parent_of) d s meth from h)
    ]
  ]

  derive_nodes-IsGood :
      (ns : List SlimNode) (d : Derived)
      → ((n : SlimNode) → Memᴰ n ns → Memᴰ n nodes)
      → Good d
      → (e : Derived) × (derive_nodes nodes ix skip_methods skip_pairs ns d ≡ ok e) × Good e
  unfolding derive_nodes
  derive_nodes-IsGood [] d among h = (d, refl, h)
  derive_nodes-IsGood (n ∷ ns) d among h =
      let (e, stepped, good) = derive_node-IsGood n d (among n (Memᴰ.head refl)) h in
      rw (stepped, ◌>>=◌) (derive_nodes-IsGood ns e (λ k at. among k (Memᴰ.tail at)) good)

  start-IsGood : Good (record { out = []; seen = [] })
  unfolding tally
  start-IsGood = record { once = λ a b. refl; fresh = λ k h. cc; signed = tt }

-- What the derivation promises of its edges.
pub record Derives (nodes : List SlimNode) (skip_methods : List Text) (skip_pairs : List Pair)
    (es : List Edge) : Type 0 where
  pub once : (a b : Text) → tally (override_key a b) es ≤ 1
  pub unsettled :
      (a b : Text)
      → 0 < tally (override_key a b) es
      → (has_pair (a, b) skip_pairs ≡ false) × (has_text a skip_methods ≡ false)
  pub signed : All (SameSignature nodes) es

-- The derivation ends, cycles in the hierarchy included. Each pair of methods has at most one edge;
-- no edge starts at a method of `skip_methods` or repeats a pair of `skip_pairs`; and each edge
-- joins two method nodes of `nodes` with distinct ids and the same name and arity.
pub derive_overrides_lem :
    (nodes : List SlimNode) (ix : Indices) (skip_methods : List Text) (skip_pairs : List Pair)
    → (es : List Edge) × (derive_overrides nodes ix skip_methods skip_pairs ≡ ok es)
      × Derives nodes skip_methods skip_pairs es
unfolding derive_overrides
derive_overrides_lem nodes ix skip_methods skip_pairs =
    let (d, ended, good) =
      derive_nodes-IsGood nodes ix skip_methods skip_pairs nodes (record { out = []; seen = [] })
        (λ n at. at) (start-IsGood nodes ix skip_methods skip_pairs) in
    (
      d.out,
      rw (ended, ◌>>=◌) refl,
      record {
        once = λ a b. ground (arith, good.once a b);
        unsettled = λ a b h. good.fresh (a, b) (seen_of d good a b h);
        signed = good.signed;
      },
    )
  where
    seen_of :
        (d : Derived)
        → IsGood nodes ix skip_methods skip_pairs d
        → (a b : Text) → 0 < tally (override_key a b) d.out
        → has_pair (a, b) d.seen ≡ true
    seen_of d good a b h = ground (arith, good.once a b)
