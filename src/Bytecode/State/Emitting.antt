-- ===== src/Bytecode/State/Emitting.antt =====
-- What `emit` does to the edges: each key at most once, and counters that agree with them.
use graph_ingest_test.Prelude.{
  ℕ, ◌+◌, ◌≤◌, ◌≡◌, refl, List, [], ◌∷◌, ◌++◌, Bool, true, false, ◌&&◌, ◌||◌, if◌then◌else◌, any_of,
  arith, inl, inr, Bool-cases, text_eq_iff, text_eq_refl,
}
use graph_ingest_test.Bytecode.State.{
  EdgeKind, Edge, contains, calls, calls_external, reads, writes, extends, implements, overrides,
  same_kind, EdgeKey, key_of, same_key, Output, is_new, emit,
}

-- How many edges have the key.
unfoldable pub tally : EdgeKey → List Edge → ℕ
tally k [] = 0
tally k (e ∷ es) = (if same_key k (key_of e) then 1 else 0) + tally k es

-- How many edges have the type.
unfoldable pub of_kind : EdgeKind → List Edge → ℕ
of_kind t [] = 0
of_kind t (e ∷ es) = (if same_kind t e.kind then 1 else 0) + of_kind t es

pub tally-append :
    (k : EdgeKey) (es : List Edge) (e : Edge)
    → tally k (es ++ e ∷ []) ≡ tally k es + (if same_key k (key_of e) then 1 else 0)
unfolding tally
tally-append k [] e = omega arith
tally-append k (d ∷ es) e = omega (arith, tally-append k es e)

pub of_kind-append :
    (t : EdgeKind) (es : List Edge) (e : Edge)
    → of_kind t (es ++ e ∷ []) ≡ of_kind t es + (if same_kind t e.kind then 1 else 0)
unfolding of_kind
of_kind-append t [] e = omega arith
of_kind-append t (d ∷ es) e = omega (arith, of_kind-append t es e)

same_kind_eq : (a b : EdgeKind) → same_kind a b ≡ true → a ≡ b
same_kind_eq contains contains h = refl
same_kind_eq calls calls h = refl
same_kind_eq calls_external calls_external h = refl
same_kind_eq reads reads h = refl
same_kind_eq writes writes h = refl
same_kind_eq extends extends h = refl
same_kind_eq implements implements h = refl
same_kind_eq overrides overrides h = refl
same_kind_eq _ _ h = cc

pub same_key_eq : (a b : EdgeKey) → same_key a b ≡ true → a ≡ b
unfolding same_key
same_key_eq a b h =
    ground (arith, same_kind_eq a.kind b.kind, text_eq_iff a.src b.src, text_eq_iff a.dst b.dst)

same_kind_refl : (a : EdgeKind) → same_kind a a ≡ true
same_kind_refl contains = refl
same_kind_refl calls = refl
same_kind_refl calls_external = refl
same_kind_refl reads = refl
same_kind_refl writes = refl
same_kind_refl extends = refl
same_kind_refl implements = refl
same_kind_refl overrides = refl

pub same_key_refl : (a : EdgeKey) → same_key a a ≡ true
unfolding same_key
same_key_refl a = rw (same_kind_refl a.kind, text_eq_refl a.src, text_eq_refl a.dst) refl

-- The edges that go through `seen` are those with a key in it, once each.
abbrev pub IsOnce : Output → Type 0
IsOnce o =
    (k : EdgeKey)
    → same_kind k.kind contains ≡ false
    → tally k o.edges ≡ (if any_of (same_key k) o.seen then 1 else 0)

fresh :
    (k : EdgeKey) (e : Edge) (seen : List EdgeKey)
    → any_of (same_key (key_of e)) seen ≡ false
    → same_key k (key_of e) ≡ true
    → any_of (same_key k) seen ≡ false
fresh k e seen n h = rw (same_key_eq k (key_of e) h) n

emit_new-IsOnce :
    (e : Edge) (o : Output)
    → any_of (same_key (key_of e)) o.seen ≡ false
    → IsOnce o
    → IsOnce (record { edges = o.edges ++ e ∷ []; seen = key_of e ∷ o.seen })
emit_new-IsOnce e o n once k h = elim (Bool-cases (same_key k (key_of e))) [
  | inl q ↦ ground (arith, tally-append k o.edges e, once k h, fresh k e o.seen n q, q)
  | inr q ↦ ground (arith, tally-append k o.edges e, once k h)
]

pub emit-IsOnce : (e : Edge) (o : Output) → IsOnce o → IsOnce (emit e o)
unfolding emit is_new
emit-IsOnce e o once = elim (Bool-cases (any_of (same_key (key_of e)) o.seen)) [
  | inl old ↦ rw old once
  | inr n ↦ rw n (emit_new-IsOnce e o n once)
]

pub append-IsOnce :
    (e : Edge) (o : Output)
    → e.kind ≡ contains
    → IsOnce o
    → IsOnce (record o { edges = o.edges ++ e ∷ [] })
unfolding same_key
append-IsOnce e o c once k h = ground (arith, tally-append k o.edges e, once k h)

pub IsOnce-le :
    (o : Output) (k : EdgeKey) → IsOnce o → same_kind k.kind contains ≡ false → tally k o.edges ≤ 1
IsOnce-le o k once h = ground (arith, once k h)

pub of_kind-emit :
    (t : EdgeKind) (e : Edge) (o : Output)
    → of_kind t (emit e o).edges
      ≡ of_kind t o.edges + (if is_new e o && same_kind t e.kind then 1 else 0)
unfolding emit
of_kind-emit t e o = ground (arith, of_kind-append t o.edges e)

-- The key has been seen.
abbrev pub Holds : EdgeKey → Output → Type 0
Holds k o = any_of (same_key k) o.seen ≡ true

pub Holds-emit : (k : EdgeKey) (e : Edge) (o : Output) → Holds k o → Holds k (emit e o)
unfolding emit
Holds-emit k e o h = elim (Bool-cases (is_new e o)) [
  | inl new ↦ rw new (rw h (or_true (same_key k (key_of e))))
  | inr old ↦ rw old h
]
  where
    or_true : (b : Bool) → b || true ≡ true
    or_true true = refl
    or_true false = refl

pub Holds-emit_self : (e : Edge) (o : Output) → Holds (key_of e) (emit e o)
unfolding emit is_new
Holds-emit_self e o = elim (Bool-cases (any_of (same_key (key_of e)) o.seen)) [
  | inl old ↦ rw old old
  | inr new ↦ rw new (rw (same_key_refl (key_of e)) refl)
]

tally-le-of_kind : (k : EdgeKey) (es : List Edge) → tally k es ≤ of_kind k.kind es
unfolding tally of_kind same_key
tally-le-of_kind k [] = omega arith
tally-le-of_kind k (e ∷ es) = ground (arith, tally-le-of_kind k es)

-- With no edge of the type, no key of the type has been seen.
pub not_seen :
    (o : Output) (k : EdgeKey)
    → IsOnce o
    → same_kind k.kind contains ≡ false
    → of_kind k.kind o.edges ≡ 0
    → any_of (same_key k) o.seen ≡ false
not_seen o k once n none_of = elim (Bool-cases (any_of (same_key k) o.seen)) [
  | inr absent ↦ absent
  | inl held ↦ absurd (ground (arith, tally-le-of_kind k o.edges, once k n, held, none_of))
]
