-- ===== src/Matcher/Lookup/Precision.antt =====
-- When a lookup names a node, and where each lookup is counted (graph_core/bytecode/matcher.py).
use graph_ingest_test.Prelude.{
  ℕ, ◌≡◌, refl, sym, ap, ◌∙◌, List, [], ◌∷◌, true, false, ◌⊎◌, inl, inr, length, map, Text,
  text_eq_iff, text_eq_refl, is_empty, arith, Bool-cases,
}
use graph_ingest_test.Prelude.Result.{ok, Result-cases}
use mathlib.Core.Logic.{⊎_elim}
use mathlib.Core.List.{Memᴰ}
use mathlib.Core.List.Memᴰ
use graph_ingest_test.Classfile.Descriptor.{descriptor_param_types}
use graph_ingest_test.Matcher.Names.{binary_to_source_fqn, normalize_type, descriptor_simple_types}
use graph_ingest_test.Matcher.Index.{Candidate, NodeIndex, candidates}
use graph_ingest_test.Matcher.Lookup.{
  MatchStats, types_eq, exact_ids, single_id, resolve_exact, types_or_none, choose, method_key,
  method_id, override_target,
}

types_eq→eq : (xs ys : List Text) → types_eq xs ys ≡ true → xs ≡ ys
types_eq→eq [] [] h = refl
types_eq→eq [] (y ∷ ys) h = cc
types_eq→eq (x ∷ xs) [] h = cc
types_eq→eq (x ∷ xs) (y ∷ ys) h = ground (arith, text_eq_iff x y, types_eq→eq xs ys)

-- An id of `exact_ids` belongs to a candidate with just the wanted types.
exact_ids-Memᴰ :
    (wanted : List Text) (cs : List Candidate) (id : Text)
    → Memᴰ id (exact_ids wanted cs)
    → (ptypes : List Text) × Memᴰ (id, ptypes) cs × (map normalize_type ptypes ≡ wanted)
unfolding exact_ids
exact_ids-Memᴰ wanted [] id m = absurd (Memᴰ.not-nil m)
exact_ids-Memᴰ wanted ((node_id, ptypes) ∷ cs) id m =
    elim (Bool-cases (types_eq (map normalize_type ptypes) wanted)) [
      | inl same ↦
          ⊎_elim (λ e. (ptypes, Memᴰ.head (rw e refl), types_eq→eq _ _ same))
            (λ t. let (qs, at, e) = exact_ids-Memᴰ wanted cs id t in (qs, Memᴰ.tail at, e))
            (Memᴰ.cases_cons (rw (same, exact_ids) at m))
      | inr differs ↦
          let (qs, at, e) = exact_ids-Memᴰ wanted cs id (rw (differs, exact_ids) at m) in
          (qs, Memᴰ.tail at, e)
    ]

types_eq_refl : (xs : List Text) → types_eq xs xs ≡ true
types_eq_refl [] = refl
types_eq_refl (x ∷ xs) = ground (arith, text_eq_refl x, types_eq_refl xs)

clash :
    {A : Type 0} (qs ptypes wanted : List Text)
    → ptypes ≡ qs
    → map normalize_type ptypes ≡ wanted
    → types_eq (map normalize_type qs) wanted ≡ false
    → A
clash qs ptypes wanted e h d = absurd (different (rw (← h, e) at d))
  where
    different : types_eq (map normalize_type qs) (map normalize_type qs) ≡ false → ⊥
    different f = cc (types_eq_refl (map normalize_type qs))

nothing : (id : Text) → [] ≡ id → is_empty id ≡ false → ⊥
nothing id e h = ground arith

-- Every candidate with the wanted types is among them.
Memᴰ-exact_ids :
    (wanted : List Text) (cs : List Candidate) (id : Text) (ptypes : List Text)
    → Memᴰ (id, ptypes) cs
    → map normalize_type ptypes ≡ wanted
    → Memᴰ id (exact_ids wanted cs)
unfolding exact_ids
Memᴰ-exact_ids wanted [] id ptypes m h = absurd (Memᴰ.not-nil m)
Memᴰ-exact_ids wanted ((node_id, qs) ∷ cs) id ptypes m h =
    elim (Bool-cases (types_eq (map normalize_type qs) wanted)) [
      | inl same ↦
          rw (same, exact_ids)
            (⊎_elim (λ e. Memᴰ.head (ap (λ (c : Candidate). c.0) e))
              (λ t. Memᴰ.tail (Memᴰ-exact_ids wanted cs id ptypes t h)) (Memᴰ.cases_cons m))
      | inr differs ↦
          rw (differs, exact_ids)
            (⊎_elim (λ e. clash qs ptypes wanted (ap (λ (c : Candidate). c.1) e) h differs)
              (λ t. Memᴰ-exact_ids wanted cs id ptypes t h) (Memᴰ.cases_cons m))
    ]

-- `id` belongs to a candidate with the wanted types, and every candidate with them has this id.
pub record IsOnlyExact (wanted : List Text) (cs : List Candidate) (id : Text) : Type 0 where
  pub ptypes : List Text
  pub listed : Memᴰ (id, ptypes) cs
  pub types : map normalize_type ptypes ≡ wanted
  pub only :
      (other : Text) (qs : List Text)
      → Memᴰ (other, qs) cs
      → map normalize_type qs ≡ wanted
      → other ≡ id

only_exact :
    (wanted : List Text) (cs : List Candidate) (id : Text)
    → exact_ids wanted cs ≡ id ∷ []
    → IsOnlyExact wanted cs id
only_exact wanted cs id e =
    let (ptypes, listed, types) = exact_ids-Memᴰ wanted cs id (rw e (Memᴰ.head refl)) in
    record {
      ptypes = ptypes;
      listed = listed;
      types = types;
      only = λ other qs m h. Memᴰ.eq_of_singleton (rw e at (Memᴰ-exact_ids wanted cs other qs m h));
    }

single_id→eq :
    (ids : List Text) (id : Text) → single_id ids ≡ id → is_empty id ≡ false → ids ≡ id ∷ []
single_id→eq [] id e h = ground arith
single_id→eq (i ∷ []) id e h = rw e refl
single_id→eq (i ∷ j ∷ ids) id e h = ground arith

resolve_exact-eq : (ids : List Text) (s : MatchStats) → (resolve_exact ids s).0 ≡ single_id ids
unfolding resolve_exact
resolve_exact-eq [] s = refl
resolve_exact-eq (i ∷ []) s = refl
resolve_exact-eq (i ∷ j ∷ ids) s = refl

-- An override is named only when it is proved: if `override_target` returns an id, the descriptor
-- is well-formed, the id is that of a method of that class, name and arity whose erased parameter
-- types are those of the descriptor, and all such methods have this id.
pub override_target-only :
    (ix : NodeIndex) (ancestor name descriptor id : Text)
    → override_target ix ancestor name descriptor ≡ id
    → is_empty id ≡ false
    → (wanted : List Text) × (descriptor_simple_types descriptor ≡ ok wanted)
      × IsOnlyExact wanted
          (candidates (method_key (binary_to_source_fqn ancestor) name (length wanted)) ix.methods)
          id
unfolding override_target
override_target-only ix ancestor name descriptor id e h =
    elim (Bool-cases (is_empty (binary_to_source_fqn ancestor))) [
      | inl anonymous ↦ absurd (nothing id (rw (anonymous, override_target) at e) h)
      | inr named ↦ elim (Result-cases (descriptor_simple_types descriptor)) [
        | inl (wanted, d) ↦ (
          wanted,
          d,
          only_exact wanted _ id (single_id→eq _ id (rw (named, d, override_target) at e) h),
        )
        | inr (x, d) ↦ absurd (nothing id (rw (named, d, override_target) at e) h)
      ]
    ]

abbrev pub IsPinned : Text → List Candidate → Text → Type 0
IsPinned descriptor cs id =
    ((ptypes : List Text) × (cs ≡ (id, ptypes) ∷ []))
    ⊎ IsOnlyExact (types_or_none (descriptor_simple_types descriptor)) cs id

choose-IsPinned :
    (ix : NodeIndex) (source_fqn name descriptor : Text) (arity : ℕ) (cs : List Candidate)
    (s : MatchStats) (id : Text)
    → (choose ix source_fqn name descriptor arity cs s).0 ≡ id
    → is_empty id ≡ false
    → IsPinned descriptor cs id
unfolding choose
choose-IsPinned ix source_fqn name descriptor arity [] s id e h = absurd (nothing id e h)
choose-IsPinned ix source_fqn name descriptor arity ((node_id, ptypes) ∷ []) s id e h =
    inl (ptypes, rw (← e) refl)
choose-IsPinned ix source_fqn name descriptor arity (c ∷ d ∷ cs) s id e h =
    inr (only_exact _ _ id (single_id→eq _ id (sym (resolve_exact-eq _ s) ∙ e) h))

-- A call is matched only when it can be pinned: if `method_id` returns an id, the descriptor is
-- well-formed, and among the methods of that class, name and arity either the id is the only one,
-- or it is that of one whose erased types are the descriptor's, as of all such methods.
pub method_id-only :
    (ix : NodeIndex) (owner name descriptor id : Text) (s : MatchStats)
    → (method_id ix owner name descriptor s).0 ≡ id
    → is_empty id ≡ false
    → (ts : List Text) × (descriptor_param_types descriptor ≡ ok ts)
      × IsPinned descriptor
          (candidates (method_key (binary_to_source_fqn owner) name (length ts)) ix.methods)
          id
unfolding method_id
method_id-only ix owner name descriptor id s e h =
    elim (Bool-cases (is_empty (binary_to_source_fqn owner))) [
      | inl anonymous ↦ absurd (nothing id (rw (anonymous, method_id) at e) h)
      | inr named ↦ elim (Result-cases (descriptor_param_types descriptor)) [
        | inl (ts, d) ↦
            (ts, d, choose-IsPinned ix _ name descriptor _ _ s id (rw (named, d, method_id) at e) h)
        | inr (x, d) ↦ absurd (nothing id (rw (named, d, method_id) at e) h)
      ]
    ]
