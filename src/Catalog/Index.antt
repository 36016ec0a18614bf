-- ===== src/Catalog/Index.antt =====
-- The index by simple name never answers for an ambiguous name.
use mathlib.Core.List.{Memᴰ}
use mathlib.Core.List.Memᴰ
use mathlib.Core.Logic.{⊎_elim}
use graph_ingest_test.Prelude.{
  ℕ, ◌≡◌, refl, sym, ap, ◌∙◌, List, [], ◌∷◌, ◌++◌, Option, none, some, true, false, ◌⊎◌, inl, inr,
  Bool-cases, Option-cases, if◌then◌else◌, Text, text_eq, text_eq_iff, text_eq_refl, find, update,
  find-update, IsUnique, update-IsUnique, Memᴰ-find, arith,
}
use graph_ingest_test.Catalog.{
  Entry, Table, simple_of, append_owner, group_owners, share_entry, group_entry, keep_unambiguous,
  build_simple_index,
}

abbrev Groups : Type 0
Groups = List (Text × List Text)

group_owners-IsUnique :
    (groups : Groups) (table : Table) → IsUnique groups → IsUnique (group_owners groups table)
unfolding group_owners
group_owners-IsUnique groups [] u = u
group_owners-IsUnique groups ((owner, e) ∷ table) u =
    group_owners-IsUnique (update (simple_of owner) (append_owner owner) groups) table
      (update-IsUnique (simple_of owner) (append_owner owner) groups u)

-- The owner is in the group of its simple name.
record Grouped (owner : Text) (groups : Groups) : Type 0 where
  owners : List Text
  found : find (simple_of owner) groups ≡ some owners
  listed : Memᴰ owner owners

update-Grouped :
    (owner k : Text) (groups : Groups)
    → Grouped owner groups
    → Grouped owner (update (simple_of k) (append_owner k) groups)
update-Grouped owner k groups g = elim (Bool-cases (text_eq (simple_of k) (simple_of owner))) [
  | inl e ↦
      let same = (text_eq_iff (simple_of k) (simple_of owner)).0 e in
      record {
        owners = g.owners ++ k ∷ [];
        found =
            find-update (simple_of owner) (simple_of k) (append_owner k) groups
            ∙ rw (e, same, g.found) refl;
        listed = Memᴰ.append_left (k ∷ []) g.listed;
      }
  | inr n ↦ record {
    owners = g.owners;
    found = find-update (simple_of owner) (simple_of k) (append_owner k) groups ∙ rw n g.found;
    listed = g.listed;
  }
]

append_owner-listed : (owner : Text) (o : Option (List Text)) → Memᴰ owner (append_owner owner o)
append_owner-listed owner none = Memᴰ.head refl
append_owner-listed owner (some owners) = Memᴰ.append_right owners (Memᴰ.head refl)

update-Grouped_self :
    (owner : Text) (groups : Groups)
    → Grouped owner (update (simple_of owner) (append_owner owner) groups)
update-Grouped_self owner groups = record {
  owners = append_owner owner (find (simple_of owner) groups);
  found =
      find-update (simple_of owner) (simple_of owner) (append_owner owner) groups
      ∙ rw (text_eq_refl (simple_of owner)) refl;
  listed = append_owner-listed owner (find (simple_of owner) groups);
}

group_owners-Grouped :
    (owner : Text) (groups : Groups) (table : Table) (e : Entry)
    → Grouped owner groups ⊎ Memᴰ {A = Text × Entry} (owner, e) table
    → Grouped owner (group_owners groups table)
unfolding group_owners
group_owners-Grouped owner groups [] e (inl g) = g
group_owners-Grouped owner groups [] e (inr m) = absurd (Memᴰ.not-nil m)
group_owners-Grouped owner groups ((k, f) ∷ table) e (inl g) =
    group_owners-Grouped owner (update (simple_of k) (append_owner k) groups) table e
      (inl (update-Grouped owner k groups g))
group_owners-Grouped owner groups ((k, f) ∷ table) e (inr m) =
    group_owners-Grouped owner (update (simple_of k) (append_owner k) groups) table e
      (⊎_elim (λ q. inl (here (ap (λ (t : Text × Entry). t.0) q))) inr (Memᴰ.cases_cons m))
  where
    here : owner ≡ k → Grouped owner (update (simple_of k) (append_owner k) groups)
    here q = rw (← q) (update-Grouped_self owner groups)

abbrev next_find : Text → Text → Option Entry → Option Entry → Option Entry
next_find j simple none rest = rest
next_find j simple (some f) rest = if text_eq j simple then some f else rest

keep_unambiguous-cons :
    (table : Table) (j : Text) (os : List Text) (groups : Groups) (simple : Text)
    → find simple (keep_unambiguous table ((j, os) ∷ groups))
      ≡ next_find j simple (group_entry table os) (find simple (keep_unambiguous table groups))
unfolding keep_unambiguous find
keep_unambiguous-cons table j os groups simple = elim (Option-cases (group_entry table os)) [
  | inl e ↦ rw (e, keep_unambiguous) refl
  | inr (f, e) ↦ rw (e, keep_unambiguous) refl
]

keep_unambiguous-none :
    (table : Table) (groups : Groups) (simple : Text)
    → find simple groups ≡ none
    → find simple (keep_unambiguous table groups) ≡ none
unfolding keep_unambiguous find
keep_unambiguous-none table [] simple h = refl
keep_unambiguous-none table ((j, os) ∷ groups) simple h = elim (Bool-cases (text_eq j simple)) [
  | inl e ↦ cc (rw e at h)
  | inr n ↦
      keep_unambiguous-cons table j os groups simple
      ∙ rw (keep_unambiguous-none table groups simple (rw n at h)) (skip (group_entry table os) n)
]
  where
    skip : (o : Option Entry) → text_eq j simple ≡ false → next_find j simple o none ≡ none
    skip none n = refl
    skip (some f) n = rw n refl

keep_unambiguous-find :
    (table : Table) (groups : Groups) (simple : Text) (e : Entry) (owners : List Text)
    → find simple groups ≡ some owners
    → IsUnique groups
    → find simple (keep_unambiguous table groups) ≡ some e
    → group_entry table owners ≡ some e
unfolding keep_unambiguous find
keep_unambiguous-find table [] simple e owners g u h = cc
keep_unambiguous-find table ((j, os) ∷ groups) simple e owners g u h =
    elim (Bool-cases (text_eq j simple)) [
      | inl q ↦
          rw (some_eq (rw q at g)) (
            here (group_entry table os) q
              (sym (keep_unambiguous-cons table j os groups simple) ∙ h))
      | inr n ↦ keep_unambiguous-find table groups simple e owners (rw n at g) u.1 (
          later (group_entry table os) n (sym (keep_unambiguous-cons table j os groups simple) ∙ h))
    ]
  where
    some_eq : some os ≡ some owners → owners ≡ os
    some_eq k = cc

    here :
        (o : Option Entry)
        → text_eq j simple ≡ true
        → next_find j simple o (find simple (keep_unambiguous table groups)) ≡ some e
        → o ≡ some e
    here none q k =
        cc (keep_unambiguous-none table groups simple (rw ((text_eq_iff j simple).0 q) at (u.0)))
    here (some f) q k = rw q at k

    later :
        (o : Option Entry)
        → text_eq j simple ≡ false
        → next_find j simple o (find simple (keep_unambiguous table groups)) ≡ some e
        → find simple (keep_unambiguous table groups) ≡ some e
    later none n k = k
    later (some f) n k = rw n at k

share_entry-Memᴰ :
    (table : Table) (n : ℕ) (owners : List Text) (owner : Text) (e : Entry)
    → share_entry table n owners ≡ true
    → Memᴰ owner owners
    → find owner table ≡ some e
    → e.identity ≡ n
unfolding share_entry
share_entry-Memᴰ table n [] owner e s m f = absurd (Memᴰ.not-nil m)
share_entry-Memᴰ table n (o ∷ os) owner e s m f =
    ⊎_elim (λ q. first (rw q at f)) (λ t. share_entry-Memᴰ table n os owner e rest t f)
      (Memᴰ.cases_cons m)
  where
    rest : share_entry table n os ≡ true
    rest = ground arith

    first : find o table ≡ some e → e.identity ≡ n
    first g = ground arith

group_entry-Memᴰ :
    (table : Table) (owners : List Text) (owner : Text) (e e' : Entry)
    → group_entry table owners ≡ some e
    → Memᴰ owner owners
    → find owner table ≡ some e'
    → e'.identity ≡ e.identity
group_entry-Memᴰ table [] owner e e' g m f = absurd (Memᴰ.not-nil m)
group_entry-Memᴰ table (o ∷ os) owner e e' g m f = elim (Option-cases (find o table)) [
  | inl n ↦ cc (rw (n, group_entry) at g)
  | inr (d, h) ↦ elim (Bool-cases (share_entry table d.identity os)) [
    | inr b ↦ cc (rw (h, group_entry, b) at g)
    | inl b ↦
        let q : some d ≡ some e = (rw (h, group_entry, b) at g) in
        ⊎_elim (λ p. first d h q (rw p at f))
          (λ t. share_entry-Memᴰ table d.identity os owner e' b t f ∙ ident d q) (Memᴰ.cases_cons m)
  ]
]
  where
    ident : (d : Entry) → some d ≡ some e → d.identity ≡ e.identity
    ident d q = cc

    first :
        (d : Entry)
        → find o table ≡ some d
        → some d ≡ some e
        → find o table ≡ some e'
        → e'.identity ≡ e.identity
    first d h q k = cc

-- A simple name that the index answers is not ambiguous: each owner in the table with that simple
-- name has the very entry that the index gives.
pub build_simple_index-unambiguous :
    (table : Table) (simple : Text) (e : Entry) (owner : Text) (e' : Entry)
    → find simple (build_simple_index table) ≡ some e
    → find owner table ≡ some e'
    → simple_of owner ≡ simple
    → e'.identity ≡ e.identity
unfolding build_simple_index
build_simple_index-unambiguous table simple e owner e' answered listed named =
    let g = group_owners-Grouped owner [] table e' (inr (Memᴰ-find owner table listed)) in
    group_entry-Memᴰ table g.owners owner e e'
      (keep_unambiguous-find table (group_owners [] table) simple e g.owners (rw named at (g.found))
        (group_owners-IsUnique [] table tt) answered)
      g.listed listed
