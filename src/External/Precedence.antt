-- ===== src/External/Precedence.antt =====
-- Which calls have no kind.
use graph_ingest_test.Prelude.{
  ◌≡◌, refl, sym, ap, ◌∙◌, true-false, ◌↔◌, ◌⊎◌, List, [], ◌∷◌, Option, none, some, Bool, true,
  false, ◌||◌, inl, inr, Bool-cases, Option-cases, Text, codes, text_eq, text_eq_iff, text_eq_refl,
  lower, rsplit_last, has_text, find, any_of-Memᴰ, Memᴰ-any_of, Memᴰ-of_map, Memᴰ-map, map,
  if◌then◌else◌, arith,
}
use mathlib.Core.Path.{subst}
use mathlib.Core.List.{Memᴰ}
use mathlib.Core.List.Memᴰ
use mathlib.Core.Logic.{⊎_elim}
use graph_ingest_test.Catalog.{Catalogue, Hit, classify_taint}
use graph_ingest_test.External.{
  Kind, reflection, reflect_types, class_methods, class_loader_methods, reflect_methods_by_type,
  or_no_methods, db_types, connection_types, kind_of_hit, classify_reflection, classify_catalogued,
  is_db_type, is_connection_type, classify_db, classify_call, classify_external,
}

classify_db-some : (k : Option Kind) (name : Text) → (j : Kind) × (classify_db k name ≡ some j)
unfolding classify_db
classify_db-some k name = elim (Option-cases (classify_db k name)) [
  | inl e ↦ absurd (never k e)
  | inr found ↦ found
]
  where
    never : (k : Option Kind) → classify_db k name ≡ none → ⊥
    never none e = ground arith
    never (some j) e = ground arith

-- The text is one of the types, or its last part is the last part of one.
pub Named : Text → List Text → Type 0
Named t types = (s : Text) × Memᴰ s types × ((t ≡ s) ⊎ (rsplit_last b'.' t ≡ rsplit_last b'.' s))

false_of : {P : Type 0} (b : Bool) → (b ≡ true → P) → (P → ⊥) → b ≡ false
false_of true f n = absurd (n (f refl))
false_of false f n = refl

has_text-Memᴰ : (t : Text) (ts : List Text) → has_text t ts ≡ true → Memᴰ t ts
has_text-Memᴰ t ts h = let (s, m, e) = any_of-Memᴰ (text_eq t) ts h in rw ((text_eq_iff t s).0 e) m

Memᴰ-has_text : (t : Text) (ts : List Text) → Memᴰ t ts → has_text t ts ≡ true
Memᴰ-has_text t ts m = Memᴰ-any_of (text_eq t) ts t m (text_eq_refl t)

-- What `_is_db_type` and `_is_connection_type` test.
abbrev in_types : Text → List Text → Bool
in_types t types = has_text t types || has_text (rsplit_last b'.' t) (map (rsplit_last b'.') types)

in_types-Named : (t : Text) (types : List Text) → in_types t types ≡ true → Named t types
unfolding Named
in_types-Named t types h = elim (Bool-cases (has_text t types)) [
  | inl e ↦ (t, has_text-Memᴰ t types e, inl refl)
  | inr n ↦
      let simple =
        has_text-Memᴰ (rsplit_last b'.' t) (map (rsplit_last b'.') types) (rw (n, ◌||◌) at h) in
      let (s, m, e) = Memᴰ-of_map (rsplit_last b'.') types (rsplit_last b'.' t) simple in
      (s, m, inr e)
]

Named-in_types : (t : Text) (types : List Text) → Named t types → in_types t types ≡ true
unfolding Named
Named-in_types t types (s, m, how) =
    ⊎_elim (λ e. rw (Memᴰ-has_text t types (rw e m), ◌||◌) refl)
      (λ e. or_true (has_text t types) (
        Memᴰ-has_text (rsplit_last b'.' t) (map (rsplit_last b'.') types)
          (rw e (Memᴰ-map (rsplit_last b'.') types s m))))
      how
  where
    or_true : (a : Bool) {b : Bool} → b ≡ true → a || b ≡ true
    or_true true e = refl
    or_true false e = e

-- The owner is a reflective type, or the method reaches code or members through a class or a loader.
pub data Reflective (owner method : Text) : Type 0 where
  of_type : Memᴰ owner reflect_types → Reflective owner method
  of_class :
      owner ≡ codes "java.lang.Class" → Memᴰ (lower method) class_methods → Reflective owner method
  of_loader :
      owner ≡ codes "java.lang.ClassLoader"
      → lower method ≡ codes "loadclass"
      → Reflective owner method

module _ {A : Type 0} (k j : Text) (v : A) (d : List (Text × A)) where
  find-here : j ≡ k → find k ((j, v) ∷ d) ≡ some v
  unfolding find
  find-here e = rw (e, text_eq_refl k) refl

  find-later : text_eq j k ≡ false → find k ((j, v) ∷ d) ≡ find k d
  unfolding find
  find-later n = rw n refl

abbrev methods_of : Text → List Text
methods_of owner = or_no_methods (find owner reflect_methods_by_type)

abbrev loader_entry : List (Text × List Text)
loader_entry = (codes "java.lang.ClassLoader", class_loader_methods) ∷ []

class_found : (owner : Text) → owner ≡ codes "java.lang.Class" → methods_of owner ≡ class_methods
class_found owner e =
    ap or_no_methods (find-here owner (codes "java.lang.Class") class_methods loader_entry (sym e))

loader_found :
    (owner : Text) → owner ≡ codes "java.lang.ClassLoader" → methods_of owner ≡ class_loader_methods
unfolding find
loader_found owner e = rw e refl

methods_of-Reflective :
    (owner method : Text) → Memᴰ (lower method) (methods_of owner) → Reflective owner method
unfolding find
methods_of-Reflective owner method m = elim (Bool-cases (text_eq (codes "java.lang.Class") owner)) [
  | inl e ↦
      let same = sym ((text_eq_iff (codes "java.lang.Class") owner).0 e) in
      Reflective.of_class same (subst (λ ms. Memᴰ (lower method) ms) (class_found owner same) m)
  | inr n ↦ loader (
      subst (λ o. Memᴰ (lower method) (or_no_methods o))
        (find-later owner (codes "java.lang.Class") class_methods loader_entry n) m)
]
  where
    loader : Memᴰ (lower method) (or_no_methods (find owner loader_entry)) → Reflective owner method
    loader at = elim (Bool-cases (text_eq (codes "java.lang.ClassLoader") owner)) [
      | inl e ↦
          let same = (text_eq_iff (codes "java.lang.ClassLoader") owner).0 e in
          Reflective.of_loader (sym same) (
            Memᴰ.eq_of_singleton (
              subst (λ o. Memᴰ (lower method) (or_no_methods o))
                (find-here owner (codes "java.lang.ClassLoader") class_loader_methods [] same) at))
      | inr n ↦ absurd (
          nowhere (
            subst (λ o. Memᴰ (lower method) (or_no_methods o))
              (find-later owner (codes "java.lang.ClassLoader") class_loader_methods [] n) at))
    ]
      where
        nowhere : Memᴰ (lower method) (or_no_methods (find owner [])) → ⊥
        nowhere none_there = Memᴰ.not-nil none_there

either_none :
    (a b : Bool)
    → (if a then some reflection else if b then some reflection else none) ≡ none
    → (a ≡ false) × (b ≡ false)
either_none true b h = cc
either_none false true h = cc
either_none false false h = (refl, refl)

none-not_Reflective :
    (owner method : Text) → classify_reflection owner method ≡ none → Reflective owner method → ⊥
unfolding classify_reflection
none-not_Reflective owner method h r =
    let (types, methods) =
      either_none (has_text owner reflect_types) (has_text (lower method) (methods_of owner)) h in
    clash types methods r
  where
    clash :
        has_text owner reflect_types ≡ false
        → has_text (lower method) (methods_of owner) ≡ false
        → Reflective owner method
        → ⊥
    clash types methods (Reflective.of_type m) =
        true-false (Memᴰ-has_text owner reflect_types m) types
    clash types methods (Reflective.of_class e m) =
        true-false
          (Memᴰ-has_text (lower method) (methods_of owner)
            (subst (λ ms. Memᴰ (lower method) ms) (sym (class_found owner e)) m))
          methods
    clash types methods (Reflective.of_loader e m) =
        true-false
          (Memᴰ-has_text (lower method) (methods_of owner)
            (subst (λ ms. Memᴰ (lower method) ms) (sym (loader_found owner e)) (Memᴰ.head m)))
          methods

not_Reflective-none :
    (owner method : Text) → (Reflective owner method → ⊥) → classify_reflection owner method ≡ none
unfolding classify_reflection
not_Reflective-none owner method n =
    neither
      (false_of (has_text owner reflect_types) (λ h. has_text-Memᴰ owner reflect_types h)
        (λ m. n (Reflective.of_type m)))
      (false_of (has_text (lower method) (methods_of owner))
        (λ h. has_text-Memᴰ (lower method) (methods_of owner) h)
        (λ m. n (methods_of-Reflective owner method m)))
  where
    neither :
        {a b : Bool}
        → a ≡ false
        → b ≡ false
        → (if a then some reflection else if b then some reflection else none) ≡ none
    neither p q = rw (p, q) refl

module _ (c : Catalogue) (enabled : List Text) (owner method return_type : Text) where
  -- The catalog has the method, in a category that is enabled.
  pub record Catalogued : Type 0 where
    pub hit : Hit
    pub listed : classify_taint c owner method ≡ some hit
    pub category : Memᴰ hit.entry.category enabled

  -- Nothing in the tables, the options or the catalog speaks for the call.
  pub record Unclassified (include_other : Bool) : Type 0 where
    pub opt_in : include_other ≡ false
    pub no_connection : Named return_type connection_types → ⊥
    pub no_reflection : Reflective owner method → ⊥
    pub no_database : Named owner db_types → ⊥
    pub not_catalogued : Catalogued → ⊥

  hit_none :
      (o : Option Hit)
      → ((hit : Hit) → o ≡ some hit → Memᴰ hit.entry.category enabled → ⊥)
      → kind_of_hit enabled o ≡ none
  hit_none none n = refl
  hit_none (some hit) n =
      rw
        (false_of (has_text hit.entry.category enabled)
          (λ h. has_text-Memᴰ hit.entry.category enabled h) (n hit refl))
        refl

  none_hit :
      (o : Option Hit) (hit : Hit)
      → kind_of_hit enabled o ≡ none
      → o ≡ some hit
      → Memᴰ hit.entry.category enabled
      → ⊥
  none_hit none hit h e m = cc
  none_hit (some k) hit h e m =
      let same : k ≡ hit = cc in
      none_not_some (rw (same, Memᴰ-has_text hit.entry.category enabled m) at h)
    where
      none_not_some : {j : Kind} → some j ≡ none → ⊥
      none_not_some e = cc

  catalogued-eq :
      (es : List Text)
      → classify_catalogued c es owner method ≡ kind_of_hit es (classify_taint c owner method)
  unfolding classify_catalogued
  catalogued-eq [] = nothing_enabled (classify_taint c owner method)
    where
      nothing_enabled : (o : Option Hit) → none ≡ kind_of_hit [] o
      nothing_enabled none = refl
      nothing_enabled (some hit) = refl
  catalogued-eq (e ∷ es) = refl

  Unclassified-none :
      (include_other : Bool)
      → Unclassified include_other
      → classify_external c enabled include_other owner method return_type ≡ none
  unfolding classify_external classify_call is_connection_type is_db_type
  Unclassified-none include_other h =
      let connection =
        false_of (in_types return_type connection_types)
          (in_types-Named return_type connection_types) h.no_connection in
      let database =
        false_of (in_types owner db_types) (in_types-Named owner db_types) h.no_database in
      let catalogued =
        catalogued-eq enabled
        ∙ hit_none (classify_taint c owner method)
            (λ hit e m. h.not_catalogued (record { hit = hit; listed = e; category = m })) in
      rw
        (
          h.opt_in,
          connection,
          not_Reflective-none owner method h.no_reflection,
          database,
          catalogued,
        )
        refl

  -- The tests of the code that all fail.
  record AllFail (include_other : Bool) : Type 0 where
    opt_in : include_other ≡ false
    connection : is_connection_type return_type ≡ false
    reflective : classify_reflection owner method ≡ none
    database : is_db_type owner ≡ false
    catalogued : classify_catalogued c enabled owner method ≡ none

  none-AllFail :
      (include_other : Bool)
      → classify_external c enabled include_other owner method return_type ≡ none
      → AllFail include_other
  unfolding classify_external classify_call
  none-AllFail include_other h =
      let (j, db) = classify_db-some (classify_catalogued c enabled owner method) (lower method) in
      ground arith

  none-Unclassified :
      (include_other : Bool)
      → classify_external c enabled include_other owner method return_type ≡ none
      → Unclassified include_other
  unfolding is_connection_type is_db_type
  none-Unclassified include_other h =
      let fails = none-AllFail include_other h in
      record {
        opt_in = fails.opt_in;
        no_connection =
            λ n. true-false (Named-in_types return_type connection_types n) fails.connection;
        no_reflection = none-not_Reflective owner method fails.reflective;
        no_database = λ n. true-false (Named-in_types owner db_types n) fails.database;
        not_catalogued = λ k.
            none_hit (classify_taint c owner method) k.hit
              (sym (catalogued-eq enabled) ∙ fails.catalogued) k.listed k.category;
      }

-- A call has no kind exactly when the catch-all is off, its return type is not named as a connection
-- type, its owner is no reflective type and it reaches no code or member through a class or a class
-- loader, its owner is not named as a database type, and the catalog does not have it in an enabled
-- category. A type is named by its full name or by its last part.
pub classify_external-eq-none :
    (c : Catalogue) (enabled : List Text) (include_other : Bool) (owner method return_type : Text)
    → (classify_external c enabled include_other owner method return_type ≡ none)
      ↔ Unclassified c enabled owner method return_type include_other
classify_external-eq-none c enabled include_other owner method return_type = (
  none-Unclassified c enabled owner method return_type include_other,
  Unclassified-none c enabled owner method return_type include_other,
)
