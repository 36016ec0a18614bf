-- ===== src/Classfile/Attributes/RoundTrip.antt =====
-- Reading attributes back (graph_core/bytecode/classfile.py, `_find_attributes`).
use graph_ingest_test.Prelude.{
  ℕ, ◌≡◌, ◌∙◌, ap, refl, List, [], ◌∷◌, ◌++◌, Option, none, some, true, false, Text, text_eq,
  length, flat_map, All, arith, text_eq_iff, text_eq_refl, Bool-cases, inl, inr, if◌then◌else◌,
  append_assoc,
}
use graph_ingest_test.Prelude.Result.{ok}
use graph_ingest_test.Classfile.Reader.RoundTrip.{
  Reads, Reads-bind, Reads-last, Reads-pure, Reads-given, Reads-take, Reads-skip, Reads-u2,
  Reads-u4, be16, be32,
}
use graph_ingest_test.Classfile.Access.{Pool, utf8}
use graph_ingest_test.Classfile.Attributes.{
  Attributes, put, find, is_wanted, skip_attribute, skip_loop, skip_attributes, read_body,
  find_loop, find_attributes,
}

-- An attribute as it is written: the index of its name, the name, and the body.
pub record Attribute : Type 0 where
  pub name_index : ℕ
  pub name : Text
  pub body : List ℕ

abbrev pub write_attribute : Attribute → List ℕ
write_attribute a = be16 a.name_index ++ (be32 (length a.body) ++ a.body)

abbrev pub write_attributes : List Attribute → List ℕ
write_attributes items = be16 (length items) ++ flat_map write_attribute items

-- The name's index holds the name.
abbrev pub IsNamed : Pool → Attribute → Type 0
IsNamed pool a = utf8 pool a.name_index ≡ ok a.name

-- The last body of that name.
unfoldable pub last_body : Text → List Attribute → Option (List ℕ) → Option (List ℕ)
last_body name [] found = found
last_body name (a ∷ items) found =
    last_body name items (if text_eq a.name name then some a.body else found)

find-put :
    (k j : Text) (v : List ℕ) (found : Attributes)
    → find j (put k v found) ≡ (if text_eq k j then some v else find j found)
unfolding find put
find-put k j v [] = refl
find-put k j v ((i, w) ∷ found) = ground (
  arith,
  text_eq_iff k j,
  text_eq_iff i k,
  text_eq_iff i j,
  text_eq_refl k,
  text_eq_refl j,
  find-put k j v found,
)

Reads-skip_loop :
    (items : List Attribute) → Reads (skip_loop (length items)) (flat_map write_attribute items) tt
unfolding skip_loop skip_attribute
Reads-skip_loop [] = Reads-pure tt
Reads-skip_loop (a ∷ items) =
    Reads-bind _ (Reads-bind _ (Reads-u2 _) (Reads-bind _ (Reads-u4 _) (Reads-skip a.body)))
      (Reads-skip_loop items)

-- Attributes of any name and content are stepped over.
pub Reads-skip_attributes :
    (items : List Attribute) → Reads skip_attributes (write_attributes items) tt
unfolding skip_attributes
Reads-skip_attributes items = Reads-bind _ (Reads-u2 _) (Reads-skip_loop items)

module _ (pool : Pool) (wanted : List Text) where
  pub collect : List Attribute → Attributes → Attributes
  collect [] found = found
  collect (a ∷ items) found =
      collect items (if is_wanted wanted a.name then put a.name a.body found else found)

  Reads-body :
      (a : Attribute) (found : Attributes)
      → Reads
          (read_body pool wanted a.name (length a.body) found)
          a.body
          (if is_wanted wanted a.name then put a.name a.body found else found)
  unfolding read_body
  Reads-body a found = elim (Bool-cases (is_wanted wanted a.name)) [
    | inl yes' ↦ rw yes' (Reads-last _ (Reads-take a.body) (Reads-pure _))
    | inr no' ↦ rw no' (Reads-last _ (Reads-skip a.body) (Reads-pure _))
  ]

  Reads-find_loop :
      (items : List Attribute) (found : Attributes)
      → All (IsNamed pool) items
      → Reads
          (find_loop pool wanted (length items) found)
          (flat_map write_attribute items)
          (collect items found)
  unfolding find_loop collect
  Reads-find_loop [] found h = Reads-pure found
  Reads-find_loop (a ∷ items) found h =
      rw
        (
          append_assoc (be16 a.name_index) (be32 (length a.body) ++ a.body),
          append_assoc (be32 (length a.body)) a.body,
        )
        (Reads-bind _ (Reads-u2 a.name_index) (
          Reads-given _ h.0 (
            Reads-bind _ (Reads-u4 (length a.body))
              (Reads-bind _ (Reads-body a found) (Reads-find_loop items _ h.1)))))

  pub Reads-find_attributes :
      (items : List Attribute)
      → All (IsNamed pool) items
      → Reads (find_attributes pool wanted) (write_attributes items) (collect items [])
  unfolding find_attributes
  Reads-find_attributes items h =
      Reads-bind _ (Reads-u2 (length items)) (Reads-find_loop items [] h)

  find-collect :
      (name : Text) (items : List Attribute) (found : Attributes)
      → is_wanted wanted name ≡ true
      → find name (collect items found) ≡ last_body name items (find name found)
  unfolding collect last_body
  find-collect name [] found h = refl
  find-collect name (a ∷ items) found h = elim (Bool-cases (is_wanted wanted a.name)) [
    | inl kept ↦
        rw (kept, collect)
          (find-collect name items (put a.name a.body found) h
            ∙ ap (last_body name items) (find-put a.name name a.body found))
    | inr left ↦
        let other : text_eq a.name name ≡ false = elim (Bool-cases (text_eq a.name name)) [
          | inl same ↦ cc (ap (is_wanted wanted) ((text_eq_iff a.name name).0 same))
          | inr differs ↦ differs
        ] in
        rw (left, collect) (rw other (find-collect name items found h))
  ]

-- From written attributes whose names are in the pool, the dict that is returned has, under a
-- wanted name, the body of the last attribute of that name, whatever other attributes there are;
-- the reading ends behind the last attribute.
pub find_attributes-write :
    (pool : Pool) (wanted : List Text) (name : Text) (items : List Attribute)
    → All (IsNamed pool) items
    → is_wanted wanted name ≡ true
    → (found : Attributes) × Reads (find_attributes pool wanted) (write_attributes items) found
      × (find name found ≡ last_body name items none)
unfolding find
find_attributes-write pool wanted name items h w = (
  collect pool wanted items [],
  Reads-find_attributes pool wanted items h,
  find-collect pool wanted name items [] w,
)
