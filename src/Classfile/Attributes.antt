-- ===== src/Classfile/Attributes.antt =====
-- Attributes (graph_core/bytecode/classfile.py: `_skip_attributes`, `_find_attributes`). The dict
-- from names to bodies is an association list; a name that comes again replaces the first body.
pub mod RoundTrip
pub mod Halting
use graph_ingest_test.Prelude.{
  ℕ, zero, suc, List, [], ◌∷◌, Option, none, some, Bool, any_of, Text, text_eq, if◌then◌else◌,
}
use graph_ingest_test.Classfile.Reader.{M, ◌>>=◌, ◌>>◌, pure, lift, take_bytes, u2, u4, skip}
use graph_ingest_test.Classfile.Access.{Pool, utf8}

abbrev pub Attributes : Type 0
Attributes = List (Text × List ℕ)

-- found[name] = body
pub put : Text → List ℕ → Attributes → Attributes
put name body [] = (name, body) ∷ []
put name body ((k, v) ∷ found) =
    if text_eq k name then (k, body) ∷ found else (k, v) ∷ put name body found

-- attrs.get(name)
pub find : Text → Attributes → Option (List ℕ)
find name [] = none
find name ((k, v) ∷ found) = if text_eq k name then some v else find name found

abbrev pub is_wanted : List Text → Text → Bool
is_wanted wanted name = any_of (text_eq name) wanted

pub skip_attribute : M (Unit {0})
skip_attribute = do name_index ← u2; size ← u4; skip size

pub skip_loop : ℕ → M (Unit {0})
skip_loop zero = pure tt
skip_loop (suc n) = do skip_attribute; skip_loop n

pub skip_attributes : M (Unit {0})
skip_attributes = do n ← u2; skip_loop n

module _ (pool : Pool) (wanted : List Text) where
  -- The body is kept if the name is wanted, and stepped over if not.
  pub read_body : Text → ℕ → Attributes → M Attributes
  read_body name size found =
      if is_wanted wanted name
      then (do body ← take_bytes size; pure (put name body found))
      else (do skip size; pure found)

  pub find_loop : ℕ → Attributes → M Attributes
  find_loop zero found = pure found
  find_loop (suc n) found = do
    name_index ← u2
    name ← lift (utf8 pool name_index)
    size ← u4
    found' ← read_body name size found
    find_loop n found'

  pub find_attributes : M Attributes
  find_attributes = do n ← u2; find_loop n []
