-- ===== src/Prelude/Search.antt =====
-- The measure of a search through a table of successors: the arcs of the keys not yet visited.
use mathlib.Core.List.{List, [], ◌∷◌, ◌++◌}
use mathlib.Core.Option.{Option, none, some}
use mathlib.Core.Bool.{false}
use mathlib.Core.Logic.{inl, inr}
use mathlib.Core.Path.{◌≡◌, refl}
use Prim.Native.Nat.{ℕ, ◌+◌, ◌≤◌}
use native.Mathlib.Omega.{arith}
use graph_ingest_test.Prelude.Tests.{if◌then◌else◌, Bool-cases}
use graph_ingest_test.Prelude.Strings.{Text, text_eq, text_eq_iff}
use graph_ingest_test.Prelude.AnyOf.{any_of-append}
use graph_ingest_test.Prelude.Dict.{find, has_text}

module _ {ℓ} {V : Type ℓ} (size : V → ℕ) where
  -- The number of arcs of a whole table.
  unfoldable pub arcs : List (Text × V) → ℕ
  arcs [] = 0
  arcs ((k, v) ∷ table) = size v + arcs table

  pub open_arcs : List (Text × V) → List Text → ℕ
  open_arcs [] visited = 0
  open_arcs ((k, v) ∷ table) visited =
      (if has_text k visited then 0 else size v) + open_arcs table visited

  abbrev pub size_of : Option V → ℕ
  size_of none = 0
  size_of (some v) = size v

  pub open_arcs_nil : (table : List (Text × V)) → open_arcs table [] ≡ arcs table
  unfolding open_arcs arcs
  open_arcs_nil [] = refl
  open_arcs_nil ((k, v) ∷ table) = omega (arith, open_arcs_nil table)

  open_arcs_le :
      (table : List (Text × V)) (visited : List Text) (a : Text)
      → open_arcs table (visited ++ a ∷ []) ≤ open_arcs table visited
  unfolding open_arcs
  open_arcs_le [] visited a = omega arith
  open_arcs_le ((k, v) ∷ table) visited a =
      ground (arith, open_arcs_le table visited a, any_of-append (text_eq k) visited a)

  -- A visit closes the arcs of the key.
  pub open_arcs-visit :
      (table : List (Text × V)) (visited : List Text) (a : Text)
      → has_text a visited ≡ false
      → open_arcs table (visited ++ a ∷ []) + size_of (find a table) ≤ open_arcs table visited
  unfolding open_arcs find
  open_arcs-visit [] visited a n = omega arith
  open_arcs-visit ((k, v) ∷ table) visited a n = elim (Bool-cases (text_eq k a)) [
    | inl e ↦ ground (
      arith,
      open_arcs_le table visited a,
      any_of-append (text_eq k) visited a,
      text_eq_iff k a,
      e,
      n,
    )
    | inr e ↦
        ground (arith, open_arcs-visit table visited a, any_of-append (text_eq k) visited a, e, n)
  ]
