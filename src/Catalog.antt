-- ===== src/Catalog.antt =====
-- The vulnerability catalog (graph_core/catalog): entries, the merge of the tables, the index by
-- simple name, and the lookups. The tables themselves are arguments.
pub mod Index
use graph_ingest_test.Prelude.{
  ℕ, List, [], ◌∷◌, ◌++◌, Option, none, some, Bool, true, false, not, ◌&&◌, ◌||◌, if◌then◌else◌,
  ◌==◌, any_of, map, drop, Text, codes, lower, starts_with, rsplit_last, is_empty, has_text, find,
  put, update, add_text,
}
use graph_ingest_test.Prelude.Int.{ℤ}

pub data Role : Type 0 where
  source sink sanitizer : Role

-- `identity` is Python's `id()`: entries that are the same object share it.
pub record Entry : Type 0 where
  pub role : Role
  pub category : Text
  pub methods : List (Text × List ℤ)
  pub identity : ℕ

pub record Hit : Type 0 where
  pub entry : Entry
  pub positions : List ℤ

abbrev pub Table : Type 0
Table = List (Text × Entry)

-- The qualified table with the index by simple name.
pub record Catalogue : Type 0 where
  pub java : Table
  pub by_simple_name : Table

-- `rsplit(".", 1)[-1]`
abbrev pub simple_of : Text → Text
simple_of owner = rsplit_last b'.' owner

abbrev pub is_present : Option Entry → Bool
is_present none = false
is_present (some e) = true

-- Mined entries stay where a curated one has the same owner, unless the owner is in `wins`.
unfoldable pub merge_curated : List Text → Table → Table → Table
unfolding find put
merge_curated wins java [] = java
merge_curated wins java ((owner, entry) ∷ curated) =
    merge_curated wins
      (if is_present (find owner java) && not (has_text owner wins)
        then java
        else put owner entry java)
      curated

abbrev set_default : Text → Entry → Table → Table
set_default owner entry java = if is_present (find owner java) then java else put owner entry java

-- javax.* is also known as jakarta.*; the list is a copy of the table before the loop.
unfoldable pub alias_jakarta : Table → Table → Table
unfolding find put
alias_jakarta java [] = java
alias_jakarta java ((owner, entry) ∷ items) =
    alias_jakarta
      (if starts_with (codes "javax.") owner
        then set_default (codes "jakarta." ++ drop 6 owner) entry java
        else java)
      items

abbrev append_owner : Text → Option (List Text) → List Text
append_owner owner none = owner ∷ []
append_owner owner (some owners) = owners ++ owner ∷ []

-- by_simple
unfoldable pub group_owners : List (Text × List Text) → Table → List (Text × List Text)
unfolding update
group_owners groups [] = groups
group_owners groups ((owner, entry) ∷ table) =
    group_owners (update (simple_of owner) (append_owner owner) groups) table

-- All the owners have the entry with this identity.
unfoldable pub share_entry : Table → ℕ → List Text → Bool
unfolding find
share_entry table n [] = true
share_entry table n (owner ∷ owners) =
    elim (find owner table) [ none ↦ false | some e ↦ e.identity == n ]
    && share_entry table n owners

abbrev group_entry : Table → List Text → Option Entry
group_entry table [] = none
group_entry table (owner ∷ owners) = elim (find owner table) [
  | none ↦ none
  | some e ↦ if share_entry table e.identity owners then some e else none
]

unfoldable pub keep_unambiguous : Table → List (Text × List Text) → Table
unfolding share_entry
keep_unambiguous table [] = []
keep_unambiguous table ((simple, owners) ∷ groups) = elim (group_entry table owners) [
  | none ↦ keep_unambiguous table groups
  | some e ↦ (simple, e) ∷ keep_unambiguous table groups
]

unfoldable pub build_simple_index : Table → Table
build_simple_index table = keep_unambiguous table (group_owners [] table)

abbrev pub or_entry : Option Entry → Option Entry → Option Entry
or_entry none f = f
or_entry (some e) f = some e

abbrev hit_of : Text → Option Entry → Option Hit
hit_of method none = none
hit_of method (some e) = elim (find (lower method) e.methods) [
  | none ↦ none
  | some args ↦ some (record { entry = e; positions = args })
]

unfoldable pub classify_taint : Catalogue → Text → Text → Option Hit
unfolding find
classify_taint c owner method =
    if is_empty owner || is_empty method
    then none
    else hit_of method (or_entry (find owner c.java) (find (simple_of owner) c.by_simple_name))

abbrev pub inventory_noise_prefixes : List Text
inventory_noise_prefixes =
    codes "java.lang.String"
    ∷ codes "java.lang.Integer"
    ∷ codes "java.lang.Long"
    ∷ codes "java.lang.Double"
    ∷ codes "java.lang.Float"
    ∷ codes "java.lang.Short"
    ∷ codes "java.lang.Byte"
    ∷ codes "java.lang.Boolean"
    ∷ codes "java.lang.Character"
    ∷ codes "java.lang.Number"
    ∷ codes "java.lang.Math"
    ∷ codes "java.lang.Object"
    ∷ codes "java.lang.Enum"
    ∷ codes "java.lang.Comparable"
    ∷ codes "java.lang.Iterable"
    ∷ codes "java.lang.CharSequence"
    ∷ codes "java.util.Vector"
    ∷ codes "java.util.Hashtable"
    ∷ codes "java.util.ArrayList"
    ∷ codes "java.util.HashMap"
    ∷ codes "java.util.LinkedList"
    ∷ codes "java.util.LinkedHashMap"
    ∷ codes "java.util.HashSet"
    ∷ codes "java.util.TreeMap"
    ∷ codes "java.util.TreeSet"
    ∷ codes "java.util.Iterator"
    ∷ codes "java.util.Enumeration"
    ∷ codes "java.util.Collection"
    ∷ codes "java.util.List"
    ∷ codes "java.util.Map"
    ∷ codes "java.util.Set"
    ∷ codes "java.util.Arrays"
    ∷ codes "java.util.Collections"
    ∷ codes "java.util.Objects"
    ∷ codes "java.util.Optional"
    ∷ codes "java.util.StringTokenizer"
    ∷ codes "java.util.stream"
    ∷ codes "java.math.BigDecimal"
    ∷ codes "java.math.BigInteger"
    ∷ []

unfoldable pub is_inventory_noise : Text → Bool
is_inventory_noise owner = any_of (λ prefix. starts_with prefix owner) inventory_noise_prefixes

abbrev pub high_volume_low_value_categories : List Text
high_volume_low_value_categories =
    codes "CWE-134/format-string" ∷ codes "CWE-117/log-injection" ∷ []

unfoldable pub all_categories : Table → List Text
unfolding add_text
all_categories [] = []
all_categories ((owner, e) ∷ table) = add_text e.category (all_categories table)

unfoldable pub without : List Text → List Text → List Text
without excluded [] = []
without excluded (x ∷ xs) =
    if has_text x excluded then without excluded xs else x ∷ without excluded xs

unfoldable pub recommended_categories : Table → List Text
recommended_categories table = without high_volume_low_value_categories (all_categories table)
