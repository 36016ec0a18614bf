-- ===== src/Findings/Dedupe.antt =====
-- `dedupe` (analysis/findings.py). The dict of groups is an association list in the order of
-- insertion.
pub mod Groups
pub mod Primary
use graph_ingest_test.Prelude.{
  ℕ, ◌-◌, List, [], ◌∷◌, ◌++◌, Bool, not, ◌||◌, if◌then◌else◌, map, length, take, Text, text_eq,
  is_empty, leb, any_of, text_leb,
}
use graph_ingest_test.Prelude.Sorting.{sort}
use graph_ingest_test.Findings.{Finding, Sources, fingerprint, or_else}

abbrev pub Groups : Type 0
Groups = List (Text × List Finding)

-- `f["fingerprint"] = f.get("fingerprint") or fingerprint(store, repo, f)`
unfoldable pub stamp : Sources → Finding → Finding
stamp src f = record f { fingerprint = or_else f.fingerprint (fingerprint src f) }

-- groups.setdefault(fp, []).append(f)
unfoldable pub group_add : Text → Finding → Groups → Groups
group_add fp f [] = (fp, f ∷ []) ∷ []
group_add fp f ((k, fs) ∷ gs) =
    if text_eq k fp then (k, fs ++ f ∷ []) ∷ gs else (k, fs) ∷ group_add fp f gs

unfoldable pub group_all : Sources → List Finding → Groups → Groups
group_all src [] gs = gs
group_all src (f ∷ fs) gs = group_all src fs (group_add (stamp src f).fingerprint (stamp src f) gs)

abbrev pub by_path : Finding → Finding → Bool
by_path f g = leb (length f.path_ids) (length g.path_ids)

-- {f.get("entry") for f in group if f.get("entry")}, each once
unfoldable pub entries_of : List Finding → List Text
entries_of [] = []
entries_of (f ∷ fs) =
    let rest = entries_of fs in
    if is_empty f.entry || any_of (text_eq f.entry) rest then rest else f.entry ∷ rest

-- [e for e in entries if e != entry]
unfoldable pub others : Text → List Text → List Text
others entry [] = []
others entry (e ∷ es) = let rest = others entry es in if text_eq e entry then rest else e ∷ rest

-- The first of the sorted group, with what the group says of its reach. A group is never empty.
unfoldable pub primary : List Finding → List Finding → List Finding
primary group [] = []
primary group (f ∷ fs) =
    let entries = sort text_leb (entries_of group) in
    record f {
      reachable_from_count = length entries;
      also_reachable_from = take 20 (others f.entry entries);
      duplicate_paths = length group - 1;
    }
    ∷ []

unfoldable pub primaries : Groups → List Finding
primaries [] = []
primaries ((fp, group) ∷ gs) = primary group (sort by_path group) ++ primaries gs

unfoldable pub dedupe : Sources → List Finding → List Finding
dedupe src findings = primaries (group_all src findings [])
