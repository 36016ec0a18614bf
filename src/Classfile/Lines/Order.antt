-- ===== src/Classfile/Lines/Order.antt =====
-- The order of line number tables and the search in them (graph_core/bytecode/classfile.py:
-- `_parse_line_number_table`, `_line_for_offset`).
use graph_ingest_test.Prelude.{
  ℕ, true, false, ◌≤◌, ◌<◌, ◌≡◌, refl, ap, List, [], ◌∷◌, ◌++◌, arith, All, map, length, flat_map,
  append-nil,
}
use graph_ingest_test.Prelude.Sorting.{sort, IsOrdered, sort-IsOrdered, perm-sort}
use graph_ingest_test.Prelude.Result.{ok}
use graph_ingest_test.Prelude.Int.{ℤ, pos}
use mathlib.Core.List.{Perm}
use graph_ingest_test.Classfile.Shapes.{no_line}
use graph_ingest_test.Classfile.Reader.RoundTrip.{
  Reads, Reads-bind, Reads-last, Reads-pure, Reads-u2, Reads-repeat, be16, run-Reads,
}
use graph_ingest_test.Classfile.Lines.{
  LineTable, pair_leb, sort_pairs, read_line, read_table, parse_line_number_table, line_loop,
  line_for_offset,
}

-- The order of tuples, the start_pc first.
pair_total : (p q : ℕ × ℕ) → pair_leb p q ≡ false → pair_leb q p ≡ true
pair_total (a, b) (c, d) h = ground arith

pair_trans : (p q r : ℕ × ℕ) → pair_leb p q ≡ true → pair_leb q r ≡ true → pair_leb p r ≡ true
pair_trans (a, b) (c, d) (e, f) h k = ground arith

abbrev write_line : ℕ × ℕ → List ℕ
write_line (pc, line) = be16 pc ++ be16 line

abbrev pub write_table : LineTable → List ℕ
write_table ps = be16 (length ps) ++ flat_map write_line ps

id_line : ℕ × ℕ → ℕ × ℕ
id_line p = p

Reads-line : (p : ℕ × ℕ) → Reads read_line (write_line p) p
unfolding read_line
Reads-line (pc, line) = Reads-bind _ (Reads-u2 pc) (Reads-last _ (Reads-u2 line) (Reads-pure _))

All-lines : (ps : LineTable) → All (λ p. Reads read_line (write_line p) p) ps
All-lines [] = tt
All-lines (p ∷ ps) = (Reads-line p, All-lines ps)

map_self : (ps : LineTable) → map (λ p. p) ps ≡ ps
map_self [] = refl
map_self (p ∷ ps) = ap (λ t. p ∷ t) (map_self ps)

Reads-table : (ps : LineTable) → Reads read_table (write_table ps) (sort_pairs ps)
unfolding read_table
Reads-table ps = Reads-bind _ (Reads-u2 (length ps)) (
    Reads-last _ (Reads-repeat read_line write_line (λ p. p) ps (All-lines ps))
      (rw map_self (Reads-pure _)))

pub parse_line_number_table-sort :
    (ps : LineTable) → parse_line_number_table (write_table ps) ≡ ok (sort pair_leb ps)
unfolding parse_line_number_table sort_pairs
parse_line_number_table-sort ps = rw append-nil at (run-Reads read_table [] (Reads-table ps))

-- A table that is written entry by entry, in any order, is read to a table in the order of
-- tuples with the same entries, each as often.
pub parse_line_number_table-write :
    (ps : LineTable)
    → (qs : LineTable) × (parse_line_number_table (write_table ps) ≡ ok qs)
      × IsOrdered pair_leb qs
      × Perm qs ps
parse_line_number_table-write ps = (
  sort pair_leb ps,
  parse_line_number_table-sort ps,
  sort-IsOrdered pair_leb pair_total pair_trans ps,
  perm-sort pair_leb ps,
)

line_loop-before :
    (before rest : LineTable) (offset : ℕ) (best : ℤ)
    → All (λ p. p.0 ≤ offset) before
    → (b : ℤ) × (line_loop (before ++ rest) offset best ≡ line_loop rest offset b)
unfolding line_loop
line_loop-before [] rest offset best h = (best, refl)
line_loop-before ((pc, line) ∷ before) rest offset best h =
    let (b, e) = line_loop-before before rest offset (pos line) h.1 in (b, ground arith)

line_loop-after :
    (after : LineTable) (offset : ℕ) (best : ℤ)
    → All (λ p. offset < p.0) after
    → line_loop after offset best ≡ best
unfolding line_loop
line_loop-after [] offset best h = refl
line_loop-after ((pc, line) ∷ after) offset best h = ground arith

-- Where the entries up to `(start_pc, line)` begin at or before the offset, and those behind it
-- after the offset, the line is that of this entry, the last one at or before the offset.
pub line_for_offset-eq :
    (before after : LineTable) (start_pc line offset : ℕ)
    → All (λ p. p.0 ≤ offset) before
    → start_pc ≤ offset
    → All (λ p. offset < p.0) after
    → line_for_offset (before ++ (start_pc, line) ∷ after) offset ≡ pos line
unfolding line_for_offset line_loop
line_for_offset-eq before after start_pc line offset hb h ha =
    let (b, e) = line_loop-before before ((start_pc, line) ∷ after) offset no_line hb in
    ground (arith, line_loop-after after offset (pos line) ha)
