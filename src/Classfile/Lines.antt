-- ===== src/Classfile/Lines.antt =====
-- Line number tables (graph_core/bytecode/classfile.py: `_parse_line_number_table`,
-- `_line_for_offset`).
pub mod Order
pub mod Halting
use graph_ingest_test.Prelude.{
  ℕ, zero, suc, ◌≤◌, ◌<◌, ◌≡◌, refl, List, [], ◌∷◌, ◌++◌, Bool, true, false, ◌&&◌, ◌||◌, ltb, leb,
  ◌==◌, if◌then◌else◌, arith, All,
}
use graph_ingest_test.Prelude.Sorting.{sort}
use graph_ingest_test.Prelude.Result.{Result}
use graph_ingest_test.Prelude.Int.{ℤ, pos}
use graph_ingest_test.Classfile.Reader.{M, ◌>>=◌, pure, u2, repeat, run}
use graph_ingest_test.Classfile.Shapes.{no_line}

-- (start_pc, line)
abbrev pub LineTable : Type 0
LineTable = List (ℕ × ℕ)

-- Python compares tuples from the left.
abbrev pub pair_leb : ℕ × ℕ → ℕ × ℕ → Bool
pair_leb (a, b) (c, d) = ltb a c || ((a == c) && leb b d)

-- `entries.sort()`
sort_pairs : LineTable → LineTable
sort_pairs ps = sort pair_leb ps

read_line : M (ℕ × ℕ)
read_line = do pc ← u2; line ← u2; pure (pc, line)

read_table : M LineTable
unfolding read_line sort_pairs
read_table = do n ← u2; entries ← repeat n read_line; pure (sort_pairs entries)

unfoldable pub parse_line_number_table : List ℕ → Result LineTable
unfolding read_table
parse_line_number_table body = run read_table body

-- The loop over the table with the variable `best`.
line_loop : LineTable → ℕ → ℤ → ℤ
line_loop [] offset best = best
line_loop ((start_pc, line) ∷ t) offset best =
    if ltb offset start_pc then best else line_loop t offset (pos line)

unfoldable pub line_for_offset : LineTable → ℕ → ℤ
unfolding line_loop
line_for_offset table offset = line_loop table offset no_line
