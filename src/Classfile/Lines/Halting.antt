-- ===== src/Classfile/Lines/Halting.antt =====
-- Reading a line number table ends on any bytes (graph_core/bytecode/classfile.py).
use graph_ingest_test.Prelude.{ℕ, ◌≡◌, List, true}
use graph_ingest_test.Prelude.Result.{halts}
use graph_ingest_test.Classfile.Reader.Halting.{
  Halts, Halts-bind, Halts-pure, Halts-u2, Halts-repeat, halts-run,
}
use graph_ingest_test.Classfile.Lines.{read_line, read_table, parse_line_number_table}

Halts-read_line : Halts read_line
unfolding read_line
Halts-read_line = Halts-bind _ Halts-u2 (λ pc. Halts-bind _ Halts-u2 (λ line. Halts-pure _))

Halts-read_table : Halts read_table
unfolding read_table
Halts-read_table =
    Halts-bind _ Halts-u2
      (λ n. Halts-bind _ (Halts-repeat n Halts-read_line) (λ entries. Halts-pure _))

pub halts-parse_line_number_table : (body : List ℕ) → halts (parse_line_number_table body) ≡ true
unfolding parse_line_number_table
halts-parse_line_number_table body = halts-run read_table body Halts-read_table
