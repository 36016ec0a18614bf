-- ===== src/Classfile/Members/Halting.antt =====
-- Reading any bytes as a class file ends (graph_core/bytecode/classfile.py, `parse_class`).
use graph_ingest_test.Prelude.{
  ℕ, ◌≡◌, refl, List, Option, none, some, true, ◌*◌, ◌==◌, take, codes, Bool-cases, inl, inr,
}
use graph_ingest_test.Prelude.Result.{
  Result, class_file_error, struct_error, out_of_fuel, ok, err, halts,
}
use graph_ingest_test.Classfile.Reader.{lift}
use graph_ingest_test.Classfile.Reader.Halting.{
  Halts, Halts-bind, Halts-pure, Halts-lift, Halts-take_bytes, Halts-u2, Halts-u4, Halts-skip,
  Halts-repeat, halts-run, halts-unpack_h,
}
use graph_ingest_test.Classfile.Pool.Halting.{Halts-parse_constant_pool}
use graph_ingest_test.Classfile.Access.{Pool, utf8}
use graph_ingest_test.Classfile.Access.Halting.{halts-utf8, halts-class_name}
use graph_ingest_test.Classfile.Attributes.{find}
use graph_ingest_test.Classfile.Attributes.Halting.{Halts-skip_attributes, Halts-find_attributes}
use graph_ingest_test.Classfile.Shapes.{MethodInfo}
use graph_ingest_test.Classfile.Lines.{LineTable}
use graph_ingest_test.Classfile.Lines.Halting.{halts-parse_line_number_table}
use graph_ingest_test.Classfile.Code.Halting.{halts-scan_code}
use graph_ingest_test.Classfile.Members.{
  lines_of, read_code, scanned, with_code, with_lines, read_field, read_method, parse_fields,
  parse_methods, read_class_name, source_file_of, read_class, magic, check_magic, read_versions,
  read_file, parse_class,
}

halts-lines_of : (o : Option (List ℕ)) → halts (lines_of o) ≡ true
halts-lines_of none = refl
halts-lines_of (some body) = halts-parse_line_number_table body

module _ (pool : Pool) where
  Halts-read_code : Halts (read_code pool)
  unfolding read_code
  Halts-read_code = Halts-bind _ (Halts-skip 4) (λ _. Halts-bind _ Halts-u4 (λ size.
      Halts-bind _ (Halts-take_bytes size) (λ code. Halts-bind _ Halts-u2 (λ handlers.
        Halts-bind _ (Halts-skip (handlers * 8)) (λ _.
          Halts-bind _ (Halts-find_attributes pool _)
            (λ attrs. Halts-bind _ (Halts-lift _ (halts-lines_of _)) (λ lines. Halts-pure _)))))))

  halts-scanned :
      (m : MethodInfo) (r : Result (List ℕ × LineTable))
      → halts r ≡ true
      → halts (scanned pool m r) ≡ true
  unfolding scanned
  halts-scanned m (ok (code, lines)) h = halts-scan_code code pool lines (with_lines lines m)
  halts-scanned m (err class_file_error) h = refl
  halts-scanned m (err struct_error) h = refl
  halts-scanned m (err out_of_fuel) h = cc

  halts-with_code : (o : Option (List ℕ)) (m : MethodInfo) → halts (with_code pool o m) ≡ true
  unfolding with_code
  halts-with_code none m = refl
  halts-with_code (some body) m =
      halts-scanned m _ (halts-run (read_code pool) body Halts-read_code)

  Halts-utf8 : (index : ℕ) → Halts (lift (utf8 pool index))
  Halts-utf8 index = Halts-lift _ (halts-utf8 pool index)

  Halts-read_field : Halts (read_field pool)
  unfolding read_field
  Halts-read_field = Halts-bind _ Halts-u2 (λ flags. Halts-bind _ Halts-u2 (λ i.
      Halts-bind _ (Halts-utf8 i) (λ name. Halts-bind _ Halts-u2 (λ j.
        Halts-bind _ (Halts-utf8 j)
          (λ desc. Halts-bind _ Halts-skip_attributes (λ _. Halts-pure _))))))

  Halts-read_method : Halts (read_method pool)
  unfolding read_method
  Halts-read_method = Halts-bind _ Halts-u2 (λ flags. Halts-bind _ Halts-u2 (λ i.
      Halts-bind _ (Halts-utf8 i) (λ name. Halts-bind _ Halts-u2 (λ j.
        Halts-bind _ (Halts-utf8 j) (λ desc.
          Halts-bind _ (Halts-find_attributes pool _)
            (λ attrs. Halts-lift _ (halts-with_code (find (codes "Code") attrs) _)))))))

  Halts-parse_fields : Halts (parse_fields pool)
  unfolding parse_fields
  Halts-parse_fields = Halts-bind _ Halts-u2 (λ n. Halts-repeat n Halts-read_field)

  Halts-parse_methods : Halts (parse_methods pool)
  unfolding parse_methods
  Halts-parse_methods = Halts-bind _ Halts-u2 (λ n. Halts-repeat n Halts-read_method)

  Halts-read_class_name : Halts (read_class_name pool)
  unfolding read_class_name
  Halts-read_class_name = Halts-bind _ Halts-u2 (λ i. Halts-lift _ (halts-class_name pool i))

  Halts-source_file_of : (o : Option (List ℕ)) → Halts (source_file_of pool o)
  unfolding source_file_of
  Halts-source_file_of none = Halts-pure _
  Halts-source_file_of (some body) =
      Halts-bind _ (Halts-lift _ (halts-unpack_h (take 2 body))) Halts-utf8

  Halts-read_class : (major : ℕ) → Halts (read_class pool major)
  unfolding read_class
  Halts-read_class major = Halts-bind _ Halts-u2 (λ flags.
      Halts-bind _ Halts-read_class_name (λ name. Halts-bind _ Halts-read_class_name (λ super.
        Halts-bind _ Halts-u2 (λ n.
          Halts-bind _ (Halts-repeat n Halts-read_class_name) (λ interfaces.
            Halts-bind _ Halts-parse_fields (λ fields. Halts-bind _ Halts-parse_methods (λ methods.
              Halts-bind _ (Halts-find_attributes pool _)
                (λ attrs. Halts-bind _ (Halts-source_file_of _) (λ file. Halts-pure _)))))))))

Halts-check_magic : (word : ℕ) → Halts (check_magic word)
unfolding check_magic
Halts-check_magic word = elim (Bool-cases (word == magic)) [
  | inl e ↦ rw e (Halts-pure tt)
  | inr e ↦ rw e (Halts-lift (err class_file_error) refl)
]

Halts-read_versions : Halts read_versions
unfolding read_versions
Halts-read_versions = Halts-bind _ Halts-u2 (λ minor. Halts-bind _ Halts-u2 (λ major.
    Halts-bind _ Halts-u2 (λ count.
      Halts-bind _ (Halts-parse_constant_pool count) (λ raw. Halts-read_class raw major))))

-- On every byte sequence, whether it is a class file or not, the reader ends with a class or with an
-- exception: the fuel of its loops is always enough.
pub halts-parse_class : (bytes : List ℕ) → halts (parse_class bytes) ≡ true
unfolding parse_class read_file
halts-parse_class bytes = halts-run _ bytes (
    Halts-bind _ Halts-u4
      (λ word. Halts-bind _ (Halts-check_magic word) (λ _. Halts-read_versions)))
