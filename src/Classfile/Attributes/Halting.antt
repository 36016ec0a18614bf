-- ===== src/Classfile/Attributes/Halting.antt =====
-- The loops over attributes end on any bytes (graph_core/bytecode/classfile.py).
use graph_ingest_test.Prelude.{ℕ, zero, suc, List, [], Text, Bool-cases, inl, inr}
use graph_ingest_test.Classfile.Reader.Halting.{
  Halts, Halts-bind, Halts-pure, Halts-lift, Halts-take_bytes, Halts-u2, Halts-u4, Halts-skip,
}
use graph_ingest_test.Classfile.Access.{Pool}
use graph_ingest_test.Classfile.Access.Halting.{halts-utf8}
use graph_ingest_test.Classfile.Attributes.{
  Attributes, is_wanted, skip_attribute, skip_loop, skip_attributes, read_body, find_loop,
  find_attributes,
}

Halts-skip_loop : (n : ℕ) → Halts (skip_loop n)
unfolding skip_loop skip_attribute
Halts-skip_loop zero = Halts-pure tt
Halts-skip_loop (suc n) =
    Halts-bind _ (Halts-bind _ Halts-u2 (λ name. Halts-bind _ Halts-u4 (λ size. Halts-skip size)))
      (λ _. Halts-skip_loop n)

pub Halts-skip_attributes : Halts skip_attributes
unfolding skip_attributes
Halts-skip_attributes = Halts-bind _ Halts-u2 Halts-skip_loop

module _ (pool : Pool) (wanted : List Text) where
  Halts-read_body :
      (name : Text) (size : ℕ) (found : Attributes) → Halts (read_body pool wanted name size found)
  unfolding read_body
  Halts-read_body name size found = elim (Bool-cases (is_wanted wanted name)) [
    | inl e ↦ rw e (Halts-bind _ (Halts-take_bytes size) (λ body. Halts-pure _))
    | inr e ↦ rw e (Halts-bind _ (Halts-skip size) (λ _. Halts-pure found))
  ]

  Halts-find_loop : (n : ℕ) (found : Attributes) → Halts (find_loop pool wanted n found)
  unfolding find_loop
  Halts-find_loop zero found = Halts-pure found
  Halts-find_loop (suc n) found = Halts-bind _ Halts-u2 (λ index.
      Halts-bind _ (Halts-lift _ (halts-utf8 pool index)) (λ name.
        Halts-bind _ Halts-u4
          (λ size. Halts-bind _ (Halts-read_body name size found) (Halts-find_loop n))))

  pub Halts-find_attributes : Halts (find_attributes pool wanted)
  unfolding find_attributes
  Halts-find_attributes = Halts-bind _ Halts-u2 (λ n. Halts-find_loop n [])
