-- ===== src/Classfile/Descriptor/Halting.antt =====
-- Reading the parameters of any text as a descriptor ends (graph_core/bytecode/classfile.py,
-- `descriptor_param_types`).
use graph_ingest_test.Prelude.{
  ℕ, zero, suc, ◌<◌, ◌≤◌, ◌≡◌, refl, [], ◌∷◌, Option, none, some, true, length, ◌==◌, Text, arith,
  Bool-cases, inl, inr,
}
use graph_ingest_test.Prelude.Result.{
  Result, class_file_error, struct_error, out_of_fuel, ok, err, ◌>>=◌, halts, halts-bind,
}
use graph_ingest_test.Classfile.Descriptor.{
  after_paren, until_semicolon, param_type, params_loop, params_of, descriptor_param_types,
}

-- Where a type is read, less than the text is left.
abbrev Shortens : Text → Result (Text × Text) → Type 0
Shortens s (ok (t, rest)) = length rest < length s
Shortens s (err class_file_error) = Unit
Shortens s (err struct_error) = Unit
Shortens s (err out_of_fuel) = ⊥

abbrev Leaves : Text → Option (Text × Text) → Type 0
Leaves s none = Unit
Leaves s (some (t, rest)) = length rest < length s

until_semicolon-Leaves : (s : Text) → Leaves s (until_semicolon s)
unfolding until_semicolon
until_semicolon-Leaves [] = tt
until_semicolon-Leaves (x ∷ xs) = elim (Bool-cases (x == b';')) [
  | inl e ↦ rw e (omega arith)
  | inr e ↦ rw (e, until_semicolon) (longer (until_semicolon xs) (until_semicolon-Leaves xs))
]
  where
    longer :
        (o : Option (Text × Text))
        → Leaves xs o
        → Leaves (x ∷ xs) (elim o [ none ↦ none | some (t, rest) ↦ some (x ∷ t, rest) ])
    longer none h = tt
    longer (some (t, rest)) h = omega arith

param_type-Shortens : (s : Text) → Shortens s (param_type s)
unfolding param_type
param_type-Shortens [] = tt
param_type-Shortens (x ∷ xs) = elim (Bool-cases (x == b'[')) [
  | inl e ↦ rw (e, param_type) (array_of (param_type xs) (param_type-Shortens xs))
  | inr d ↦ elim (Bool-cases (x == b'L')) [
    | inl e ↦
        rw (d, e, param_type)
          (object_of (until_semicolon (x ∷ xs)) (until_semicolon-Leaves (x ∷ xs)))
    | inr e ↦ rw (d, e, param_type) (omega arith)
  ]
]
  where
    array_of :
        (r : Result (Text × Text))
        → Shortens xs r
        → Shortens (x ∷ xs) (do (t, rest) ← r; ok (x ∷ t, rest))
    array_of (ok (t, rest)) h = omega arith
    array_of (err class_file_error) h = tt
    array_of (err struct_error) h = tt
    array_of (err out_of_fuel) h = h

    object_of :
        (o : Option (Text × Text))
        → Leaves (x ∷ xs) o
        → Shortens (x ∷ xs) (elim o [ none ↦ err class_file_error | some found ↦ ok found ])
    object_of none h = tt
    object_of (some (t, rest)) h = h

halts-shorter :
    {B : Type 0} (s : Text) (r : Result (Text × Text)) (f : Text × Text → Result B)
    → Shortens s r
    → ((t rest : Text) → length rest < length s → halts (f (t, rest)) ≡ true)
    → halts (r >>= f) ≡ true
halts-shorter s (ok (t, rest)) f h k = k t rest h
halts-shorter s (err class_file_error) f h k = refl
halts-shorter s (err struct_error) f h k = refl
halts-shorter s (err out_of_fuel) f h k = absurd h

halts-params_loop : (fuel : ℕ) (s : Text) → length s ≤ fuel → halts (params_loop fuel s) ≡ true
unfolding params_loop
halts-params_loop zero [] h = refl
halts-params_loop (suc fuel) [] h = refl
halts-params_loop zero (x ∷ xs) h = absurd (omega arith)
halts-params_loop (suc fuel) (x ∷ xs) h = elim (Bool-cases (x == b')')) [
  | inl e ↦ rw (e, params_loop) refl
  | inr e ↦
      rw (e, params_loop)
        (halts-shorter (x ∷ xs) (param_type (x ∷ xs)) _ (param_type-Shortens (x ∷ xs))
          (λ t rest less. halts-bind _ _ (halts-params_loop fuel rest (omega arith)) (λ ts. refl)))
]

halts-params_of : (o : Option Text) → halts (params_of o) ≡ true
unfolding params_of
halts-params_of none = refl
halts-params_of (some rest) = halts-params_loop (length rest) rest (omega arith)

-- On every text, whether it is a descriptor or not, the parameters are read to a list or to an
-- exception: the length of the text is fuel enough.
pub halts-descriptor_param_types : (s : Text) → halts (descriptor_param_types s) ≡ true
unfolding descriptor_param_types
halts-descriptor_param_types s = halts-params_of (after_paren s)
