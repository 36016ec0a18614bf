-- ===== src/Classfile/Descriptor/RoundTrip.antt =====
-- Reading back a method descriptor that is written from its types (JVMS 4.3.3), for
-- graph_core/bytecode/classfile.py.
use graph_ingest_test.Prelude.{
  ℕ, zero, suc, ◌≤◌, ◌<◌, ◌≡◌, refl, List, [], ◌∷◌, ◌++◌, append_assoc, false, some, length,
  length-append, flat_map, map, All, ◌==◌, has_char, Text, arith,
}
use graph_ingest_test.Prelude.Result.{ok, ◌>>=◌}
use graph_ingest_test.Classfile.Descriptor.{
  until_semicolon, param_type, params_loop, descriptor_param_types,
}

-- A type of JVMS 4.3.2: a one-letter base type, a class by its internal name, or an array.
pub data JavaType : Type 0 where
  base : ℕ → JavaType
  object : Text → JavaType
  array : JavaType → JavaType

-- A base type has a letter that means nothing else, and a class name has no `;`.
abbrev pub IsJavaType : JavaType → Type 0
IsJavaType (base c) = (c == b'[' ≡ false) × (c == b'L' ≡ false) × (c == b')' ≡ false)
IsJavaType (object name) = has_char b';' name ≡ false
IsJavaType (array t) = IsJavaType t

abbrev pub write_type : JavaType → Text
write_type (base c) = c ∷ []
write_type (object name) = b'L' ∷ (name ++ b';' ∷ [])
write_type (array t) = b'[' ∷ write_type t

abbrev pub write_descriptor : List JavaType → Text → Text
write_descriptor ts result = b'(' ∷ (flat_map write_type ts ++ b')' ∷ result)

until_semicolon-append :
    (name rest : Text)
    → has_char b';' name ≡ false
    → until_semicolon (name ++ b';' ∷ rest) ≡ some (name ++ b';' ∷ [], rest)
unfolding until_semicolon
until_semicolon-append [] rest h = refl
until_semicolon-append (x ∷ xs) rest h = ground (arith, until_semicolon-append xs rest)

param_type-write :
    (t : JavaType) (rest : Text)
    → IsJavaType t
    → param_type (write_type t ++ rest) ≡ ok (write_type t, rest)
unfolding param_type
param_type-write (base c) rest h = ground arith
param_type-write (object name) rest h =
    rw (append_assoc name (b';' ∷ []) rest) (rw (until_semicolon-append name rest h) refl)
param_type-write (array t) rest h = rw (param_type-write t rest h) refl

length-write_type : (t : JavaType) → 0 < length (write_type t)
length-write_type (base c) = omega arith
length-write_type (object name) = omega arith
length-write_type (array t) = omega arith

-- A type never begins with the closing parenthesis.
head-write_type :
    (t : JavaType) (rest : Text)
    → IsJavaType t
    → (x : ℕ) × (xs : Text) × (write_type t ++ rest ≡ x ∷ xs) × (x == b')' ≡ false)
head-write_type (base c) rest h = (c, rest, refl, h.2)
head-write_type (object name) rest h = (b'L', _, refl, refl)
head-write_type (array t) rest h = (b'[', _, refl, refl)

params_loop-cons :
    (fuel x : ℕ) (xs t rest : Text)
    → x == b')' ≡ false
    → param_type (x ∷ xs) ≡ ok (t, rest)
    → params_loop (suc fuel) (x ∷ xs) ≡ (do ts ← params_loop fuel rest; ok (t ∷ ts))
unfolding params_loop
params_loop-cons fuel x xs t rest test read = rw (test, params_loop, read) refl

params_loop-step :
    (fuel : ℕ) (t : JavaType) (rest : Text)
    → IsJavaType t
    → params_loop (suc fuel) (write_type t ++ rest)
      ≡ (do ts ← params_loop fuel rest; ok (write_type t ∷ ts))
params_loop-step fuel t rest h =
    let (x, xs, e, test) = head-write_type t rest h in
    rw e (params_loop-cons fuel x xs (write_type t) rest test (rw e at (param_type-write t rest h)))

params_loop-write :
    (ts : List JavaType) (result : Text) (fuel : ℕ)
    → All IsJavaType ts
    → length ts ≤ fuel
    → params_loop fuel (flat_map write_type ts ++ b')' ∷ result) ≡ ok (map write_type ts)
params_loop-write [] result zero h f = unfold params_loop in refl
params_loop-write [] result (suc fuel) h f = unfold params_loop in refl
params_loop-write (t ∷ ts) result zero h f = elim f [ ]
params_loop-write (t ∷ ts) result (suc fuel) h f =
    rw
      (
        append_assoc (write_type t) (flat_map write_type ts) (b')' ∷ result),
        params_loop-step fuel t (flat_map write_type ts ++ b')' ∷ result) h.0,
        params_loop-write ts result fuel h.1 (omega arith),
      )
      refl

length-flat_map : (ts : List JavaType) → length ts ≤ length (flat_map write_type ts)
length-flat_map [] = omega arith
length-flat_map (t ∷ ts) = omega (
  arith,
  length-flat_map ts,
  length-write_type t,
  length-append (write_type t) (flat_map write_type ts),
)

-- From a descriptor that is written of well-formed parameter types and any result, the reader
-- returns the written types, in order.
pub descriptor_param_types-write :
    (ts : List JavaType) (result : Text)
    → All IsJavaType ts
    → descriptor_param_types (write_descriptor ts result) ≡ ok (map write_type ts)
unfolding descriptor_param_types
descriptor_param_types-write ts result h =
    params_loop-write ts result _ h
      (omega (arith, length-flat_map ts, length-append (flat_map write_type ts) (b')' ∷ result)))
