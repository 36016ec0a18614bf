-- ===== src/Classfile/Descriptor.antt =====
-- Field and method descriptors (graph_core/bytecode/classfile.py: `descriptor_param_types`,
-- `descriptor_arity`, `type_name`, `simple_name`).
pub mod RoundTrip
pub mod Halting
use graph_ingest_test.Prelude.{
  ℕ, zero, suc, ◌≡◌, refl, List, [], ◌∷◌, ◌++◌, Option, none, some, Bool, true, false, not, ◌&&◌,
  length, drop, take, ◌-◌, ltb, leb, ◌==◌, if◌then◌else◌, Text, codes, text_eq, replace_char,
  rsplit_last, get_elem?,
}
use graph_ingest_test.Prelude.Result.{Result, ok, err, class_file_error, out_of_fuel, ◌>>=◌}

-- `descriptor.index("(") + 1`; `none` if there is no parenthesis.
after_paren : Text → Option Text
after_paren [] = none
after_paren (x ∷ xs) = if x == b'(' then some xs else after_paren xs

-- `descriptor.find(";", i)`: the characters up to and with the first `;`, and what follows.
until_semicolon : Text → Option (Text × Text)
until_semicolon [] = none
until_semicolon (x ∷ xs) =
    if x == b';'
    then some (x ∷ [], xs)
    else elim (until_semicolon xs) [ none ↦ none | some (t, rest) ↦ some (x ∷ t, rest) ]

-- One parameter from `start` on: its array marks, then an object type up to `;` or one character.
param_type : Text → Result (Text × Text)
unfolding until_semicolon
param_type [] = err class_file_error
param_type (x ∷ xs) =
    if x == b'['
    then (do (t, rest) ← param_type xs; ok (x ∷ t, rest))
    else if x == b'L'
    then elim (until_semicolon (x ∷ xs)) [ none ↦ err class_file_error | some found ↦ ok found ]
    else ok (x ∷ [], xs)

-- `while i < len(descriptor) and descriptor[i] != ")"`, on what is left of the text. Each round
-- takes a character at least.
params_loop : ℕ → Text → Result (List Text)
unfolding param_type
params_loop fuel [] = ok []
params_loop zero (x ∷ xs) = if x == b')' then ok [] else err out_of_fuel
params_loop (suc fuel) (x ∷ xs) = elim (x == b')') [
  | true ↦ ok []
  | false ↦ (do (t, rest) ← param_type (x ∷ xs); ts ← params_loop fuel rest; ok (t ∷ ts))
]

params_of : Option Text → Result (List Text)
unfolding params_loop
params_of none = err class_file_error
params_of (some rest) = params_loop (length rest) rest

unfoldable pub descriptor_param_types : Text → Result (List Text)
unfolding params_of after_paren
descriptor_param_types descriptor = params_of (after_paren descriptor)

unfoldable pub descriptor_arity : Text → Result ℕ
descriptor_arity descriptor = do ts ← descriptor_param_types descriptor; ok (length ts)

-- `_PRIMITIVES.get(descriptor, descriptor)`
primitive : Text → Text
primitive (c ∷ []) =
    if c == b'B'
    then codes "byte"
    else if c == b'C'
    then codes "char"
    else if c == b'D'
    then codes "double"
    else if c == b'F'
    then codes "float"
    else if c == b'I'
    then codes "int"
    else if c == b'J'
    then codes "long"
    else if c == b'S'
    then codes "short"
    else if c == b'Z'
    then codes "boolean"
    else if c == b'V'
    then codes "void"
    else c ∷ []
primitive descriptor = descriptor

-- `s.endswith(";")` and `s[:-1]` of a text that is not empty.
ends_with_semicolon : Text → Bool
ends_with_semicolon [] = false
ends_with_semicolon (x ∷ []) = x == b';'
ends_with_semicolon (x ∷ y ∷ ys) = ends_with_semicolon (y ∷ ys)

drop_last : Text → Text
drop_last [] = []
drop_last (x ∷ []) = []
drop_last (x ∷ y ∷ ys) = x ∷ drop_last (y ∷ ys)

base_name : Text → Text
unfolding primitive ends_with_semicolon drop_last
base_name [] = []
base_name (x ∷ xs) =
    if x == b'L' && ends_with_semicolon (x ∷ xs)
    then replace_char b'/' b'.' (drop_last xs)
    else primitive (x ∷ xs)

-- Each leading `[` is a `[]` behind the name.
unfoldable pub type_name : Text → Text
unfolding base_name
type_name [] = []
type_name (x ∷ xs) = if x == b'[' then type_name xs ++ codes "[]" else base_name (x ∷ xs)

unfoldable pub simple_name : Text → Text
simple_name name = rsplit_last b'.' (replace_char b'/' b'.' name)

params_example :
    descriptor_param_types (codes "(JLjava/lang/String;[I)V")
    ≡ ok (codes "J" ∷ codes "Ljava/lang/String;" ∷ codes "[I" ∷ [])
unfolding descriptor_param_types
params_example = refl

type_name_example : type_name (codes "[Ljava/lang/String;") ≡ codes "java.lang.String[]"
unfolding type_name
type_name_example = refl
