-- ===== src/Matcher/Names.antt =====
-- Names and types in the form that both sides share (graph_core/bytecode/matcher.py:
-- `binary_to_source_fqn` to `method_lookup_name`, and the predicates on methods).
use graph_ingest_test.Prelude.{
  ◌≡◌, refl, List, [], ◌∷◌, Bool, not, ◌&&◌, ◌||◌, if◌then◌else◌, ◌==◌, Text, codes, text_eq,
  has_char, replace_char, rsplit_last, split_head, is_digit, strip, map,
}
use graph_ingest_test.Prelude.Result.{Result, ok, ◌>>=◌}
use graph_ingest_test.Classfile.Descriptor.{descriptor_param_types, type_name}
use graph_ingest_test.Classfile.Shapes.{
  MethodInfo, ClassInfo, is_static, is_private, is_synthetic, is_bridge, is_constructor,
  is_class_initializer, is_lambda_body, is_anonymous,
}

-- '' for an anonymous class.
unfoldable pub binary_to_source_fqn : Text → Text
binary_to_source_fqn name =
    if not (has_char b'$' name)
    then name
    else if is_digit (rsplit_last b'$' name)
    then []
    else replace_char b'$' b'.' name

-- `s.replace("[]", "")`
remove_brackets : Text → Text
remove_brackets [] = []
remove_brackets (x ∷ []) = x ∷ []
remove_brackets (x ∷ y ∷ s) =
    let rest = remove_brackets s in
    let next = remove_brackets (y ∷ s) in if (x == b'[') && (y == b']') then rest else x ∷ next

-- `s.replace("...", "")`
remove_dots : Text → Text
remove_dots (x ∷ y ∷ z ∷ s) =
    let rest = remove_dots s in
    let next = remove_dots (y ∷ z ∷ s) in
    if (x == b'.') && (y == b'.') && (z == b'.') then rest else x ∷ next
remove_dots s = s

-- `for sep in (".", "$")`: what stands behind the last separator, if there is one.
unfoldable pub normalize_type : Text → Text
unfolding remove_brackets remove_dots strip
normalize_type raw =
    rsplit_last b'$'
      (rsplit_last b'.' (strip (remove_dots (remove_brackets (split_head b'<' raw)))))

unfoldable pub descriptor_simple_types : Text → Result (List Text)
descriptor_simple_types descriptor = do
  ts ← descriptor_param_types descriptor
  ok (map (λ d. normalize_type (type_name d)) ts)

-- A constructor has the name of its class.
unfoldable pub method_lookup_name : Text → Text → Text
method_lookup_name source_fqn name =
    if text_eq name (codes "<init>") then rsplit_last b'.' source_fqn else name

unfoldable pub should_skip_method : MethodInfo → Bool
should_skip_method m = (is_synthetic m || is_bridge m) && not (is_lambda_body m)

unfoldable pub can_override : MethodInfo → Bool
can_override m =
    not (
      is_static m || is_private m || is_constructor m || is_class_initializer m || is_lambda_body m)

unfoldable pub caller_needs_synthesis : ClassInfo → MethodInfo → Bool
caller_needs_synthesis c m = is_anonymous c || is_lambda_body m || is_class_initializer m

inner_class : binary_to_source_fqn (codes "com.acme.Outer$Inner") ≡ codes "com.acme.Outer.Inner"
unfolding binary_to_source_fqn
inner_class = refl

anonymous_class : binary_to_source_fqn (codes "com.acme.Outer$1") ≡ []
unfolding binary_to_source_fqn
anonymous_class = refl

generic_type : normalize_type (codes "java.util.Map.Entry<K,V>[]") ≡ codes "Entry"
unfolding normalize_type
generic_type = refl

varargs_type : normalize_type (codes " String...") ≡ codes "String"
unfolding normalize_type
varargs_type = refl
