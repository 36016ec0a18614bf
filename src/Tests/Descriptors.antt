-- ===== src/Tests/Descriptors.antt =====
-- The descriptor `(I[Ljava/lang/String;)V`, and one that is cut off (graph_core/bytecode/classfile.py).
use graph_ingest_test.Prelude.{◌≡◌, refl, List, [], ◌∷◌, map, codes}
use graph_ingest_test.Prelude.Result.{ok}
use graph_ingest_test.Classfile.Descriptor.{descriptor_param_types}
use graph_ingest_test.Classfile.Descriptor.RoundTrip.{
  JavaType, base, object, array, write_type, write_descriptor, descriptor_param_types-write,
}

abbrev types : List JavaType
types = base b'I' ∷ array (object (codes "java/lang/String")) ∷ []

descriptor_param_types-write_example :
    descriptor_param_types (write_descriptor types (codes "V")) ≡ ok (map write_type types)
descriptor_param_types-write_example =
    descriptor_param_types-write types (codes "V") ((refl, refl, refl), (refl, tt))
