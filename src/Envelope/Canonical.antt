-- ===== src/Envelope/Canonical.antt =====
-- An independent description of the canonical JSON of a value: what `JSON.stringify` prints of it
-- when the keys of each record are in the order of their code units.
use attunegraph.Common.{List, [], ◌∷◌, sort, Text, codes}
use attunegraph.Json.{quote}
use attunegraph.Json.Print.{boolean, array, object}
use attunegraph.Envelope.Values.{
  Value, null_value, boolean_value, number_value, string_value, array_value, record_value, Items,
  nil, cons, Fields, end, field, number_text,
}
use attunegraph.Envelope.Encode.{compare_keys}

unfoldable mutual
  pub canonical : Value → Text
  canonical null_value = codes "null"
  canonical (boolean_value b) = boolean b
  canonical (number_value n) = number_text n
  canonical (string_value s) = quote s
  canonical (array_value items) = array (canonical_items items)
  canonical (record_value fields) = object (sort compare_keys (canonical_fields fields))

  pub canonical_items : Items → List Text
  canonical_items nil = []
  canonical_items (cons v vs) = canonical v ∷ canonical_items vs

  pub canonical_fields : Fields → List (Text × Text)
  canonical_fields end = []
  canonical_fields (field key v fields) = (key, canonical v) ∷ canonical_fields fields
