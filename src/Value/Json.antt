-- ===== src/Value/Json.antt =====
-- The JSON columns. The store writes the text that encoding/json makes of a map, and reads it back
-- into Go values. A document is kept as the value that was encoded: `encoded v` is its text. The
-- encoder refuses NaN and the infinities; the decoder makes a float64 of every number.
use otelstore.Base.{Bool, true, ◌&&◌, if◌then◌else◌, Option, none, some, Outcome, ok, err, Error}
use otelstore.Float.{float64_of_int, is_finite}
use otelstore.Value.{
  Value, Values, Fields, null, string, bool, int, double, array, object, encoded, no_items,
  item_then, no_fields, field_then,
}

unfoldable mutual
  pub is_encodable : Value → Bool
  is_encodable (double d) = is_finite d
  is_encodable (array vs) = are_encodable vs
  is_encodable (object m) = fields_encodable m
  is_encodable _ = true

  pub are_encodable : Values → Bool
  are_encodable no_items = true
  are_encodable (item_then v vs) = is_encodable v && are_encodable vs

  pub fields_encodable : Fields → Bool
  fields_encodable no_fields = true
  fields_encodable (field_then k v m) = is_encodable v && fields_encodable m

-- the message of a json.UnsupportedValueError, without the value that ends it
abbrev pub unsupported_value : Error
unsupported_value = "json: unsupported value"

-- json.Marshal(v): the document that v is, or the encoder's error
unfoldable pub marshal : Value → Outcome Value
marshal v = if is_encodable v then ok v else err unsupported_value

-- What a value is after it was encoded and decoded.
unfoldable mutual
  pub decoded : Value → Value
  decoded null = null
  decoded (string s) = string s
  decoded (bool b) = bool b
  decoded (int n) = double (float64_of_int n)
  decoded (double d) = double d
  decoded (array vs) = array (decoded_values vs)
  decoded (object m) = object (decoded_fields m)
  decoded (encoded v) = encoded v

  pub decoded_values : Values → Values
  decoded_values no_items = no_items
  decoded_values (item_then v vs) = item_then (decoded v) (decoded_values vs)

  pub decoded_fields : Fields → Fields
  decoded_fields no_fields = no_fields
  decoded_fields (field_then k v m) = field_then k (decoded v) (decoded_fields m)

-- json.Unmarshal into a `map[string]any`; a null leaves the map nil, which prints as an empty one
unfoldable pub unmarshal_map : Value → Option Value
unmarshal_map (object m) = some (object (decoded_fields m))
unmarshal_map null = some (object no_fields)
unmarshal_map _ = none

-- `[]map[string]any`: each element is a map, or a null
unfoldable pub unmarshal_items : Values → Option Values
unfolding unmarshal_map
unmarshal_items no_items = some no_items
unmarshal_items (item_then v vs) = elim (unmarshal_map v) [
  | none ↦ none
  | some m ↦ elim (unmarshal_items vs) [ none ↦ none | some ms ↦ some (item_then m ms) ]
]

unfoldable pub unmarshal_maps : Value → Option Value
unmarshal_maps (array vs) = elim (unmarshal_items vs) [ none ↦ none | some ms ↦ some (array ms) ]
unmarshal_maps null = some (array no_items)
unmarshal_maps _ = none
