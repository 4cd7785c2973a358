-- ===== src/Value.antt =====
-- Attribute values: the OTLP `AnyValue` as the receivers decode it, the Go values that the store
-- makes of it, and Go maps from attribute keys to such values (`convertAnyValue` and
-- `mergeAttributes` of internal/store/store.go).
pub mod Map
pub mod Convert
pub mod Json
use otelstore.Base.{ℕ, String, Bool, Option, none, some, ◌==◌, if◌then◌else◌}
use otelstore.Base.Int.{ℤ}

-- `*otlpcommonv1.AnyValue`. A double is the number that its 64 bits are.
mutual
  pub data AnyValue : Type 0 where
    nil_pointer : AnyValue
    string_value : String → AnyValue
    bool_value : Bool → AnyValue
    int_value : ℤ → AnyValue
    double_value : ℕ → AnyValue
    nil_array_value : AnyValue
    array_value : AnyValues → AnyValue
    nil_kvlist_value : AnyValue
    kvlist_value : KeyValues → AnyValue
    -- bytes, no value at all, or a wrapper that the code does not name: the text that "%v" prints
    other_value : String → AnyValue

  pub data AnyValues : Type 0 where
    no_values : AnyValues
    value_then : AnyValue → AnyValues → AnyValues

  -- `[]*otlpcommonv1.KeyValue`
  pub data KeyValues : Type 0 where
    no_key_values : KeyValues
    key_value_then : String → AnyValue → KeyValues → KeyValues

-- A Go `any` as the store holds it. `encoded v` is the string that is the JSON text of `v`.
mutual
  pub data Value : Type 0 where
    null : Value
    string : String → Value
    bool : Bool → Value
    int : ℤ → Value
    double : ℕ → Value
    array : Values → Value
    object : Fields → Value
    encoded : Value → Value

  pub data Values : Type 0 where
    no_items : Values
    item_then : Value → Values → Values

  -- `map[string]any`
  pub data Fields : Type 0 where
    no_fields : Fields
    field_then : String → Value → Fields → Fields

-- m[key] = value
unfoldable pub insert : String → Value → Fields → Fields
insert key value no_fields = field_then key value no_fields
insert key value (field_then k v m) =
    if k == key then field_then k value m else field_then k v (insert key value m)

-- v, ok := m[key]
unfoldable pub lookup : String → Fields → Option Value
lookup key no_fields = none
lookup key (field_then k v m) = if k == key then some v else lookup key m

-- `convert_all kvs m` is `for _, kv := range kvs { m[kv.Key] = convertAnyValue(kv.Value) }`.
unfoldable mutual
  pub convert_any_value : AnyValue → Value
  convert_any_value nil_pointer = null
  convert_any_value (string_value s) = string s
  convert_any_value (bool_value b) = bool b
  convert_any_value (int_value n) = int n
  convert_any_value (double_value d) = double d
  convert_any_value nil_array_value = array no_items
  convert_any_value (array_value vs) = array (convert_values vs)
  convert_any_value nil_kvlist_value = object no_fields
  convert_any_value (kvlist_value kvs) = object (convert_all kvs no_fields)
  convert_any_value (other_value text) = string text

  pub convert_values : AnyValues → Values
  convert_values no_values = no_items
  convert_values (value_then v vs) = item_then (convert_any_value v) (convert_values vs)

  pub convert_all : KeyValues → Fields → Fields
  convert_all no_key_values m = m
  convert_all (key_value_then k v kvs) m = convert_all kvs (insert k (convert_any_value v) m)

-- `*otlpresourcev1.Resource` and `*otlpcommonv1.InstrumentationScope`: what the store reads of them
pub record Resource : Type 0 where
  pub attributes : KeyValues

pub record Scope : Type 0 where
  pub attributes : KeyValues

-- a nil slice has no elements, as an empty one
resource_attributes : Option Resource → KeyValues
resource_attributes none = no_key_values
resource_attributes (some r) = r.attributes

scope_attributes : Option Scope → KeyValues
scope_attributes none = no_key_values
scope_attributes (some s) = s.attributes

unfoldable pub merge_attributes : Option Resource → Option Scope → KeyValues → Fields
unfolding resource_attributes scope_attributes
merge_attributes resource scope span_attrs =
    let merged = convert_all (resource_attributes resource) no_fields in
    let merged' = convert_all (scope_attributes scope) merged in convert_all span_attrs merged'
