-- ===== src/Value/Convert.antt =====
-- Merging resource, scope and record attributes: which value a key has in the end.
use otelstore.Base.{String, ◌≡◌, refl, Option, none, some, arith, ◌==◌, if◌then◌else◌}
use otelstore.Value.{
  AnyValue, KeyValues, no_key_values, key_value_then, Value, Fields, no_fields, Resource, Scope,
  lookup, insert, convert_any_value, convert_all, merge_attributes,
}
use otelstore.Value.Map.{lookup-insert, HasDistinctKeys, insert-HasDistinctKeys}

-- The value of the last entry with the key.
unfoldable pub last_value : String → KeyValues → Option AnyValue
last_value key no_key_values = none
last_value key (key_value_then k v kvs) = elim (last_value key kvs) [
  | some w ↦ some w
  | none ↦ if k == key then some v else none
]

-- the converted value, or what stands behind it
abbrev pub converted_or : Option AnyValue → Option Value → Option Value
converted_or none other = other
converted_or (some v) other = some (convert_any_value v)

lookup-convert_all :
    (key : String) (kvs : KeyValues) (m : Fields)
    → lookup key (convert_all kvs m) ≡ converted_or (last_value key kvs) (lookup key m)
unfolding convert_any_value last_value
lookup-convert_all key no_key_values m = refl
lookup-convert_all key (key_value_then k v kvs) m = ground (
  arith,
  lookup-convert_all key kvs (insert k (convert_any_value v) m),
  lookup-insert k key (convert_any_value v) m,
)

-- what a key has among optional attributes
abbrev pub in_resource : String → Option Resource → Option AnyValue
in_resource key none = none
in_resource key (some r) = last_value key r.attributes

abbrev pub in_scope : String → Option Scope → Option AnyValue
in_scope key none = none
in_scope key (some s) = last_value key s.attributes

-- The value of a key in the merged map is the last one that the record gives it; if the record has
-- none, the last one of the scope; if that has none either, the last one of the resource; and the
-- key is absent where all three lack it.
pub lookup-merge_attributes :
    (key : String) (resource : Option Resource) (scope : Option Scope) (attrs : KeyValues)
    → lookup key (merge_attributes resource scope attrs)
      ≡ converted_or
          (last_value key attrs)
          (converted_or (in_scope key scope) (converted_or (in_resource key resource) none))
unfolding merge_attributes lookup last_value
lookup-merge_attributes key none none attrs = simp lookup-convert_all
lookup-merge_attributes key none (some s) attrs = simp lookup-convert_all
lookup-merge_attributes key (some r) none attrs = simp lookup-convert_all
lookup-merge_attributes key (some r) (some s) attrs = simp lookup-convert_all

convert_all-HasDistinctKeys :
    (kvs : KeyValues) (m : Fields) → HasDistinctKeys m → HasDistinctKeys (convert_all kvs m)
unfolding convert_all
convert_all-HasDistinctKeys no_key_values m h = h
convert_all-HasDistinctKeys (key_value_then k v kvs) m h =
    convert_all-HasDistinctKeys kvs (insert k (convert_any_value v) m)
      (insert-HasDistinctKeys k (convert_any_value v) m h)

merge_attributes-HasDistinctKeys :
    (resource : Option Resource) (scope : Option Scope) (attrs : KeyValues)
    → HasDistinctKeys (merge_attributes resource scope attrs)
unfolding merge_attributes
merge_attributes-HasDistinctKeys resource scope attrs =
    convert_all-HasDistinctKeys attrs _
      (convert_all-HasDistinctKeys _ _ (convert_all-HasDistinctKeys _ no_fields tt))
