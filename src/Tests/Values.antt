-- ===== src/Tests/Values.antt =====
-- Attribute values and doubles.
use otelstore.Base.{ℕ, arith, ◌+◌, ◌^◌, ◌≡◌, refl, none, some, string_discrete}
use otelstore.Base.Int.{pos, negsuc}
use otelstore.Float.Exact.{IsDoubleOf}
use otelstore.Value.Json.{unmarshal_map}
use otelstore.Store.Records.{NumberDataPoint, as_int, extract_double_value}
use otelstore.Store.Numbers.{whole_numbers_lem}
use otelstore.Float.{float64_of_int}
use otelstore.Value.{
  object, no_key_values, Fields, int, double, no_fields, field_then, string, lookup,
  merge_attributes, convert_any_value, insert,
}
use otelstore.Value.Convert.{
  last_value, converted_or, in_scope, in_resource, lookup-merge_attributes,
}
use otelstore.Tests.Fixtures.{login_attrs, host}

-- 1.0, -2.0, and 2 ^ 53 + 1, which is halfway and goes to the even neighbour
doubles :
    (float64_of_int (pos 1) ≡ 0x3ff0000000000000)
    × (float64_of_int (negsuc 1) ≡ 0xc000000000000000)
    × (float64_of_int (pos (2 ^ 53 + 1)) ≡ 0x4340000000000000)
    × (float64_of_int (pos (2 ^ 53 + 3)) ≡ 0x4340000000000002)
unfolding float64_of_int
doubles = (refl, refl, refl, refl)

lookup-merge_attributes_example :
    lookup "run_id" (merge_attributes host none login_attrs)
    ≡ converted_or
        (last_value "run_id" login_attrs)
        (converted_or (in_scope "run_id" none) (converted_or (in_resource "run_id" host) none))
lookup-merge_attributes_example = lookup-merge_attributes "run_id" host none login_attrs

merged_run : lookup "run_id" (merge_attributes host none login_attrs) ≡ some (string "r1")
unfolding merge_attributes convert_any_value lookup insert string_discrete
merged_run = refl

abbrev three_tries : NumberDataPoint
three_tries = record { value = as_int (pos 3); time_unix_nano = 130; attributes = no_key_values }

abbrev tries : Fields
tries = field_then "tries" (int (pos 3)) no_fields

tries_there : lookup "tries" tries ≡ some (int (pos 3))
unfolding lookup string_discrete
tries_there = refl

whole_numbers_lem_example :
    IsDoubleOf (pos 3) (extract_double_value (some three_tries))
    × ((m : Fields) × (unmarshal_map (object tries) ≡ some (object m))
        × ((bits : ℕ) × (lookup "tries" m ≡ some (double bits)) × IsDoubleOf (pos 3) bits))
whole_numbers_lem_example =
    whole_numbers_lem three_tries (pos 3) "tries" tries (omega arith) tries_there
