-- ===== src/Store/Numbers.antt =====
-- Whole numbers in internal/store/store.go: data points, and attributes that JSON brings back.
use otelstore.Base.{ℕ, ◌^◌, ◌<◌, ◌≡◌, refl, ap, some, String, ◌==◌, Bool-cases, inl, inr}
use otelstore.Base.Int.{ℤ}
use otelstore.Float.{float64_of_int}
use otelstore.Float.Exact.{IsDoubleOf, magnitude, float64_of_int-IsDoubleOf}
use otelstore.Value.{Value, Fields, object, int, double, no_fields, field_then, lookup}
use otelstore.Value.Json.{unmarshal_map, decoded, decoded_fields}
use otelstore.Store.Records.{NumberDataPoint, as_int, extract_double_value}

some-injective : (x v : Value) → some x ≡ some v → x ≡ v
some-injective x v h = cc

lookup-decoded_fields :
    (k : String) (m : Fields) (v : Value)
    → lookup k m ≡ some v
    → lookup k (decoded_fields m) ≡ some (decoded v)
unfolding lookup decoded
lookup-decoded_fields k no_fields v h = cc
lookup-decoded_fields k (field_then key x m) v h = elim (Bool-cases (key == k)) [
  | inl same ↦
      rw (same, lookup) (ap some (ap decoded (some-injective x v (rw (same, lookup) at h))))
  | inr other ↦ rw (other, lookup) (lookup-decoded_fields k m v (rw (other, lookup) at h))
]

-- A whole number between -(2 ^ 53) and 2 ^ 53, both excluded, keeps its value: a data point of that
-- number is stored as the double that it is, and an attribute that has it comes back as that double.
pub whole_numbers_lem :
    (dp : NumberDataPoint) (n : ℤ) (k : String) (m : Fields)
    → magnitude n < 2 ^ 53
    → lookup k m ≡ some (int n)
    → IsDoubleOf n (extract_double_value (some (record dp { value = as_int n })))
      × ((m' : Fields) × (unmarshal_map (object m) ≡ some (object m'))
          × ((bits : ℕ) × (lookup k m' ≡ some (double bits)) × IsDoubleOf n bits))
unfolding extract_double_value decoded unmarshal_map
whole_numbers_lem dp n k m small there =
    let same = float64_of_int-IsDoubleOf n small in
    (
      same,
      (decoded_fields m, refl, (float64_of_int n, lookup-decoded_fields k m (int n) there, same)),
    )
