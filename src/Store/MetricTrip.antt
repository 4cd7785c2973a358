-- ===== src/Store/MetricTrip.antt =====
-- Data points of internal/store/store.go, from InsertMetrics to QueryMetrics.
use mathlib.Core.List.{Mem, Mem-prop, Memᴰ, mem-append_right, mem-append_left}
use mathlib.Core.Logic.{∥∥₁_elim}
use otelstore.Base.{
  ℕ, ◌^◌, ltb, none, Char, String, ◌≡◌, refl, ◌≤◌, true, Bool-cases, ◌⊎◌, Error, wrap, inl, inr,
  Option, some, List, [], ◌∷◌, map, keep, length, ok, err, ◌==◌, string_discrete, arith,
}
use otelstore.Base.Int.{ℤ, pos}
use otelstore.Value.{Fields, string, int, double, object, lookup, Resource, Scope}
use otelstore.Value.Json.{unsupported_value, marshal, is_encodable, decoded_fields}
use otelstore.Redact.{Redactor}
use otelstore.Sql.{Engine, IsLawful}
use otelstore.Sql.Rows.{MetricRow, document}
use otelstore.Store.Records.{
  Metric, MetricData, NumberDataPoint, NumberValue, as_double, as_int, no_number, gauge, sum,
  unsupported, point_row, metric_rows, all_metric_rows, merged_attrs, extract_metadata,
  extract_double_value, string_or_blank, point_time, point_attributes,
}
use otelstore.Float.Exact.{IsDoubleOf, magnitude, float64_of_int-IsDoubleOf}
use otelstore.Store.Inserts.{Store, insert_metrics}
use otelstore.Store.Batches.{insert_metrics-IsStored}
use otelstore.Store.Queries.{metric_entry, query_metrics}
use otelstore.Store.Answers.{effective_limit, query_metrics-Promised}
use otelstore.Store.Found.{Mem-map, Mem-made, not-made, Promised-Mem}

-- The double that is stored of a point: its own, and that of a whole number, which is the same number
-- where it lies between -(2 ^ 53) and 2 ^ 53; and 0 where there is no number.
abbrev pub IsNumber : NumberValue → ℕ → Type 0
IsNumber (as_double d) bits = bits ≡ d
IsNumber (as_int n) bits = (2 ^ 53 ≤ magnitude n) ⊎ IsDoubleOf n bits
IsNumber no_number bits = bits ≡ 0

abbrev pub IsValueOf : Option NumberDataPoint → ℕ → Type 0
IsValueOf none bits = bits ≡ 0
IsValueOf (some dp) bits = IsNumber dp.value bits

IsNumber-cases :
    (dp : NumberDataPoint) (number : NumberValue)
    → dp.value ≡ number
    → IsNumber number (extract_double_value (some dp))
unfolding extract_double_value
IsNumber-cases dp (as_double d) h = rw (h, extract_double_value) refl
IsNumber-cases dp (as_int n) h = elim (Bool-cases (ltb (magnitude n) (2 ^ 53))) [
  | inl small ↦ rw (h, extract_double_value) (inr (float64_of_int-IsDoubleOf n (ground arith)))
  | inr large ↦ inl (ground arith)
]
IsNumber-cases dp no_number h = rw (h, extract_double_value) refl

extract_double_value-IsValueOf :
    (dp : Option NumberDataPoint) → IsValueOf dp (extract_double_value dp)
unfolding extract_double_value
extract_double_value-IsValueOf none = refl
extract_double_value-IsValueOf (some dp) = IsNumber-cases dp dp.value refl

-- what the entry of a row that a data point was made into says of it
pub record IsMetricEntryOf (name : String) (dp : Option NumberDataPoint) (attrs : Fields)
    (entry : Fields) : Type 0 where
  pub metric_name : lookup "name" entry ≡ some (string name)
  pub value_double :
      (bits : ℕ) × (lookup "value_double" entry ≡ some (double bits)) × IsValueOf dp bits
  pub time_ns : lookup "time_ns" entry ≡ some (int (pos (point_time dp)))
  pub run_id : lookup "run_id" entry ≡ some (string (string_or_blank (lookup "run_id" attrs)))
  pub job_id : lookup "job_id" entry ≡ some (string (string_or_blank (lookup "job_id" attrs)))
  -- the attributes, as JSON brings them back
  pub attributes : lookup "attributes" entry ≡ some (object (decoded_fields attrs))

abbrev pub made_point : String → Option NumberDataPoint → Fields → MetricRow
made_point name dp attrs = record {
  name = name;
  value_double = extract_double_value dp;
  time_ns = point_time dp;
  run_id = string_or_blank (lookup "run_id" attrs);
  job_id = string_or_blank (lookup "job_id" attrs);
  attributes = document (object attrs);
}

made_point-IsMetricEntryOf :
    (name : String) (dp : Option NumberDataPoint) (attrs : Fields)
    → IsMetricEntryOf name dp attrs (metric_entry (made_point name dp attrs))
unfolding metric_entry lookup string_discrete
made_point-IsMetricEntryOf name dp attrs = record {
  metric_name = refl;
  value_double = (_, refl, extract_double_value-IsValueOf dp);
  time_ns = refl;
  run_id = refl;
  job_id = refl;
  attributes = refl;
}

-- the data points that are stored of a metric
abbrev pub points_of : Metric → List (Option NumberDataPoint)
points_of metric = elim metric.points [ gauge dps ↦ dps | sum dps ↦ dps | unsupported ↦ [] ]

module _ (lower : Char → Char) (redactor : Option Redactor) (resource : Option Resource)
    (scope : Option Scope) where
  abbrev pub attrs_of : Option NumberDataPoint → Fields
  attrs_of dp = merged_attrs lower redactor resource scope (point_attributes dp)

  made_point-made :
      (name : String) (dp : Option NumberDataPoint)
      → (point_row lower redactor resource scope name dp ≡ ok (made_point name dp (attrs_of dp)))
        ⊎ ((e : Error) × (point_row lower redactor resource scope name dp ≡ err e))
  unfolding point_row marshal extract_metadata
  made_point-made name dp = elim (Bool-cases (is_encodable (object (attrs_of dp)))) [
    | inl good ↦ inl (rw (good, point_row, marshal) refl)
    | inr bad ↦
        inr (
          wrap "failed to marshal attributes: " unsupported_value,
          rw (bad, point_row, marshal) refl,
        )
  ]

  metric_rows-points :
      (metric : Metric) (points : MetricData)
      → metric.points ≡ points
      → metric_rows lower redactor resource scope metric
        ≡ map (point_row lower redactor resource scope metric.name) (points_of metric)
  unfolding metric_rows
  metric_rows-points metric (gauge dps) h = rw (h, metric_rows) refl
  metric_rows-points metric (sum dps) h = rw (h, metric_rows) refl
  metric_rows-points metric unsupported h = rw (h, metric_rows) refl

  Memᴰ-all_metric_rows :
      (batch : List Metric) {metric : Metric} (dp : Option NumberDataPoint)
      → Memᴰ metric batch
      → Mem dp (points_of metric)
      → Mem
          (point_row lower redactor resource scope metric.name dp)
          (all_metric_rows lower redactor resource scope batch)
  unfolding all_metric_rows
  Memᴰ-all_metric_rows [] dp m n = elim m [ ]
  Memᴰ-all_metric_rows (x ∷ xs) dp (Memᴰ.head e) n =
      let own =
        Mem-map (point_row lower redactor resource scope x.name) dp (points_of x) (rw e at n) in
      rw e (
        mem-append_left {s = metric_rows lower redactor resource scope x} _
          (rw (metric_rows-points x x.points refl) own))
  Memᴰ-all_metric_rows (x ∷ xs) dp (Memᴰ.tail m) n =
      mem-append_right _ (Memᴰ-all_metric_rows xs dp m n)

  -- the row of a data point is among rows that all were made
  pub made_point-mem :
      (batch : List Metric) (rows : List MetricRow) (metric : Metric) (dp : Option NumberDataPoint)
      → all_metric_rows lower redactor resource scope batch ≡ map ok rows
      → Mem metric batch
      → Mem dp (points_of metric)
      → Mem (made_point metric.name dp (attrs_of dp)) rows
  made_point-mem batch rows metric dp all_made m n =
      let among = ∥∥₁_elim m Mem-prop (λ d. Memᴰ-all_metric_rows batch dp d n) in
      elim (made_point-made metric.name dp) [
        | inl makes ↦
            Mem-made _ rows all_made _ (made_point metric.name dp (attrs_of dp)) makes among
        | inr (e, fails) ↦ absurd (not-made _ rows all_made _ e fails among)
      ]

module _ (E : Engine) (law : IsLawful E) (lower : Char → Char) (s : Store E)
    (resource : Option Resource) (scope : Option Scope) (batch : List Metric) where
  abbrev after : Store E
  after = (insert_metrics E lower s batch resource scope).1

  point_stored :
      (metric : Metric) (dp : Option NumberDataPoint)
      → (insert_metrics E lower s batch resource scope).0 ≡ ok tt
      → Mem metric batch
      → Mem dp (points_of metric)
      → Mem
          (made_point metric.name dp (attrs_of lower s.redactor resource scope dp))
          (E.tables after.db).metric_rows
  point_stored metric dp done m n =
      let (rows, all_made, _, stored) =
        rw done at (insert_metrics-IsStored E law lower s resource scope batch) in
      rw stored (
        mem-append_right (E.tables s.db).metric_rows
          (made_point-mem lower s.redactor resource scope batch rows metric dp all_made m n))

  -- On a lawful engine: Once InsertMetrics has returned nil, QueryMetrics at the name of a gauge or
  -- a sum of the batch, if it returns, and if at most as many data points of that name are stored
  -- as the limit allows, returns an entry for each data point of it, with its name, its value,
  -- its time, its run and job ids and its merged and redacted attributes. The value is the double of
  -- the point, or its whole number as a double, if that lies between -(2 ^ 53) and 2 ^ 53, or 0 if the
  -- point has no number; what a larger whole number becomes is not said.
  pub query_metrics-insert_metrics :
      (metric : Metric) (dp : Option NumberDataPoint) (limit : ℤ) (entries : List Fields)
      → (insert_metrics E lower s batch resource scope).0 ≡ ok tt
      → Mem metric batch
      → Mem dp (points_of metric)
      → query_metrics E after metric.name limit ≡ ok entries
      → length (keep (λ r. r.name == metric.name) (E.tables after.db).metric_rows)
        ≤ effective_limit limit
      → (entry : Fields) × Mem entry entries
        × IsMetricEntryOf metric.name dp (attrs_of lower s.redactor resource scope dp) entry
  query_metrics-insert_metrics metric dp limit entries done m n found few =
      let row = made_point metric.name dp (attrs_of lower s.redactor resource scope dp) in
      let p = query_metrics-Promised E law after metric.name limit entries found in
      let own : (row.name == metric.name) ≡ true = ground arith in
      (
        metric_entry row,
        Promised-Mem metric_entry _ _ _ _ entries row p (point_stored metric dp done m n) own few,
        made_point-IsMetricEntryOf metric.name dp (attrs_of lower s.redactor resource scope dp),
      )
