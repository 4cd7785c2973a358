-- ===== src/Tests/RoundTrips.antt =====
-- A log record and a data point, stored and found again.
use mathlib.Core.List.{Mem, mem-cons_self, mem-cons_of_mem}
use otelstore.Base.{
  none, [], ◌∷◌, ◌≡◌, refl, true, ok, err, Error, ◌==◌, keep, length, ◌≤◌, map, arith, some,
}
use otelstore.Base.Int.{pos}
use otelstore.Float.{is_nan}
use otelstore.Store.NotANumber.{insert_metrics_refuses_nan}
use otelstore.Value.{Fields}
use otelstore.Sql.Memory.{memory, memory-IsLawful, sort}
use otelstore.Store.Inserts.{Store, insert_logs, insert_metrics}
use otelstore.Store.Records.{Metric, NumberDataPoint, sum, as_double, as_int}
use otelstore.Store.Queries.{
  log_entry, metric_entry, scan, clamp_limit, find_spans, find_logs, find_both, find_metrics,
  query_by_key, query_metrics,
}
use otelstore.Store.Answers.{by_job_id, log_column, effective_limit}
use otelstore.Store.LogTrip.{IsLogEntryOf, query_by_key-insert_logs}
use otelstore.Store.LogTrip as LogTrip
use otelstore.Store.MetricTrip.{IsMetricEntryOf, query_metrics-insert_metrics}
use otelstore.Store.MetricTrip as MetricTrip
use otelstore.Tests.Fixtures.{ascii_lower, host, login_event, login_attrs, cost, redacting_store}
use otelstore.Tests.Storing.{storing}

abbrev with_log : Store memory
with_log = (insert_logs memory ascii_lower redacting_store (login_event ∷ []) host none).1

log_stored : (insert_logs memory ascii_lower redacting_store (login_event ∷ []) host none).0 ≡ ok tt
unfolding storing
log_stored = refl

abbrev event_attrs : Fields
event_attrs =
    LogTrip.attrs_of memory memory-IsLawful ascii_lower redacting_store host none (login_event ∷ [])
      login_event

log_found :
    query_by_key memory with_log "job_id"
      (LogTrip.key_value by_job_id login_event event_attrs)
      (pos 0)
    ≡ ok ([], map log_entry (memory.tables with_log.db).log_rows)
unfolding storing query_by_key find_both find_spans find_logs scan clamp_limit sort
log_found = refl

few_logs :
    length (
      keep
        (λ r. log_column by_job_id r == LogTrip.key_value by_job_id login_event event_attrs)
        (memory.tables with_log.db).log_rows)
    ≤ effective_limit (pos 0)
unfolding storing
few_logs = omega arith

query_by_key-insert_logs_example :
    (entry : Fields) × Mem entry (map log_entry (memory.tables with_log.db).log_rows)
    × IsLogEntryOf login_event event_attrs entry
query_by_key-insert_logs_example =
    query_by_key-insert_logs memory memory-IsLawful ascii_lower redacting_store host none
      (login_event ∷ []) by_job_id login_event (pos 0) [] _ log_stored mem-cons_self log_found
      few_logs

abbrev with_cost : Store memory
with_cost = (insert_metrics memory ascii_lower redacting_store (cost ∷ []) host none).1

cost_stored : (insert_metrics memory ascii_lower redacting_store (cost ∷ []) host none).0 ≡ ok tt
unfolding storing
cost_stored = refl

abbrev point : NumberDataPoint
point = record { value = as_int (pos 3); time_unix_nano = 130; attributes = login_attrs }

cost_found :
    query_metrics memory with_cost "cost" (pos 5)
    ≡ ok (map metric_entry (memory.tables with_cost.db).metric_rows)
unfolding storing query_metrics find_metrics scan clamp_limit sort
cost_found = refl

few_costs :
    length (keep (λ r. r.name == "cost") (memory.tables with_cost.db).metric_rows)
    ≤ effective_limit (pos 5)
unfolding storing
few_costs = omega arith

query_metrics-insert_metrics_example :
    (entry : Fields) × Mem entry (map metric_entry (memory.tables with_cost.db).metric_rows)
    × IsMetricEntryOf "cost"
        (some point)
        (MetricTrip.attrs_of ascii_lower redacting_store.redactor host none (some point))
        entry
query_metrics-insert_metrics_example =
    query_metrics-insert_metrics memory memory-IsLawful ascii_lower redacting_store host none
      (cost ∷ []) cost (some point) (pos 5) _ cost_stored mem-cons_self mem-cons_self cost_found
      few_costs

-- a NaN beside a good point
abbrev broken_cost : Metric
broken_cost = record {
  name = "cost";
  points = sum (some point ∷ some (record point { value = as_double 0x7ff8000000000001 }) ∷ []);
}

is_nan_nan : is_nan 0x7ff8000000000001 ≡ true
unfolding is_nan
is_nan_nan = refl

insert_metrics_refuses_nan_example :
    (e : Error) × ((insert_metrics memory ascii_lower redacting_store
        (cost ∷ broken_cost ∷ [])
        host
        none).0
      ≡ err e)
    × (memory.tables
          (insert_metrics memory ascii_lower redacting_store
            (cost ∷ broken_cost ∷ [])
            host
            none).1.db
        ≡ memory.tables redacting_store.db)
insert_metrics_refuses_nan_example =
    insert_metrics_refuses_nan memory memory-IsLawful ascii_lower redacting_store host none
      (cost ∷ broken_cost ∷ []) broken_cost (record point { value = as_double 0x7ff8000000000001 })
      0x7ff8000000000001 (mem-cons_of_mem _ mem-cons_self) (mem-cons_of_mem _ mem-cons_self) refl
      is_nan_nan
