-- ===== src/Tests/Answering.antt =====
-- Queries of a store with rows in the engine that keeps its tables in memory.
use otelstore.Base.{◌≡◌, refl, [], ◌∷◌, map, ok, ◌==◌, ◌↔◌, true, Bool, string_discrete, ℕ_discrete}
use otelstore.Base.Int.{pos}
use otelstore.Sql.Memory.{memory, memory-IsLawful, sort}
use otelstore.Sql.Rows.{LogRow}
use otelstore.Store.Queries.{
  span_entry, log_entry, metric_entry, scan, clamp_limit, find_spans, find_logs, find_metrics,
  find_both, query_by_key, get_trace, query_metrics, query_logs,
}
use otelstore.Store.Answers.{
  LookupKey, key_text, span_column, log_column, IsWanted, query_logs-Promised,
  query_by_key-Promised,
}
use otelstore.Store.Promised.{Promised}
use otelstore.Tests.Fixtures.{old_row, new_row, event_row, cost_row, filled_tables, filled_store}

unfoldable pub answering : Unit {0}
unfolding string_discrete ℕ_discrete sort scan clamp_limit find_spans find_logs find_metrics
    find_both query_by_key get_trace query_metrics query_logs
answering = tt

found_trace : get_trace memory filled_store "ab01" ≡ ok (map span_entry (old_row ∷ new_row ∷ []))
unfolding answering
found_trace = refl

found_metrics :
    query_metrics memory filled_store "cost" (pos 5) ≡ ok (map metric_entry (cost_row ∷ []))
unfolding answering
found_metrics = refl

found_logs :
    query_logs memory filled_store "login.failed" (pos 9) (pos 0)
    ≡ ok (map log_entry (event_row ∷ []))
unfolding answering
found_logs = refl

query_logs-Promised_example :
    (test : LogRow → Bool) × ((r : LogRow) → (test r ≡ true) ↔ IsWanted "login.failed" (pos 9) r)
    × Promised log_entry test
        (λ r. r.time_ns)
        1000
        filled_tables.log_rows
        (map log_entry (event_row ∷ []))
query_logs-Promised_example =
    query_logs-Promised memory memory-IsLawful filled_store "login.failed" (pos 9) (pos 0) _
      found_logs

found_job :
    query_by_key memory filled_store "job_id" "j1" (pos 1)
    ≡ ok (map span_entry (old_row ∷ []), map log_entry (event_row ∷ []))
unfolding answering
found_job = refl

query_by_key-Promised_example :
    (k : LookupKey) × ("job_id" ≡ key_text k)
    × Promised span_entry
        (λ r. span_column k r == "j1")
        (λ r. r.start_ns)
        1
        filled_tables.span_rows
        (map span_entry (old_row ∷ []))
    × Promised log_entry
        (λ r. log_column k r == "j1")
        (λ r. r.time_ns)
        1
        filled_tables.log_rows
        (map log_entry (event_row ∷ []))
query_by_key-Promised_example =
    query_by_key-Promised memory memory-IsLawful filled_store "job_id" "j1" (pos 1) _ _ found_job
