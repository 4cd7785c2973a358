-- ===== src/Tests/Retaining.antt =====
-- Retention in the engine that keeps its tables in memory.
use otelstore.Base.{◌⊎◌, ℕ, String, ◌≤◌, ◌<◌, ◌+◌, ◌≡◌, refl, none, some, Error}
use otelstore.Base.Int.{pos}
use otelstore.Sql.Memory.{memory, memory-IsLawful}
use otelstore.Sql.Rows.{spans, logs, metrics}
use otelstore.Store.Retention.{Deleted, delete_from, delete_before, enforce_max_size}
use otelstore.Store.Expiry.{
  all_unexpired, expired_count, unexpired, delete_before_complete, delete_before-IsPartly,
}
use otelstore.Store.MaxSize.{IsEnforced, enforce_max_size-IsEnforced}
use otelstore.Server.Sweep.{sweep_interval, minute, hour}
use otelstore.Server.Sweeping.{sweep_interval_bounds}
use otelstore.Tests.Fixtures.{filled_tables}

-- one span and the metric go, and the log
expired : (delete_before memory (pos 200) filled_tables).0 ≡ (3, none)
unfolding delete_before delete_from
expired = refl

delete_before_complete_example :
    ((delete_before memory (pos 200) filled_tables).0 ≡ (3, none)
      → ((delete_before memory (pos 200) filled_tables).1 ≡ all_unexpired (pos 200) filled_tables)
        × (3
            ≡ expired_count (pos 200) spans filled_tables
              + expired_count (pos 200) logs filled_tables
              + expired_count (pos 200) metrics filled_tables))
    × ((e : Error)
        → (delete_before memory (pos 200) filled_tables).0 ≡ (3, some e)
        → ◌≡◌ {A = ℕ} 3 0)
delete_before_complete_example =
    delete_before_complete memory memory-IsLawful (pos 200) filled_tables 3

delete_before-IsPartly_example :
    ((delete_before memory (pos 200) filled_tables).1.span_rows ≡ filled_tables.span_rows)
    ⊎ ((delete_before memory (pos 200) filled_tables).1.span_rows
        ≡ unexpired (pos 200) spans filled_tables.span_rows)
delete_before-IsPartly_example =
    delete_before-IsPartly memory memory-IsLawful (pos 200) filled_tables spans

enforce_max_size-IsEnforced_example :
    (r : Deleted × memory.Db) × (enforce_max_size memory (pos 4096) filled_tables ≡ some r)
    × IsEnforced memory 4096 0 filled_tables r
enforce_max_size-IsEnforced_example =
    enforce_max_size-IsEnforced memory memory-IsLawful 4095 filled_tables

abbrev two_digits : ℕ → String
two_digits n = "42"

sweep_interval_bounds_example :
    (sweep_interval (pos 5) ≤ hour)
    × (◌≡◌ {A = ℕ} 5 0 → sweep_interval (pos 5) ≡ minute)
    × (10 ≤ 5 → 0 < sweep_interval (pos 5))
    × (0 < 5 → 5 < 10 → sweep_interval (pos 5) ≡ 0)
sweep_interval_bounds_example = sweep_interval_bounds 5
