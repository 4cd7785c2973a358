-- ===== src/Store/Retention.antt =====
-- DeleteBefore, DBSize and EnforceMaxSize of internal/store/store.go.
use otelstore.Base.{
  ℕ, zero, suc, ◌+◌, ◌*◌, String, Bool, Option, none, some, Outcome, ok, err, Error, wrap, or_wrap,
  ◌>>=◌, nat_eq, leb, length, if◌then◌else◌,
}
use otelstore.Base.Int.{ℤ, pos, negsuc, lt_int}
use otelstore.Sql.{Engine, Affected}
use otelstore.Sql.Rows.{Table, Row, time_of, spans, logs, metrics}

-- `(int64, error)`, where the number counts beside an error too
abbrev pub Deleted : Type 0
Deleted = ℕ × Option Error

-- start_ns < ?, time_ns < ?
abbrev pub is_expired : ℤ → (t : Table) → Row t → Bool
is_expired cutoff t r = lt_int (pos (time_of t r)) cutoff

abbrev pub delete_failed : Table → String
delete_failed spans = "failed to delete spans: "
delete_failed logs = "failed to delete logs: "
delete_failed metrics = "failed to delete metrics: "

abbrev pub count_failed : Table → String
count_failed spans = "failed to get rows affected for spans: "
count_failed logs = "failed to get rows affected for logs: "
count_failed metrics = "failed to get rows affected for metrics: "

abbrev pub evict_failed : Table → String
evict_failed spans = "failed to evict from spans: "
evict_failed logs = "failed to evict from logs: "
evict_failed metrics = "failed to evict from metrics: "

-- rows per table per pass
abbrev pub batch : ℕ
batch = 1000

-- the statement's error, or that of `RowsAffected`
abbrev pub affected : Table → Affected → Outcome ℕ
affected t (err e) = err (wrap (delete_failed t) e)
affected t (ok (err e)) = err (wrap (count_failed t) e)
affected t (ok (ok n)) = ok n

-- n, _ := res.RowsAffected()
abbrev pub evicted_count : Outcome ℕ → ℕ
evicted_count (ok n) = n
evicted_count (err e) = 0

abbrev pub evicted : Affected → Outcome ℕ
evicted (err e) = err e
evicted (ok n) = ok (evicted_count n)

module _ (E : Engine) where
  unfoldable pub delete_from : Table → ℤ → E.Db → Outcome ℕ × E.Db
  delete_from t cutoff d = let (r, d') = E.delete t (is_expired cutoff t) d in (affected t r, d')

  unfoldable pub delete_before : ℤ → E.Db → Deleted × E.Db
  delete_before cutoff d =
      let (r, d') = delete_from spans cutoff d in
      elim r [
        | err e ↦ ((0, some e), d')
        | ok n ↦
            let (r', d'') = delete_from logs cutoff d' in
            elim r' [
              | err e ↦ ((0, some e), d'')
              | ok n' ↦
                  let (r'', d''') = delete_from metrics cutoff d'' in
                  elim r'' [ err e ↦ ((0, some e), d''') | ok n'' ↦ ((n + n' + n'', none), d''') ]
            ]
      ]

  unfoldable pub db_size : E.Db → Outcome ℕ
  db_size d = do
    pages ← or_wrap "failed to read page_count: " (E.page_count d)
    bytes ← or_wrap "failed to read page_size: " (E.page_size d)
    ok (pages * bytes)

  unfoldable pub evict_from : Table → E.Db → Outcome ℕ × E.Db
  evict_from t d =
      let (r, d') = E.evict t (time_of t) batch d in (or_wrap (evict_failed t) (evicted r), d')

  -- one pass over the three tables
  unfoldable pub evict_pass : E.Db → Outcome ℕ × E.Db
  evict_pass d =
      let (r, d') = evict_from spans d in
      elim r [
        | err e ↦ (err e, d')
        | ok n ↦
            let (r', d'') = evict_from logs d' in
            elim r' [
              | err e ↦ (err e, d'')
              | ok n' ↦
                  let (r'', d''') = evict_from metrics d'' in
                  elim r'' [ err e ↦ (err e, d''') | ok n'' ↦ (ok (n + n' + n''), d''') ]
            ]
      ]

  -- The loop of `EnforceMaxSize`; `none` means that the fuel ran out.
  unfoldable pub evict_until : ℕ → ℕ → ℕ → E.Db → Option (Deleted × E.Db)
  evict_until max_bytes zero total d = none
  evict_until max_bytes (suc fuel) total d = elim (db_size d) [
    | err e ↦ some ((total, some e), d)
    | ok size ↦
        let (r, d') = evict_pass d in
        let rest = λ (n : ℕ). evict_until max_bytes fuel (total + n) d' in
        if leb size max_bytes then some ((total, none), d) else elim r [
          | err e ↦ some ((total, some e), d')
          | ok n ↦ if nat_eq n 0 then some ((total + n, none), E.checkpoint d') else rest n
        ]
  ]

  -- a pass that goes on has deleted a row
  abbrev pub row_count : E.Db → ℕ
  row_count d =
      length (E.tables d).span_rows + length (E.tables d).log_rows + length (E.tables d).metric_rows

  -- `EnforceMaxSize`, with fuel for one pass more than there are rows
  unfoldable pub enforce_max_size : ℤ → E.Db → Option (Deleted × E.Db)
  enforce_max_size max_bytes d = elim max_bytes [
    | pos n ↦
        let rest = evict_until n (suc (row_count d)) 0 d in
        if nat_eq n 0 then some ((0, none), d) else rest
    | negsuc n ↦ some ((0, none), d)
  ]
