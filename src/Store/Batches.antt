-- ===== src/Store/Batches.antt =====
-- What InsertSpans, InsertLogs and InsertMetrics of internal/store/store.go leave in the tables.
use mathlib.Core.List.{append-nil, append_assoc}
use otelstore.Base.{
  Char, ◌≡◌, refl, sym, ◌∙◌, Error, Option, List, [], ◌∷◌, ◌++◌, map, Outcome, ok, err, true, false,
  arith, any, any-append,
}
use otelstore.Value.{Resource, Scope}
use otelstore.Sql.{Engine, IsLawful}
use otelstore.Sql.Rows.{Tables, SpanRow, spans, logs, metrics, same_key}
use otelstore.Store.Records.{Span, LogRecord, Metric, span_row, log_row, all_metric_rows}
use otelstore.Store.Inserts.{Store, insert_spans, insert_logs, insert_metrics}
use otelstore.Store.Atomicity.{IsStored, IsStored-nil, AreFresh, in_transaction-IsStored}

module _ (E : Engine) (law : IsLawful E) (lower : Char → Char) (s : Store E)
    (resource : Option Resource) (scope : Option Scope) where
  -- On a lawful engine: If InsertSpans returns nil, the rows of all spans of the batch stand behind
  -- the stored ones, in order, none of them with the key of a row before it; if it returns an
  -- error, no table has changed.
  pub insert_spans-IsStored :
      (batch : List Span)
      → IsStored spans
          (map (span_row lower s.redactor resource scope) batch)
          (E.tables s.db)
          (insert_spans E lower s batch resource scope).0
          (E.tables (insert_spans E lower s batch resource scope).1.db)
  unfolding insert_spans
  insert_spans-IsStored [] = IsStored-nil spans _
  insert_spans-IsStored (span ∷ rest) = in_transaction-IsStored E law spans _ s.db

  -- On a lawful engine: If InsertLogs returns nil, the rows of all records of the batch stand
  -- behind the stored ones, in order; if it returns an error, no table has changed.
  pub insert_logs-IsStored :
      (batch : List LogRecord)
      → IsStored logs
          (map (log_row lower s.redactor resource scope) batch)
          (E.tables s.db)
          (insert_logs E lower s batch resource scope).0
          (E.tables (insert_logs E lower s batch resource scope).1.db)
  unfolding insert_logs
  insert_logs-IsStored [] = IsStored-nil logs _
  insert_logs-IsStored (log ∷ rest) = in_transaction-IsStored E law logs _ s.db

  -- On a lawful engine: If InsertMetrics returns nil, the rows of all data points of the gauges and
  -- sums of the batch stand behind the stored ones, in order; if it returns an error, no table has
  -- changed.
  pub insert_metrics-IsStored :
      (batch : List Metric)
      → IsStored metrics
          (all_metric_rows lower s.redactor resource scope batch)
          (E.tables s.db)
          (insert_metrics E lower s batch resource scope).0
          (E.tables (insert_metrics E lower s batch resource scope).1.db)
  unfolding insert_metrics all_metric_rows
  insert_metrics-IsStored [] = IsStored-nil metrics _
  insert_metrics-IsStored (metric ∷ rest) = in_transaction-IsStored E law metrics _ s.db

-- No two rows have the same trace id and span id.
abbrev pub IsKeyed : List SpanRow → Type 0
IsKeyed [] = Unit
IsKeyed (r ∷ rs) = (any (same_key r) rs ≡ false) × IsKeyed rs

pub same_key_comm : (r s : SpanRow) → same_key r s ≡ same_key s r
same_key_comm r s = ground arith

IsKeyed-concat :
    (rows : List SpanRow) (r : SpanRow)
    → IsKeyed rows
    → any (same_key r) rows ≡ false
    → IsKeyed (rows ++ r ∷ [])
IsKeyed-concat [] r _ _ = (refl, tt)
IsKeyed-concat (q ∷ rows) r (h, hs) k =
    (rw any-append (ground (arith, same_key_comm q r)), IsKeyed-concat rows r hs (ground arith))

IsKeyed-append :
    (old rows : List SpanRow) → IsKeyed old → AreFresh spans old rows → IsKeyed (old ++ rows)
IsKeyed-append old [] h _ = rw append-nil h
IsKeyed-append old (r ∷ rows) h (fresh, later) =
    rw (← append_assoc old (r ∷ []) rows)
      (IsKeyed-append (old ++ r ∷ []) rows (IsKeyed-concat old r h fresh) later)

IsStored-IsKeyed :
    (made : List (Outcome SpanRow)) (before after : Tables) (r : Outcome (Unit {0}))
    → IsStored spans made before r after
    → IsKeyed before.span_rows
    → IsKeyed after.span_rows
IsStored-IsKeyed made before after (err e) same h = rw same h
IsStored-IsKeyed made before after (ok _) (rows, _, fresh, seen) h =
    rw seen (IsKeyed-append before.span_rows rows h fresh)

same_key_refl : (r : SpanRow) → same_key r r ≡ true
same_key_refl r = ground arith

any-same_key_self :
    (old rows : List SpanRow) (r : SpanRow) → any (same_key r) (old ++ r ∷ rows) ≡ true
any-same_key_self old rows r = rw any-append (ground (arith, same_key_refl r))

pub rows_unique : {A : Type 0} (xs ys : List A) → map ok xs ≡ map ok ys → xs ≡ ys
rows_unique [] [] h = refl
rows_unique [] (y ∷ ys) h = cc
rows_unique (x ∷ xs) [] h = cc
rows_unique (x ∷ xs) (y ∷ ys) h = ground (arith, rows_unique xs ys)

-- rows that were made again are not fresh
not-IsStored_again :
    (made : List (Outcome SpanRow)) (first : Outcome SpanRow) (before after last : Tables)
    → IsStored spans (first ∷ made) before (ok tt) after
    → ¬ IsStored spans (first ∷ made) after (ok tt) last
not-IsStored_again made first before after last (r ∷ rows, e, _, seen)
      (q ∷ again, e', (fresh, _), _) =
    let same : r ∷ rows ≡ q ∷ again = rows_unique _ _ (sym e ∙ e') in
    let head_same : r ≡ q = ground arith in
    let known : any (same_key q) after.span_rows ≡ true =
      rw (seen, ← head_same) (any-same_key_self before.span_rows rows r) in
    cc
not-IsStored_again made first before after last ([], e, _, _) stored = cc
not-IsStored_again made first before after last (_ ∷ _, _, _, _) ([], e, _, _) = cc

refused_again :
    (made : List (Outcome SpanRow)) (first : Outcome SpanRow) (before after last : Tables)
    (r : Outcome (Unit {0}))
    → IsStored spans (first ∷ made) before (ok tt) after
    → IsStored spans (first ∷ made) after r last
    → (e : Error) × (r ≡ err e) × (last ≡ after)
refused_again made first before after last (err e) stored same = (e, refl, same)
refused_again made first before after last (ok _) stored again =
    absurd (not-IsStored_again made first before after last stored again)

module _ (E : Engine) (law : IsLawful E) (lower : Char → Char) (s : Store E)
    (resource : Option Resource) (scope : Option Scope) where
  -- On a lawful engine: Whatever InsertSpans returns, if no two stored spans shared trace id and
  -- span id before, none do after it.
  pub insert_spans-IsKeyed :
      (batch : List Span)
      → IsKeyed (E.tables s.db).span_rows
      → IsKeyed (E.tables (insert_spans E lower s batch resource scope).1.db).span_rows
  insert_spans-IsKeyed batch =
      IsStored-IsKeyed _ (E.tables s.db) _ _
        (insert_spans-IsStored E law lower s resource scope batch)

  -- On a lawful engine: A batch of spans that was stored, and is not empty, is refused when it is
  -- sent again, and then changes nothing.
  pub insert_spans_again :
      (span : Span) (rest : List Span)
      → (insert_spans E lower s (span ∷ rest) resource scope).0 ≡ ok tt
      → (e : Error) × ((insert_spans E lower
            (insert_spans E lower s (span ∷ rest) resource scope).1
            (span ∷ rest)
            resource
            scope).0
          ≡ err e)
        × (E.tables
              (insert_spans E lower
                (insert_spans E lower s (span ∷ rest) resource scope).1
                (span ∷ rest)
                resource
                scope).1.db
            ≡ E.tables (insert_spans E lower s (span ∷ rest) resource scope).1.db)
  unfolding insert_spans
  insert_spans_again span rest h =
      let s' = (insert_spans E lower s (span ∷ rest) resource scope).1 in
      let first = insert_spans-IsStored E law lower s resource scope (span ∷ rest) in
      let second = insert_spans-IsStored E law lower s' resource scope (span ∷ rest) in
      refused_again _ _ (E.tables s.db) (E.tables s'.db) _ _ (rw h at first) second
