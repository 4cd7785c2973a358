-- ===== src/Store/Bags.antt =====
-- The store of internal/store/store.go seen from outside: for each signal a bag of rows, which has
-- no order.
use mathlib.Core.Quot
use mathlib.Core.Quot.{Quot, Quot-set}
use mathlib.Core.List.Perm
use mathlib.Core.List.{Perm, append_assoc, perm_append_comm}
use otelstore.Base.{Char, ◌≡◌, refl, ◌∙◌, ap, Option, List, ◌++◌, map, Outcome, ok, err}
use otelstore.Value.{Resource, Scope}
use otelstore.Redact.{Redactor}
use otelstore.Sql.{Engine, IsLawful}
use otelstore.Sql.Rows.{
  Table, Row, Tables, SpanRow, LogRow, MetricRow, rows_of, with_rows, spans, logs, metrics,
}
use otelstore.Store.Records.{Span, LogRecord, Metric, span_row, log_row, all_metric_rows}
use otelstore.Store.Inserts.{Store, insert_spans, insert_logs, insert_metrics}
use otelstore.Store.Atomicity.{IsStored}
use otelstore.Store.Batches.{insert_spans-IsStored, insert_logs-IsStored, insert_metrics-IsStored}
use otelstore.Store.Keeping.{spans_keep_redactor, logs_keep_redactor, metrics_keep_redactor}

abbrev pub Bag : Type 0 → Type 0
Bag A = Quot (Perm {A = A})

abbrev pub bag : {A : Type 0} → List A → Bag A
bag = Quot.mk

unfoldable pub add_all : {A : Type 0} → List A → Bag A → Bag A
add_all xs =
    Quot.lift Quot-set (λ ys. bag (ys ++ xs)) (λ ys zs p. Quot.sound (Perm.append_right xs p))

add_all_comm :
    {A : Type 0} (xs ys : List A) (b : Bag A)
    → add_all xs (add_all ys b) ≡ add_all ys (add_all xs b)
unfolding add_all
add_all_comm xs ys =
    Quot.ind (λ b. Quot-set _ _)
      (λ zs. Quot.sound (
        rw (append_assoc zs ys xs, append_assoc zs xs ys)
          (Perm.append_left zs (perm_append_comm ys xs))))

-- a bag for each table
pub record Bags : Type 0 where
  pub span_bag : Bag SpanRow
  pub log_bag : Bag LogRow
  pub metric_bag : Bag MetricRow

-- what the tables are when their order is forgotten
abbrev pub view : Tables → Bags
view db = record {
  span_bag = bag db.span_rows;
  log_bag = bag db.log_rows;
  metric_bag = bag db.metric_rows;
}

unfoldable pub add_rows : (t : Table) → List (Row t) → Bags → Bags
add_rows spans rows b = record b { span_bag = add_all rows b.span_bag }
add_rows logs rows b = record b { log_bag = add_all rows b.log_bag }
add_rows metrics rows b = record b { metric_bag = add_all rows b.metric_bag }

pub add_rows_comm :
    (t u : Table) (xs : List (Row t)) (ys : List (Row u)) (b : Bags)
    → add_rows t xs (add_rows u ys b) ≡ add_rows u ys (add_rows t xs b)
unfolding add_rows
add_rows_comm spans spans xs ys b =
    ap (λ x. record b { span_bag = x }) (add_all_comm xs ys b.span_bag)
add_rows_comm spans logs xs ys b = refl
add_rows_comm spans metrics xs ys b = refl
add_rows_comm logs spans xs ys b = refl
add_rows_comm logs logs xs ys b = ap (λ x. record b { log_bag = x }) (add_all_comm xs ys b.log_bag)
add_rows_comm logs metrics xs ys b = refl
add_rows_comm metrics spans xs ys b = refl
add_rows_comm metrics logs xs ys b = refl
add_rows_comm metrics metrics xs ys b =
    ap (λ x. record b { metric_bag = x }) (add_all_comm xs ys b.metric_bag)

view-with_rows :
    (t : Table) (db : Tables) (rows : List (Row t))
    → view (with_rows db t (rows_of db t ++ rows)) ≡ add_rows t rows (view db)
unfolding add_rows add_all
view-with_rows spans db rows = refl
view-with_rows logs db rows = refl
view-with_rows metrics db rows = refl

-- a call of one of the three inserts
pub data Call : Type 0 where
  span_call : List Span → Option Resource → Option Scope → Call
  log_call : List LogRecord → Option Resource → Option Scope → Call
  metric_call : List Metric → Option Resource → Option Scope → Call

abbrev pub table_of : Call → Table
table_of (span_call batch resource scope) = spans
table_of (log_call batch resource scope) = logs
table_of (metric_call batch resource scope) = metrics

-- the rows that it makes, with the redactor of the store
abbrev pub made_by :
    (Char → Char) → Option Redactor → (c : Call) → List (Outcome (Row (table_of c)))
made_by lower redactor (span_call batch resource scope) =
    map (span_row lower redactor resource scope) batch
made_by lower redactor (log_call batch resource scope) =
    map (log_row lower redactor resource scope) batch
made_by lower redactor (metric_call batch resource scope) =
    all_metric_rows lower redactor resource scope batch

module _ (E : Engine) (lower : Char → Char) where
  abbrev pub call : Call → Store E → Outcome (Unit {0}) × Store E
  call (span_call batch resource scope) s = insert_spans E lower s batch resource scope
  call (log_call batch resource scope) s = insert_logs E lower s batch resource scope
  call (metric_call batch resource scope) s = insert_metrics E lower s batch resource scope

  pub call_keeps_redactor : (c : Call) (s : Store E) → (call c s).1.redactor ≡ s.redactor
  call_keeps_redactor (span_call batch resource scope) s =
      spans_keep_redactor E lower s resource scope batch
  call_keeps_redactor (log_call batch resource scope) s =
      logs_keep_redactor E lower s resource scope batch
  call_keeps_redactor (metric_call batch resource scope) s =
      metrics_keep_redactor E lower s resource scope batch

  module _ (law : IsLawful E) where
    call-IsStored :
        (c : Call) (s : Store E)
        → IsStored
            (table_of c)
            (made_by lower s.redactor c)
            (E.tables s.db)
            (call c s).0
            (E.tables (call c s).1.db)
    call-IsStored (span_call batch resource scope) s =
        insert_spans-IsStored E law lower s resource scope batch
    call-IsStored (log_call batch resource scope) s =
        insert_logs-IsStored E law lower s resource scope batch
    call-IsStored (metric_call batch resource scope) s =
        insert_metrics-IsStored E law lower s resource scope batch

    -- what a call does to the view, by its result
    abbrev pub IsAdded : Call → Store E → Outcome (Unit {0}) → Store E → Type 0
    IsAdded c s (err e) u = view (E.tables u.db) ≡ view (E.tables s.db)
    IsAdded c s (ok _) u =
        (rows : List (Row (table_of c))) × (made_by lower s.redactor c ≡ map ok rows)
        × (view (E.tables u.db) ≡ add_rows (table_of c) rows (view (E.tables s.db)))

    IsStored-IsAdded :
        (c : Call) (s u : Store E) (r : Outcome (Unit {0}))
        → IsStored (table_of c) (made_by lower s.redactor c) (E.tables s.db) r (E.tables u.db)
        → IsAdded c s r u
    IsStored-IsAdded c s u (err e) same = ap view same
    IsStored-IsAdded c s u (ok _) (rows, all_made, _, seen) =
        (rows, all_made, ap view seen ∙ view-with_rows (table_of c) (E.tables s.db) rows)

    -- On a lawful engine: Seen as bags of rows, one for each signal, the tables gain exactly the
    -- rows that the batch is made into when an insert returns nil, and nothing when it returns an
    -- error.
    pub call-IsAdded : (c : Call) (s : Store E) → IsAdded c s (call c s).0 (call c s).1
    call-IsAdded c s = IsStored-IsAdded c s _ _ (call-IsStored c s)

    pub added :
        (c : Call) (s : Store E)
        → (call c s).0 ≡ ok tt
        → (rows : List (Row (table_of c))) × (made_by lower s.redactor c ≡ map ok rows)
          × (view (E.tables (call c s).1.db) ≡ add_rows (table_of c) rows (view (E.tables s.db)))
    added c s h = let a = call-IsAdded c s in (rw h at a)
