-- ===== src/Store/Privacy.antt =====
-- Rows that show no value that a redaction rule covers: not in the attribute documents of
-- internal/store/store.go, not in the columns that are promoted from them, not in the attributes of
-- span events.
use mathlib.Core.Path.{subst}
use otelstore.Base.{
  Char, String, ◌≡◌, refl, ap, true, Option, none, some, List, [], ◌∷◌, map, Outcome, ok, err,
  ok-injective, >>=-eq-ok, or_wrap-eq-ok, arith, All, All-append, ◌⊎◌, inl, inr, Option-cases,
  string_discrete,
}
use otelstore.Value.{
  Resource, Scope, KeyValues, Value, Values, Fields, object, array, no_items, item_then, lookup,
}
use otelstore.Value.Json.{marshal, unsupported_value}
use otelstore.Redact.{Redactor, placeholder, match, apply}
use otelstore.Redact.Applying.{lookup-apply}
use otelstore.Sql.Rows.{
  Column, text, document, Table, Row, Tables, SpanRow, LogRow, MetricRow, rows_of, spans, logs,
  metrics,
}
use otelstore.Store.Records.{
  Event, Span, LogRecord, Metric, NumberDataPoint, string_or_blank, extract_metadata, merged_attrs,
  event_attrs, event_value, event_values, events_column, span_row, log_row, point_row,
  all_metric_rows, metric_rows, point_attributes, MetricData, gauge, sum, unsupported,
}

marshal-eq-ok : (v w : Value) → marshal v ≡ ok w → w ≡ v
unfolding marshal
marshal-eq-ok v w h = ground arith

marshal-cases : (v : Value) → (marshal v ≡ ok v) ⊎ (marshal v ≡ err unsupported_value)
unfolding marshal
marshal-cases v = ground arith

-- Whatever was made without an error satisfies P.
abbrev pub AreMade : {R : Type 0} → (R → Type 0) → List (Outcome R) → Type 0
AreMade {R} P = All (λ o. (row : R) → o ≡ ok row → P row)

pub AreMade-map :
    {A R : Type 0} (P : R → Type 0) (f : A → Outcome R) (xs : List A)
    → ((x : A) (row : R) → f x ≡ ok row → P row)
    → AreMade P (map f xs)
AreMade-map P f [] h = tt
AreMade-map P f (x ∷ xs) h = (h x, AreMade-map P f xs h)

pub AreMade-All :
    {R : Type 0} (P : R → Type 0) (rows : List R) → AreMade P (map ok rows) → All P rows
AreMade-All P [] h = tt
AreMade-All P (row ∷ rows) (h, hs) = (h row refl, AreMade-All P rows hs)

module _ (lower : Char → Char) (redactor : Option Redactor) where
  -- A key that a rule covers is absent, or has the placeholder.
  abbrev pub IsWithheld : Fields → Type 0
  IsWithheld m =
      (k : String)
      → match lower redactor k ≡ true
      → (lookup k m ≡ none) ⊎ (lookup k m ≡ some placeholder)

  -- The text of a column that is promoted from a key is blank or the placeholder.
  abbrev pub IsWithheldText : String → String → Type 0
  IsWithheldText k s = match lower redactor k ≡ true → (s ≡ "") ⊎ (s ≡ "[REDACTED]")

  abbrev pub IsWithheldDocument : Column → Type 0
  IsWithheldDocument c = (m : Fields) × (c ≡ document (object m)) × IsWithheld m

  abbrev pub AreWithheldEvents : Values → Type 0
  AreWithheldEvents no_items = Unit
  AreWithheldEvents (item_then v vs) =
      ((event attrs : Fields) × (v ≡ object event)
        × (lookup "attributes" event ≡ some (object attrs))
        × IsWithheld attrs)
      × AreWithheldEvents vs

  abbrev pub IsWithheldEvents : Column → Type 0
  IsWithheldEvents c =
      (c ≡ text "") ⊎ ((vs : Values) × (c ≡ document (array vs)) × AreWithheldEvents vs)

  abbrev pub IsRedactedRow : (t : Table) → Row t → Type 0
  IsRedactedRow spans r =
      IsWithheldDocument r.attributes
      × IsWithheldText "run_id" r.run_id
      × IsWithheldText "job_id" r.job_id
      × IsWithheldEvents r.events
  IsRedactedRow logs r =
      IsWithheldDocument r.attributes
      × IsWithheldText "run_id" r.run_id
      × IsWithheldText "job_id" r.job_id
      × IsWithheldText "event.name" r.event_name
  IsRedactedRow metrics r =
      IsWithheldDocument r.attributes
      × IsWithheldText "run_id" r.run_id
      × IsWithheldText "job_id" r.job_id

  -- every row of every table
  abbrev pub IsRedacted : Tables → Type 0
  IsRedacted db = (t : Table) → All (IsRedactedRow t) (rows_of db t)

  apply-IsWithheld : (m : Fields) → IsWithheld (apply lower redactor m).0
  apply-IsWithheld m k h = elim (Option-cases (lookup k m)) [
    | inl absent ↦ inl (rw (lookup-apply, h, absent) refl)
    | inr (v, there) ↦ inr (rw (lookup-apply, h, there) refl)
  ]

  string_or_blank-IsWithheldText :
      (k : String) (m : Fields) → IsWithheld m → IsWithheldText k (string_or_blank (lookup k m))
  string_or_blank-IsWithheldText k m w h = elim (w k h) [
    | inl absent ↦ inl (rw absent refl)
    | inr there ↦ inr (rw there refl)
  ]

  event_values-AreWithheldEvents :
      (evts : List Event) → AreWithheldEvents (event_values lower redactor evts)
  unfolding event_values event_value event_attrs lookup string_discrete
  event_values-AreWithheldEvents [] = tt
  event_values-AreWithheldEvents (evt ∷ evts) =
      ((_, _, refl, refl, apply-IsWithheld _), event_values-AreWithheldEvents evts)

  events_column-IsWithheldEvents :
      (evts : List Event) → IsWithheldEvents (events_column lower redactor evts)
  unfolding events_column
  events_column-IsWithheldEvents [] = inl refl
  events_column-IsWithheldEvents (evt ∷ evts) =
      let vs = event_values lower redactor (evt ∷ evts) in
      elim (marshal-cases (array vs)) [
        | inl accepted ↦ inr (vs, rw accepted refl, event_values-AreWithheldEvents (evt ∷ evts))
        | inr refused ↦ inl (rw refused refl)
      ]

  module _ (resource : Option Resource) (scope : Option Scope) where
    merged_attrs-IsWithheld :
        (attrs : KeyValues) → IsWithheld (merged_attrs lower redactor resource scope attrs)
    unfolding merged_attrs
    merged_attrs-IsWithheld attrs = apply-IsWithheld _

    pub span_row-IsRedactedRow :
        (span : Span) (row : SpanRow)
        → span_row lower redactor resource scope span ≡ ok row
        → IsRedactedRow spans row
    unfolding span_row extract_metadata
    span_row-IsRedactedRow span row h =
        let (doc, marshalled, made) = >>=-eq-ok _ _ h in
        let m = merged_attrs lower redactor resource scope span.attributes in
        let w = merged_attrs-IsWithheld span.attributes in
        subst (IsRedactedRow spans) (ok-injective _ row made) (
          (m, ap document (marshal-eq-ok (object m) doc (or_wrap-eq-ok _ _ marshalled)), w),
          string_or_blank-IsWithheldText "run_id" m w,
          string_or_blank-IsWithheldText "job_id" m w,
          events_column-IsWithheldEvents span.events,
        )

    pub log_row-IsRedactedRow :
        (log : LogRecord) (row : LogRow)
        → log_row lower redactor resource scope log ≡ ok row
        → IsRedactedRow logs row
    unfolding log_row extract_metadata
    log_row-IsRedactedRow log row h =
        let (doc, marshalled, made) = >>=-eq-ok _ _ h in
        let m = merged_attrs lower redactor resource scope log.attributes in
        let w = merged_attrs-IsWithheld log.attributes in
        subst (IsRedactedRow logs) (ok-injective _ row made) (
          (m, ap document (marshal-eq-ok (object m) doc (or_wrap-eq-ok _ _ marshalled)), w),
          string_or_blank-IsWithheldText "run_id" m w,
          string_or_blank-IsWithheldText "job_id" m w,
          string_or_blank-IsWithheldText "event.name" m w,
        )

    point_row-IsRedactedRow :
        (name : String) (dp : Option NumberDataPoint) (row : MetricRow)
        → point_row lower redactor resource scope name dp ≡ ok row
        → IsRedactedRow metrics row
    unfolding point_row extract_metadata
    point_row-IsRedactedRow name dp row h =
        let (doc, marshalled, made) = >>=-eq-ok _ _ h in
        let m = merged_attrs lower redactor resource scope (point_attributes dp) in
        let w = merged_attrs-IsWithheld (point_attributes dp) in
        subst (IsRedactedRow metrics) (ok-injective _ row made) (
          (m, ap document (marshal-eq-ok (object m) doc (or_wrap-eq-ok _ _ marshalled)), w),
          string_or_blank-IsWithheldText "run_id" m w,
          string_or_blank-IsWithheldText "job_id" m w,
        )

    points-AreMade :
        (name : String) (points : MetricData)
        → AreMade
            (IsRedactedRow metrics)
            (metric_rows lower redactor resource scope (record { name = name; points = points }))
    unfolding metric_rows
    points-AreMade name (gauge dps) = AreMade-map _ _ dps (point_row-IsRedactedRow name)
    points-AreMade name (sum dps) = AreMade-map _ _ dps (point_row-IsRedactedRow name)
    points-AreMade name unsupported = tt

    pub all_metric_rows-AreMade :
        (batch : List Metric)
        → AreMade (IsRedactedRow metrics) (all_metric_rows lower redactor resource scope batch)
    unfolding all_metric_rows
    all_metric_rows-AreMade [] = tt
    all_metric_rows-AreMade (metric ∷ batch) =
        All-append _ _ _ (points-AreMade metric.name metric.points) (all_metric_rows-AreMade batch)
