-- ===== src/Store/NotANumber.antt =====
-- Data points of internal/store/store.go whose double is a NaN.
use mathlib.Core.List.{Mem, Memᴰ}
use mathlib.Core.Logic.{∥∥₁_elim}
use otelstore.Base.{
  ℕ, Char, ◌≡◌, refl, ◌∙◌, sym, ap, true, Option, some, List, [], ◌∷◌, ◌++◌, err, Error,
  Outcome-cases, inl, inr,
}
use otelstore.Float.{is_nan}
use otelstore.Value.{Resource, Scope}
use otelstore.Sql.{Engine, IsLawful}
use otelstore.Sql.Rows.{MetricRow, metrics}
use otelstore.Store.Records.{Metric, NumberDataPoint, as_double, extract_double_value}
use otelstore.Store.Inserts.{Store, insert_metrics}
use otelstore.Store.Atomicity.{AreFresh}
use otelstore.Store.Batches.{insert_metrics-IsStored}
use otelstore.Store.MetricTrip.{points_of, made_point-mem}

-- no NaN is among rows that the engine took
AreFresh-not_nan :
    (old rows : List MetricRow) {r : MetricRow}
    → AreFresh metrics old rows
    → is_nan r.value_double ≡ true
    → ¬ Memᴰ r rows
AreFresh-not_nan old [] h n m = elim m [ ]
AreFresh-not_nan old (x ∷ xs) (fresh, later) n (Memᴰ.head e) =
    let same : is_nan x.value_double ≡ true =
      ap (λ (r : MetricRow). is_nan r.value_double) (sym e) ∙ n in
    cc
AreFresh-not_nan old (x ∷ xs) (fresh, later) n (Memᴰ.tail m) =
    AreFresh-not_nan (old ++ x ∷ []) xs later n m

stored_double :
    (dp : NumberDataPoint) (d : ℕ) → dp.value ≡ as_double d → extract_double_value (some dp) ≡ d
unfolding extract_double_value
stored_double dp d h = rw (h, extract_double_value) refl

module _ (E : Engine) (law : IsLawful E) (lower : Char → Char) (s : Store E)
    (resource : Option Resource) (scope : Option Scope) (batch : List Metric) where
  -- On a lawful engine: If one data point of a gauge or a sum of the batch is a double that is NaN,
  -- InsertMetrics returns an error, and no row of the batch is stored, nor is anything else changed in
  -- the tables.
  pub insert_metrics_refuses_nan :
      (metric : Metric) (dp : NumberDataPoint) (d : ℕ)
      → Mem metric batch
      → Mem (some dp) (points_of metric)
      → dp.value ≡ as_double d
      → is_nan d ≡ true
      → (e : Error) × ((insert_metrics E lower s batch resource scope).0 ≡ err e)
        × (E.tables (insert_metrics E lower s batch resource scope).1.db ≡ E.tables s.db)
  insert_metrics_refuses_nan metric dp d m n is_d nan =
      elim (Outcome-cases (insert_metrics E lower s batch resource scope).0) [
        | inr (e, failed) ↦
            (e, failed, rw failed at (insert_metrics-IsStored E law lower s resource scope batch))
        | inl (_, done) ↦
            let (rows, all_made, fresh, _) =
              rw done at (insert_metrics-IsStored E law lower s resource scope batch) in
            let among =
              made_point-mem lower s.redactor resource scope batch rows metric (some dp) all_made m
                n in
            let its_nan = ap is_nan (stored_double dp d is_d) ∙ nan in
            absurd (
              ∥∥₁_elim among (λ a b. absurd a)
                (AreFresh-not_nan (E.tables s.db).metric_rows rows fresh its_nan))
      ]
