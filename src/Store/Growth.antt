-- ===== src/Store/Growth.antt =====
-- Sequences of inserts of internal/store/store.go.
use mathlib.Core.List.{append-nil, append_assoc}
use otelstore.Base.{Char, refl, [], ◌++◌}
use otelstore.Sql.{Engine, IsLawful}
use otelstore.Sql.Rows.{Tables, spans, logs, metrics}
use otelstore.Store.Inserts.{Store}
use otelstore.Store.Batches.{insert_spans-IsStored, insert_logs-IsStored, insert_metrics-IsStored}
use otelstore.Store.Keeping.{Extends, IsStored-Extends}
use otelstore.Store.Steps.{
  Inserted, spans_inserted, logs_inserted, metrics_inserted, inserts, Grown, grown_none, grown_by,
  Reach, here, next,
}

Extends-trans :
    (before mid after : Tables) → Extends before mid → Extends mid after → Extends before after
Extends-trans before mid after h k t =
    let (xs, a) = h t in let (ys, b) = k t in (xs ++ ys, rw (b, a, append_assoc) refl)

module _ (E : Engine) (lower : Char → Char) where
  pub Grown-Reach : {s u : Store E} → Grown E lower s u → Reach E lower s u
  Grown-Reach grown_none = here
  Grown-Reach (grown_by g i) = next (Grown-Reach g) (inserts i)

  pub Grown-trans : {s t u : Store E} → Grown E lower s t → Grown E lower t u → Grown E lower s u
  Grown-trans g grown_none = g
  Grown-trans g (grown_by f i) = grown_by (Grown-trans g f) i

  pub Reach-trans : {s t u : Store E} → Reach E lower s t → Reach E lower t u → Reach E lower s u
  Reach-trans r here = r
  Reach-trans r (next q i) = next (Reach-trans r q) i

  module _ (law : IsLawful E) where
    Inserted-Extends :
        (s u : Store E) → Inserted E lower s u → Extends (E.tables s.db) (E.tables u.db)
    Inserted-Extends s u (spans_inserted batch resource scope) =
        IsStored-Extends spans _ _ _ _ (insert_spans-IsStored E law lower s resource scope batch)
    Inserted-Extends s u (logs_inserted batch resource scope) =
        IsStored-Extends logs _ _ _ _ (insert_logs-IsStored E law lower s resource scope batch)
    Inserted-Extends s u (metrics_inserted batch resource scope) =
        IsStored-Extends metrics _ _ _ _
          (insert_metrics-IsStored E law lower s resource scope batch)

    pub Grown-Extends :
        {s u : Store E} → Grown E lower s u → Extends (E.tables s.db) (E.tables u.db)
    Grown-Extends grown_none = λ t. ([], rw append-nil refl)
    Grown-Extends (grown_by {t} {u} g i) =
        Extends-trans _ (E.tables t.db) _ (Grown-Extends g) (Inserted-Extends t u i)
