-- ===== src/Store/Expiry.antt =====
-- What DeleteBefore of internal/store/store.go takes away.
use otelstore.Base.{
  ℕ, ◌+◌, ◌≡◌, refl, ◌∙◌, not, List, length, keep, none, some, ok, err, Error, arith, Outcome-cases,
  ◌⊎◌, inl, inr,
}
use otelstore.Base.Int.{ℤ}
use otelstore.Sql.{Engine, IsLawful}
use otelstore.Sql.Rows.{Table, Row, Tables, rows_of, with_rows, spans, logs, metrics}
use otelstore.Store.Retention.{is_expired, delete_from, delete_before}

-- the rows of a table that a cutoff lets stay
abbrev pub unexpired : ℤ → (t : Table) → List (Row t) → List (Row t)
unexpired cutoff t rows = keep (λ r. not (is_expired cutoff t r)) rows

abbrev pub expired_count : ℤ → (t : Table) → Tables → ℕ
expired_count cutoff t d = length (keep (is_expired cutoff t) (rows_of d t))

abbrev pub all_unexpired : ℤ → Tables → Tables
all_unexpired cutoff d = record {
  span_rows = unexpired cutoff spans d.span_rows;
  log_rows = unexpired cutoff logs d.log_rows;
  metric_rows = unexpired cutoff metrics d.metric_rows;
}

-- each table is as it was, or its expired rows are gone
abbrev pub IsPartly : ℤ → Tables → Tables → Type 0
IsPartly cutoff before after =
    (t : Table)
    → (rows_of after t ≡ rows_of before t)
      ⊎ (rows_of after t ≡ unexpired cutoff t (rows_of before t))

-- the same where at most one table has changed
abbrev IsStep : ℤ → Table → Tables → Tables → Type 0
IsStep cutoff t before after =
    (after ≡ before) ⊎ (after ≡ with_rows before t (unexpired cutoff t (rows_of before t)))

module _ (E : Engine) (law : IsLawful E) (cutoff : ℤ) where
  delete_from_ok :
      (t : Table) (d : E.Db) (n : ℕ)
      → (delete_from E t cutoff d).0 ≡ ok n
      → (E.tables (delete_from E t cutoff d).1
          ≡ with_rows (E.tables d) t (unexpired cutoff t (rows_of (E.tables d) t)))
        × (n ≡ expired_count cutoff t (E.tables d))
  unfolding delete_from
  delete_from_ok t d n h = elim (Outcome-cases (E.delete t (is_expired cutoff t) d).0) [
    | inr (e, failed) ↦ absurd (ground (arith, failed))
    | inl (ok m, done) ↦
        (law.delete_ok t _ d _ done, law.delete_count t _ d n (done ∙ ground (arith, done)))
    | inl (err e, done) ↦ absurd (ground (arith, done))
  ]

  -- the table is as it was, or its expired rows are gone
  pub delete_from_or_not :
      (t : Table) (d : E.Db)
      → (E.tables (delete_from E t cutoff d).1 ≡ E.tables d)
        ⊎ (E.tables (delete_from E t cutoff d).1
            ≡ with_rows (E.tables d) t (unexpired cutoff t (rows_of (E.tables d) t)))
  unfolding delete_from
  delete_from_or_not t d = elim (Outcome-cases (E.delete t (is_expired cutoff t) d).0) [
    | inr (e, failed) ↦ inl (law.delete_err t _ d e failed)
    | inl (n, done) ↦ inr (law.delete_ok t _ d n done)
  ]

  module _ (d : E.Db) where
    abbrev after_spans : E.Db
    after_spans = (delete_from E spans cutoff d).1

    abbrev after_logs : E.Db
    after_logs = (delete_from E logs cutoff after_spans).1

    abbrev after_metrics : E.Db
    after_metrics = (delete_from E metrics cutoff after_logs).1

    stopped_at_spans :
        (e : Error)
        → (delete_from E spans cutoff d).0 ≡ err e
        → delete_before E cutoff d ≡ ((0, some e), after_spans)
    unfolding delete_before
    stopped_at_spans e h = rw (h, delete_before)

    stopped_at_logs :
        (n : ℕ) (e : Error)
        → (delete_from E spans cutoff d).0 ≡ ok n
        → (delete_from E logs cutoff after_spans).0 ≡ err e
        → delete_before E cutoff d ≡ ((0, some e), after_logs)
    unfolding delete_before
    stopped_at_logs n e h k = rw (h, k, delete_before)

    stopped_at_metrics :
        (n m : ℕ) (e : Error)
        → (delete_from E spans cutoff d).0 ≡ ok n
        → (delete_from E logs cutoff after_spans).0 ≡ ok m
        → (delete_from E metrics cutoff after_logs).0 ≡ err e
        → delete_before E cutoff d ≡ ((0, some e), after_metrics)
    unfolding delete_before
    stopped_at_metrics n m e h k l = rw (h, k, l, delete_before)

    deleted_all :
        (n m o : ℕ)
        → (delete_from E spans cutoff d).0 ≡ ok n
        → (delete_from E logs cutoff after_spans).0 ≡ ok m
        → (delete_from E metrics cutoff after_logs).0 ≡ ok o
        → delete_before E cutoff d ≡ ((n + m + o, none), after_metrics)
    unfolding delete_before
    deleted_all n m o h k l = rw (h, k, l, delete_before)

    all_three :
        (n m o : ℕ)
        → (delete_from E spans cutoff d).0 ≡ ok n
        → (delete_from E logs cutoff after_spans).0 ≡ ok m
        → (delete_from E metrics cutoff after_logs).0 ≡ ok o
        → (E.tables after_metrics ≡ all_unexpired cutoff (E.tables d))
          × (n + m + o
              ≡ expired_count cutoff spans (E.tables d)
                + expired_count cutoff logs (E.tables d)
                + expired_count cutoff metrics (E.tables d))
    all_three n m o h k l =
        let (a, count_a) = delete_from_ok spans d n h in
        let (b, count_b) = delete_from_ok logs after_spans m k in
        let (c, count_c) = delete_from_ok metrics after_logs o l in
        (rw (c, b, a) refl, rw (count_a, count_b, count_c, b, a) refl)

  -- On a lawful engine: What DeleteBefore has done by its result: with no error exactly the rows
  -- before the cutoff are gone from the three tables, and their number is returned; with an error
  -- the number is 0.
  pub delete_before_complete :
      (d : E.Db) (n : ℕ)
      → ((delete_before E cutoff d).0 ≡ (n, none)
          → (E.tables (delete_before E cutoff d).1 ≡ all_unexpired cutoff (E.tables d))
            × (n
                ≡ expired_count cutoff spans (E.tables d)
                  + expired_count cutoff logs (E.tables d)
                  + expired_count cutoff metrics (E.tables d)))
        × ((e : Error) → (delete_before E cutoff d).0 ≡ (n, some e) → n ≡ 0)
  delete_before_complete d n = elim (Outcome-cases (delete_from E spans cutoff d).0) [
    | inr (e, h) ↦ rw (stopped_at_spans d e h) ((λ k. cc), (λ e' k. cc))
    | inl (a, h) ↦ elim (Outcome-cases (delete_from E logs cutoff (after_spans d)).0) [
      | inr (e, k) ↦ rw (stopped_at_logs d a e h k) ((λ r. cc), (λ e' r. cc))
      | inl (b, k) ↦ elim (Outcome-cases (delete_from E metrics cutoff (after_logs d)).0) [
        | inr (e, l) ↦ rw (stopped_at_metrics d a b e h k l) ((λ r. cc), (λ e' r. cc))
        | inl (c, l) ↦
            rw (deleted_all d a b c h k l)
              ((λ r. let (gone, count) = all_three d a b c h k l in (gone, cc)), (λ e' r. cc))
      ]
    ]
  ]

  IsPartly-step :
      (t : Table) (before mid after : Tables)
      → IsPartly cutoff before mid
      → rows_of mid t ≡ rows_of before t
      → IsStep cutoff t mid after
      → IsPartly cutoff before after
  IsPartly-step t before mid after h same (inl e) u = rw e (h u)
  IsPartly-step spans before mid after h same (inr e) spans = inr (rw (e, same) refl)
  IsPartly-step spans before mid after h same (inr e) logs = rw e (h logs)
  IsPartly-step spans before mid after h same (inr e) metrics = rw e (h metrics)
  IsPartly-step logs before mid after h same (inr e) spans = rw e (h spans)
  IsPartly-step logs before mid after h same (inr e) logs = inr (rw (e, same) refl)
  IsPartly-step logs before mid after h same (inr e) metrics = rw e (h metrics)
  IsPartly-step metrics before mid after h same (inr e) spans = rw e (h spans)
  IsPartly-step metrics before mid after h same (inr e) logs = rw e (h logs)
  IsPartly-step metrics before mid after h same (inr e) metrics = inr (rw (e, same) refl)

  logs_untouched :
      (before after : Tables) → IsStep cutoff spans before after → after.log_rows ≡ before.log_rows
  logs_untouched before after (inl e) = rw e refl
  logs_untouched before after (inr e) = rw e refl

  metrics_untouched :
      (before mid after : Tables)
      → IsStep cutoff spans before mid
      → IsStep cutoff logs mid after
      → after.metric_rows ≡ before.metric_rows
  metrics_untouched before mid after (inl e) (inl f) = rw (f, e) refl
  metrics_untouched before mid after (inl e) (inr f) = rw (f, e) refl
  metrics_untouched before mid after (inr e) (inl f) = rw (f, e) refl
  metrics_untouched before mid after (inr e) (inr f) = rw (f, e) refl

  module _ (d : E.Db) where
    IsPartly-spans : IsPartly cutoff (E.tables d) (E.tables (after_spans d))
    IsPartly-spans =
        IsPartly-step spans _ (E.tables d) _ (λ t. inl refl) refl (delete_from_or_not spans d)

    IsPartly-logs : IsPartly cutoff (E.tables d) (E.tables (after_logs d))
    IsPartly-logs =
        IsPartly-step logs _ (E.tables (after_spans d)) _ IsPartly-spans
          (logs_untouched _ _ (delete_from_or_not spans d))
          (delete_from_or_not logs (after_spans d))

    IsPartly-metrics : IsPartly cutoff (E.tables d) (E.tables (after_metrics d))
    IsPartly-metrics =
        IsPartly-step metrics _ (E.tables (after_logs d)) _ IsPartly-logs
          (metrics_untouched _ _ _ (delete_from_or_not spans d)
            (delete_from_or_not logs (after_spans d)))
          (delete_from_or_not metrics (after_logs d))

    -- On a lawful engine: Whatever DeleteBefore returns, each table is as it was, or has lost
    -- exactly its rows before the cutoff.
    pub delete_before-IsPartly :
        IsPartly cutoff (E.tables d) (E.tables (delete_before E cutoff d).1)
    delete_before-IsPartly = elim (Outcome-cases (delete_from E spans cutoff d).0) [
      | inr (e, h) ↦ rw (stopped_at_spans d e h) IsPartly-spans
      | inl (a, h) ↦ elim (Outcome-cases (delete_from E logs cutoff (after_spans d)).0) [
        | inr (e, k) ↦ rw (stopped_at_logs d a e h k) IsPartly-logs
        | inl (b, k) ↦ elim (Outcome-cases (delete_from E metrics cutoff (after_logs d)).0) [
          | inr (e, l) ↦ rw (stopped_at_metrics d a b e h k l) IsPartly-metrics
          | inl (c, l) ↦ rw (deleted_all d a b c h k l) IsPartly-metrics
        ]
      ]
    ]
