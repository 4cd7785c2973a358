-- ===== src/Store/Eviction.antt =====
-- The passes of EnforceMaxSize of internal/store/store.go.
use otelstore.Base.{
  ℕ, ◌+◌, ◌≤◌, ◌≡◌, ◌≢◌, ◌∙◌, List, length, length-drop, length-append, ok-injective, Outcome, ok,
  err, Error, arith, Outcome-cases, inl, inr, min,
}
use otelstore.Base.Orders.{length-perm}
use otelstore.Sql.{Engine, IsLawful, IsEvicted}
use otelstore.Sql.Rows.{Table, Row, Tables, rows_of, with_rows, time_of, spans, logs, metrics}
use otelstore.Store.Oldest.{
  IsOldestGone, IsEvicted-IsOldestGone, IsOldestGone-none, IsOldestGone-trans,
}
use otelstore.Store.Retention.{batch, evicted_count, evict_from, evict_pass}

abbrev pub AreOldestGone : Tables → Tables → Type 0
AreOldestGone before after =
    (t : Table) → IsOldestGone (time_of t) (rows_of before t) (rows_of after t)

pub AreOldestGone-none : (before after : Tables) → after ≡ before → AreOldestGone before after
AreOldestGone-none before after e t = rw e (IsOldestGone-none (time_of t) (rows_of before t))

pub AreOldestGone-trans :
    (before mid after : Tables)
    → AreOldestGone before mid
    → AreOldestGone mid after
    → AreOldestGone before after
AreOldestGone-trans before mid after a b t =
    IsOldestGone-trans (time_of t) _ (rows_of mid t) _ (a t) (b t)

AreOldestGone-one :
    (t : Table) (n : ℕ) (before : Tables) (left : List (Row t))
    → IsEvicted (time_of t) n (rows_of before t) left
    → AreOldestGone before (with_rows before t left)
AreOldestGone-one spans n before left e spans = IsEvicted-IsOldestGone _ n _ left e
AreOldestGone-one spans n before left e logs = IsOldestGone-none _ _
AreOldestGone-one spans n before left e metrics = IsOldestGone-none _ _
AreOldestGone-one logs n before left e spans = IsOldestGone-none _ _
AreOldestGone-one logs n before left e logs = IsEvicted-IsOldestGone _ n _ left e
AreOldestGone-one logs n before left e metrics = IsOldestGone-none _ _
AreOldestGone-one metrics n before left e spans = IsOldestGone-none _ _
AreOldestGone-one metrics n before left e logs = IsOldestGone-none _ _
AreOldestGone-one metrics n before left e metrics = IsEvicted-IsOldestGone _ n _ left e

abbrev pub total_rows : Tables → ℕ
total_rows d = length d.span_rows + length d.log_rows + length d.metric_rows

total_rows_with :
    (t : Table) (d : Tables) (left : List (Row t))
    → total_rows (with_rows d t left) + length (rows_of d t) ≡ total_rows d + length left
total_rows_with spans d left = omega arith
total_rows_with logs d left = omega arith
total_rows_with metrics d left = omega arith

length-IsEvicted :
    {R : Type 0} (key : R → ℕ) (n : ℕ) (rows left : List R)
    → IsEvicted key n rows left
    → length left + min n (length rows) ≡ length rows
length-IsEvicted key n rows left e =
    omega (arith, length-perm e.kept, length-drop n e.ordering, length-perm e.same)

module _ (E : Engine) where
  -- RowsAffected does not fail
  abbrev pub Reports : Type 0
  Reports =
      (t : Table) (key : Row t → ℕ) (k : ℕ) (d : E.Db) (e : Error)
      → (E.evict t key k d).0 ≢ ok (err e)

  abbrev pub table_size : Table → E.Db → ℕ
  table_size t d = length (rows_of (E.tables d) t)

  abbrev pub size : E.Db → ℕ
  size d = total_rows (E.tables d)

  -- a number beside the rows that went
  abbrev pub IsCounted : ℕ → E.Db → E.Db → Type 0
  IsCounted n before after =
      (n + size after ≤ size before) × (Reports → n + size after ≡ size before)

module _ (E : Engine) (law : IsLawful E) where
  pub evict_from-AreOldestGone :
      (t : Table) (d : E.Db) → AreOldestGone (E.tables d) (E.tables (evict_from E t d).1)
  unfolding evict_from
  evict_from-AreOldestGone t d = elim (Outcome-cases (E.evict t (time_of t) batch d).0) [
    | inr (e, failed) ↦ AreOldestGone-none _ _ (law.evict_err t (time_of t) batch d e failed)
    | inl (n, done) ↦
        let (left, after, e) = law.evict_ok t (time_of t) batch d n done in
        rw after (AreOldestGone-one t batch (E.tables d) left e)
  ]

  -- the number that a statement reports is that of the rows that it took, or 0
  evicted_number :
      (t : Table) (d : E.Db) (r : Outcome ℕ)
      → (E.evict t (time_of t) batch d).0 ≡ ok r
      → (evicted_count r ≤ min batch (table_size E t d))
        × (Reports E → evicted_count r ≡ min batch (table_size E t d))
  evicted_number t d (ok n) h =
      let e = law.evict_count t (time_of t) batch d n h in (omega (arith, e), λ reports. e)
  evicted_number t d (err e) h =
      (omega arith, λ reports. absurd (reports t (time_of t) batch d e h))

  evict_from_count :
      (t : Table) (d : E.Db) (n : ℕ)
      → (evict_from E t d).0 ≡ ok n
      → IsCounted E n d (evict_from E t d).1 × (Reports E → n ≡ min batch (table_size E t d))
  unfolding evict_from
  evict_from_count t d n h = elim (Outcome-cases (E.evict t (time_of t) batch d).0) [
    | inr (e, failed) ↦ absurd (ground (arith, failed))
    | inl (r, done) ↦
        let (left, after, e) = law.evict_ok t (time_of t) batch d r done in
        let (most, exact) = evicted_number t d r done in
        let is_n : n ≡ evicted_count r = ground (arith, done) in
        let lost = length-IsEvicted (time_of t) batch (rows_of (E.tables d) t) left e in
        let totals = total_rows_with t (E.tables d) left in
        (
          (rw after (omega arith), (λ reports. let x = exact reports in rw after (omega arith))),
          (λ reports. is_n ∙ exact reports),
        )
  ]

  pub smaller :
      (t : Table) (before after : E.Db)
      → AreOldestGone (E.tables before) (E.tables after)
      → table_size E t after ≤ table_size E t before
  smaller t before after h =
      let o = h t in
      omega (arith, length-perm o.same, length-append o.gone (rows_of (E.tables after) t))

  module _ (d : E.Db) where
    abbrev after_spans : E.Db
    after_spans = (evict_from E spans d).1

    abbrev after_logs : E.Db
    after_logs = (evict_from E logs after_spans).1

    abbrev after_metrics : E.Db
    after_metrics = (evict_from E metrics after_logs).1

    stopped_at_spans :
        (e : Error) → (evict_from E spans d).0 ≡ err e → evict_pass E d ≡ (err e, after_spans)
    unfolding evict_pass
    stopped_at_spans e h = rw (h, evict_pass)

    stopped_at_logs :
        (n : ℕ) (e : Error)
        → (evict_from E spans d).0 ≡ ok n
        → (evict_from E logs after_spans).0 ≡ err e
        → evict_pass E d ≡ (err e, after_logs)
    unfolding evict_pass
    stopped_at_logs n e h k = rw (h, k, evict_pass)

    stopped_at_metrics :
        (n m : ℕ) (e : Error)
        → (evict_from E spans d).0 ≡ ok n
        → (evict_from E logs after_spans).0 ≡ ok m
        → (evict_from E metrics after_logs).0 ≡ err e
        → evict_pass E d ≡ (err e, after_metrics)
    unfolding evict_pass
    stopped_at_metrics n m e h k l = rw (h, k, l, evict_pass)

    evicted_all :
        (n m o : ℕ)
        → (evict_from E spans d).0 ≡ ok n
        → (evict_from E logs after_spans).0 ≡ ok m
        → (evict_from E metrics after_logs).0 ≡ ok o
        → evict_pass E d ≡ (ok (n + m + o), after_metrics)
    unfolding evict_pass
    evicted_all n m o h k l = rw (h, k, l, evict_pass)

    gone_to_logs : AreOldestGone (E.tables d) (E.tables after_logs)
    gone_to_logs =
        AreOldestGone-trans _ (E.tables after_spans) _ (evict_from-AreOldestGone spans d)
          (evict_from-AreOldestGone logs after_spans)

    gone_to_metrics : AreOldestGone (E.tables d) (E.tables after_metrics)
    gone_to_metrics =
        AreOldestGone-trans _ (E.tables after_logs) _ gone_to_logs
          (evict_from-AreOldestGone metrics after_logs)

    -- What a pass has done by its result: the oldest rows are gone from each table, and the number
    -- is theirs; where it is 0 nothing is left.
    abbrev pub IsPassed : Outcome ℕ × E.Db → Type 0
    IsPassed p =
        AreOldestGone (E.tables d) (E.tables p.1)
        × ((n : ℕ) → p.0 ≡ ok n → IsCounted E n d p.1 × (Reports E → n ≡ 0 → size E p.1 ≡ 0))

    IsCounted-all :
        (n m o : ℕ)
        → (evict_from E spans d).0 ≡ ok n
        → (evict_from E logs after_spans).0 ≡ ok m
        → (evict_from E metrics after_logs).0 ≡ ok o
        → IsCounted E (n + m + o) d after_metrics
          × (Reports E → n + m + o ≡ 0 → size E after_metrics ≡ 0)
    IsCounted-all n m o h k l =
        let ((at_most, exact), all_spans) = evict_from_count spans d n h in
        let ((at_most', exact'), all_logs) = evict_from_count logs after_spans m k in
        let ((at_most'', exact''), all_metrics) = evict_from_count metrics after_logs o l in
        (
          (omega arith, (λ r. omega (arith, exact r, exact' r, exact'' r))),
          (λ r none_gone. omega (
            arith,
            all_spans r,
            all_logs r,
            all_metrics r,
            smaller spans _ _ gone_to_metrics,
            smaller logs _ _ (
                AreOldestGone-trans _ (E.tables after_logs) _
                  (evict_from-AreOldestGone logs after_spans)
                  (evict_from-AreOldestGone metrics after_logs)),
            smaller metrics _ _ (evict_from-AreOldestGone metrics after_logs),
          )),
        )

    pub evict_pass-IsPassed : IsPassed (evict_pass E d)
    evict_pass-IsPassed = elim (Outcome-cases (evict_from E spans d).0) [
      | inr (e, h) ↦ rw (stopped_at_spans e h) (evict_from-AreOldestGone spans d, (λ n r. cc))
      | inl (a, h) ↦ elim (Outcome-cases (evict_from E logs after_spans).0) [
        | inr (e, k) ↦ rw (stopped_at_logs a e h k) (gone_to_logs, (λ n r. cc))
        | inl (b, k) ↦ elim (Outcome-cases (evict_from E metrics after_logs).0) [
          | inr (e, l) ↦ rw (stopped_at_metrics a b e h k l) (gone_to_metrics, (λ n r. cc))
          | inl (c, l) ↦
              rw (evicted_all a b c h k l)
                (gone_to_metrics, (λ n r. rw (← ok-injective _ _ r) (IsCounted-all a b c h k l)))
        ]
      ]
    ]
