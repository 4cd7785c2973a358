-- ===== src/Store/Invariant.antt =====
-- The invariant of the database of internal/store/store.go: unique keys of the spans, and rows that
-- show nothing that a redaction rule covers.
use mathlib.Core.Logic.Or
use mathlib.Core.List.{Mem, Mem-prop, mem-cons, not-mem-nil, mem-append}
use mathlib.Core.List.Perm
use otelstore.Base.{
  Char, ◌≡◌, ◌∙◌, Bool, Option, List, [], ◌∷◌, ◌++◌, keep, All, Outcome, ok, err, inl, inr, not,
  Bool-cases,
}
use otelstore.Base.Int.{ℤ}
use otelstore.Redact.{Redactor}
use otelstore.Sql.{Engine, IsLawful}
use otelstore.Sql.Rows.{Table, Row, Tables, rows_of, with_rows, spans, logs, metrics}
use otelstore.Store.Inserts.{Store}
use otelstore.Store.Atomicity.{IsStored}
use otelstore.Store.Batches.{
  IsKeyed, insert_spans-IsStored, insert_logs-IsStored, insert_metrics-IsStored,
  insert_spans-IsKeyed,
}
use otelstore.Store.Privacy.{
  AreMade, AreMade-map, AreMade-All, IsRedactedRow, span_row-IsRedactedRow, log_row-IsRedactedRow,
  all_metric_rows-AreMade,
}
use otelstore.Store.Keeping.{
  spans_keep_redactor, logs_keep_redactor, metrics_keep_redactor, same_spans,
}
use otelstore.Store.Expiry.{unexpired, delete_from_or_not}
use otelstore.Store.Retention.{is_expired}
use otelstore.Store.Eviction.{AreOldestGone, evict_from-AreOldestGone}
use otelstore.Store.Keyed.{IsKeyed-keep, IsKeyed-right, IsKeyed-perm}
use otelstore.Store.Steps.{
  Inserted, spans_inserted, logs_inserted, metrics_inserted, Removed, expired, evicted,
  checkpointed, inserts, removes, Reach, here, next,
}

-- Every stored row satisfies P.
abbrev pub Everywhere : ((t : Table) → Row t → Type 0) → Tables → Type 0
Everywhere P db = (t : Table) (row : Row t) → Mem row (rows_of db t) → ∥ P t row ∥₁

All-mem : {A : Type 0} (P : A → Type 0) (xs : List A) (x : A) → All P xs → Mem x xs → ∥ P x ∥₁
All-mem P [] x h m = absurd (not-mem-nil m)
All-mem P (y ∷ ys) x (h, hs) m =
    Or.elim (hlevel) (mem-cons.0 m) (λ e. rw e (∣ h ∣₁)) (All-mem P ys x hs)

mem-keep : {A : Type 0} (test : A → Bool) (xs : List A) (x : A) → Mem x (keep test xs) → Mem x xs
mem-keep test [] x m = m
mem-keep test (y ∷ ys) x m = elim (Bool-cases (test y)) [
  | inl kept ↦
      Or.elim Mem-prop (mem-cons.0 (rw kept at m)) (λ e. mem-cons.1 (Or.inl e))
        (λ k. mem-cons.1 (Or.inr (mem-keep test ys x k)))
  | inr gone ↦ mem-cons.1 (Or.inr (mem-keep test ys x (rw gone at m)))
]

-- a row of the tables after one of them was replaced
with_rows_elim :
    (Q : (u : Table) → Row u → Type 0) (before : Tables) (t : Table) (rows : List (Row t))
    → ((row : Row t) → Mem row rows → Q t row)
    → ((u : Table) (row : Row u) → Mem row (rows_of before u) → Q u row)
    → (u : Table) (row : Row u) → Mem row (rows_of (with_rows before t rows) u)
    → Q u row
with_rows_elim Q before spans rows new old spans row m = new row m
with_rows_elim Q before spans rows new old logs row m = old logs row m
with_rows_elim Q before spans rows new old metrics row m = old metrics row m
with_rows_elim Q before logs rows new old spans row m = old spans row m
with_rows_elim Q before logs rows new old logs row m = new row m
with_rows_elim Q before logs rows new old metrics row m = old metrics row m
with_rows_elim Q before metrics rows new old spans row m = old spans row m
with_rows_elim Q before metrics rows new old logs row m = old logs row m
with_rows_elim Q before metrics rows new old metrics row m = new row m

-- No row is new, and the key stays unique.
record IsLess (before after : Tables) : Type 0 where
  old : (t : Table) (row : Row t) → Mem row (rows_of after t) → Mem row (rows_of before t)
  keyed : IsKeyed before.span_rows → IsKeyed after.span_rows

IsLess-same : (before after : Tables) → after ≡ before → IsLess before after
IsLess-same before after e = record { old = λ t row m. rw e at m; keyed = λ h. rw e h }

IsLess-unexpired :
    (cutoff : ℤ) (t : Table) (before : Tables)
    → IsLess before (with_rows before t (unexpired cutoff t (rows_of before t)))
IsLess-unexpired cutoff t before = record {
  old =
      with_rows_elim (λ u row. Mem row (rows_of before u)) before t _
        (λ row m. mem-keep (λ r. not (is_expired cutoff t r)) _ row m) (λ u row m. m);
  keyed = kept cutoff t before;
}
  where
    kept :
        (cutoff : ℤ) (t : Table) (before : Tables)
        → IsKeyed before.span_rows
        → IsKeyed (with_rows before t (unexpired cutoff t (rows_of before t))).span_rows
    kept cutoff spans before h = IsKeyed-keep (λ r. not (is_expired cutoff spans r)) _ h
    kept cutoff logs before h = h
    kept cutoff metrics before h = h

IsLess-oldest : (before after : Tables) → AreOldestGone before after → IsLess before after
IsLess-oldest before after h = record {
  old = λ t row m. (Perm.mem_iff (h t).same).0 (mem-append.1 (Or.inr m));
  keyed = λ k. IsKeyed-right _ _ (IsKeyed-perm (Perm.symm (h spans).same) k);
}

Everywhere-less :
    (P : (t : Table) → Row t → Type 0) (before after : Tables)
    → IsLess before after
    → Everywhere P before
    → Everywhere P after
Everywhere-less P before after less h t row m = h t row (less.old t row m)

Everywhere-added :
    (P : (t : Table) → Row t → Type 0) (before : Tables) (t : Table) (rows : List (Row t))
    → All (P t) rows
    → Everywhere P before
    → Everywhere P (with_rows before t (rows_of before t ++ rows))
Everywhere-added P before t rows made h =
    with_rows_elim (λ u row. ∥ P u row ∥₁) before t _
      (λ row m. Or.elim (hlevel) (mem-append.0 m) (h t row) (All-mem (P t) rows row made)) h

IsStored-Everywhere :
    (P : (t : Table) → Row t → Type 0) (t : Table) (made : List (Outcome (Row t)))
    (before after : Tables) (r : Outcome (Unit {0}))
    → AreMade (P t) made
    → IsStored t made before r after
    → Everywhere P before
    → Everywhere P after
IsStored-Everywhere P t made before after (err e) m same h = rw same h
IsStored-Everywhere P t made before after (ok _) m (rows, all_made, _, seen) h =
    rw seen (Everywhere-added P before t rows (AreMade-All _ rows (rw all_made at m)) h)

module _ (E : Engine) (lower : Char → Char) (redactor : Option Redactor) where
  -- The store has this redactor, no two spans share trace id and span id, and no row of any table
  -- shows a value that a rule of the redactor covers.
  pub record IsKept (s : Store E) : Type 0 where
    pub configured : s.redactor ≡ redactor
    pub keyed : IsKeyed (E.tables s.db).span_rows
    pub withheld : Everywhere (IsRedactedRow lower redactor) (E.tables s.db)

module _ (E : Engine) (law : IsLawful E) (lower : Char → Char) (redactor : Option Redactor) where
  -- a batch of any signal, stored or not
  IsStored-IsKept :
      (s u : Store E) (t : Table) (made : List (Outcome (Row t))) (r : Outcome (Unit {0}))
      → IsKept E lower redactor s
      → u.redactor ≡ s.redactor
      → AreMade (IsRedactedRow lower s.redactor t) made
      → IsStored t made (E.tables s.db) r (E.tables u.db)
      → IsKeyed (E.tables u.db).span_rows
      → IsKept E lower redactor u
  IsStored-IsKept s u t made r k same m stored keyed = record {
    configured = same ∙ k.configured;
    keyed = keyed;
    withheld =
        IsStored-Everywhere (IsRedactedRow lower redactor) t made _ _ r (rw k.configured at m)
          stored k.withheld;
  }

  Inserted-IsKept :
      (s u : Store E) → Inserted E lower s u → IsKept E lower redactor s → IsKept E lower redactor u
  Inserted-IsKept s u (spans_inserted batch resource scope) k =
      IsStored-IsKept s _ spans _ _ k (spans_keep_redactor E lower s resource scope batch)
        (AreMade-map _ _ batch (span_row-IsRedactedRow lower s.redactor resource scope))
        (insert_spans-IsStored E law lower s resource scope batch)
        (insert_spans-IsKeyed E law lower s resource scope batch k.keyed)
  Inserted-IsKept s u (logs_inserted batch resource scope) k =
      let stored = insert_logs-IsStored E law lower s resource scope batch in
      IsStored-IsKept s _ logs _ _ k (logs_keep_redactor E lower s resource scope batch)
        (AreMade-map _ _ batch (log_row-IsRedactedRow lower s.redactor resource scope)) stored
        (rw (same_spans logs _ _ _ _ stored (λ e. cc)) k.keyed)
  Inserted-IsKept s u (metrics_inserted batch resource scope) k =
      let stored = insert_metrics-IsStored E law lower s resource scope batch in
      IsStored-IsKept s _ metrics _ _ k (metrics_keep_redactor E lower s resource scope batch)
        (all_metric_rows-AreMade lower s.redactor resource scope batch) stored
        (rw (same_spans metrics _ _ _ _ stored (λ e. cc)) k.keyed)

  IsLess-IsKept :
      (s : Store E) (d : E.Db)
      → IsLess (E.tables s.db) (E.tables d)
      → IsKept E lower redactor s
      → IsKept E lower redactor (record s { db = d })
  IsLess-IsKept s d less k = record {
    configured = k.configured;
    keyed = less.keyed k.keyed;
    withheld = Everywhere-less (IsRedactedRow lower redactor) _ _ less k.withheld;
  }

  Removed-IsKept :
      (s u : Store E) → Removed E lower s u → IsKept E lower redactor s → IsKept E lower redactor u
  Removed-IsKept s u (expired t cutoff) k =
      IsLess-IsKept s _
        (elim (delete_from_or_not E law cutoff t s.db) [
          | inl same ↦ IsLess-same _ _ same
          | inr less ↦ rw less (IsLess-unexpired cutoff t (E.tables s.db))
        ])
        k
  Removed-IsKept s u (evicted t) k =
      IsLess-IsKept s _ (IsLess-oldest _ _ (evict_from-AreOldestGone E law t s.db)) k
  Removed-IsKept s u checkpointed k =
      IsLess-IsKept s _ (IsLess-same _ _ (law.checkpoint_keeps s.db)) k

  -- On a lawful engine: Whatever inserts, statements of the sweeper and checkpoints the store has
  -- gone through, in whatever order, it has the redactor that it had; if no two spans shared trace
  -- id and span id before, none do after; and if no row showed a value that a rule of the redactor
  -- covers, none does.
  pub Reach-IsKept :
      {s u : Store E} → Reach E lower s u → IsKept E lower redactor s → IsKept E lower redactor u
  Reach-IsKept here k = k
  Reach-IsKept (next r (inserts i)) k = Inserted-IsKept _ _ i (Reach-IsKept r k)
  Reach-IsKept (next r (removes i)) k = Removed-IsKept _ _ i (Reach-IsKept r k)
