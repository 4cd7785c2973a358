-- ===== src/Sql/Memory.antt =====
-- An engine that keeps its tables in memory and never fails but on a broken constraint. It shows
-- that the laws of `Engine` can be met, and runs the tests.
use mathlib.Core.List.Perm
use mathlib.Core.List.{Perm}
use otelstore.Base.{
  ℕ, ◌+◌, ◌≤◌, ◌≡◌, refl, Bool, false, not, List, [], ◌∷◌, ◌++◌, min, length, drop, keep, All,
  All-mono, leb, leb→le, Outcome, ok, err, arith, if◌then◌else◌, Bool-cases, inl, inr,
}
use otelstore.Sql.Rows.{Table, Row, Tables, rows_of, with_rows, conflicts}
use otelstore.Sql.{
  fetched, Select, IsSorted, limit_rows, IsAnswer, Engine, IsLawful, IsReading, IsWriting,
}

module _ {R : Type 0} (key : R → ℕ) where
  insert_sorted : R → List R → List R
  insert_sorted r [] = r ∷ []
  insert_sorted r (s ∷ rs) =
      let rest = insert_sorted r rs in if leb (key r) (key s) then r ∷ s ∷ rs else s ∷ rest

  unfoldable pub sort : List R → List R
  unfolding insert_sorted
  sort [] = []
  sort (r ∷ rs) = insert_sorted r (sort rs)

  insert_sorted-perm : (r : R) (rs : List R) → Perm (insert_sorted r rs) (r ∷ rs)
  unfolding insert_sorted
  insert_sorted-perm r [] = Perm.refl _
  insert_sorted-perm r (s ∷ rs) = elim (Bool-cases (leb (key r) (key s))) [
    | inl below ↦ rw below (Perm.refl _)
    | inr above ↦ rw above (Perm.trans (Perm.cons s (insert_sorted-perm r rs)) (Perm.swap r s rs))
  ]

  sort-perm : (rs : List R) → Perm (sort rs) rs
  unfolding sort
  sort-perm [] = Perm.refl _
  sort-perm (r ∷ rs) = Perm.trans (insert_sorted-perm r (sort rs)) (Perm.cons r (sort-perm rs))

  All-insert_sorted :
      (n : ℕ) (r : R) (rs : List R)
      → n ≤ key r
      → All (λ s. n ≤ key s) rs
      → All (λ s. n ≤ key s) (insert_sorted r rs)
  unfolding insert_sorted
  All-insert_sorted n r [] h k = (h, tt)
  All-insert_sorted n r (s ∷ rs) h (k, ks) = ground (arith, All-insert_sorted n r rs h ks)

  insert_sorted-IsSorted :
      (r : R) (rs : List R) → IsSorted key rs → IsSorted key (insert_sorted r rs)
  unfolding insert_sorted
  insert_sorted-IsSorted r [] h = (tt, tt)
  insert_sorted-IsSorted r (s ∷ rs) (h, hs) = elim (Bool-cases (leb (key r) (key s))) [
    | inl below ↦
        let le : key r ≤ key s = leb→le _ _ below in
        rw below ((le, All-mono _ _ rs (λ t ht. omega arith) h), (h, hs))
    | inr above ↦
        rw above (All-insert_sorted (key s) r rs (ground arith) h, insert_sorted-IsSorted r rs hs)
  ]

  sort-IsSorted : (rs : List R) → IsSorted key (sort rs)
  unfolding sort
  sort-IsSorted [] = tt
  sort-IsSorted (r ∷ rs) = insert_sorted-IsSorted r (sort rs) (sort-IsSorted rs)

pub record Open : Type 0 where
  pub started : Tables
  pub seen : Tables

abbrev pub insert_row : (t : Table) → Row t → Open → Outcome (Unit {0}) × Open
insert_row t r x =
    if conflicts t r (rows_of x.seen t)
    then (err "UNIQUE constraint failed", x)
    else (ok tt, record x { seen = with_rows x.seen t (rows_of x.seen t ++ r ∷ []) })

abbrev pub row_count : Tables → ℕ
row_count d = length d.span_rows + length d.log_rows + length d.metric_rows

-- one row to a page
abbrev pub memory : Engine
memory = record {
  Db = Tables;
  Tx = Open;
  tables = λ d. d;
  pending = λ x. x.seen;
  base = λ x. x.started;
  ping = λ d. ok tt;
  create = λ t d. (ok tt, d);
  begin = λ d. ok (record { started = d; seen = d });
  prepare = λ t x. ok tt;
  insert = insert_row;
  commit = λ x. (ok tt, x.seen);
  rollback = λ x. x.started;
  select =
      λ t q d. ok (fetched (limit_rows q.limit (sort q.order_by (keep q.condition (rows_of d t)))));
  delete = λ t p d. (
    ok (ok (length (keep p (rows_of d t)))),
    with_rows d t (keep (λ r. not (p r)) (rows_of d t)),
  );
  evict = λ t key k d.
      (ok (ok (min k (length (rows_of d t)))), with_rows d t (drop k (sort key (rows_of d t))));
  page_count = λ d. ok (row_count d);
  page_size = λ d. ok 4096;
  checkpoint = λ d. d;
}

abbrev pub no_rows : Tables
no_rows = record { span_rows = []; log_rows = []; metric_rows = [] }

begin_seen : (d : Tables) (x : Open) → memory.begin d ≡ ok x → x.seen ≡ d
begin_seen d x h = cc

begin_started : (d : Tables) (x : Open) → memory.begin d ≡ ok x → x.started ≡ d
begin_started d x h = cc

module _ (t : Table) (r : Row t) (x : Open) where
  insert_row-fresh : (insert_row t r x).0 ≡ ok tt → conflicts t r (rows_of x.seen t) ≡ false
  insert_row-fresh h = elim (Bool-cases (conflicts t r (rows_of x.seen t))) [
    | inl clash ↦ absurd (ground arith)
    | inr fresh ↦ fresh
  ]

  insert_row-rows :
      (insert_row t r x).0 ≡ ok tt
      → (insert_row t r x).1.seen ≡ with_rows x.seen t (rows_of x.seen t ++ r ∷ [])
  insert_row-rows h = rw (insert_row-fresh h, insert_row)

  insert_row-started : (insert_row t r x).1.started ≡ x.started
  insert_row-started = elim (Bool-cases (conflicts t r (rows_of x.seen t))) [
    | inl clash ↦ rw (clash, insert_row)
    | inr fresh ↦ rw (fresh, insert_row)
  ]

select-IsAnswer :
    (t : Table) (q : Select (Row t)) (d : Tables) (rows : List (Row t))
    → memory.select t q d ≡ ok (fetched rows)
    → IsAnswer q (rows_of d t) rows
select-IsAnswer t q d rows h = record {
  ordering = sort q.order_by (keep q.condition (rows_of d t));
  same = sort-perm q.order_by _;
  sorted = sort-IsSorted q.order_by _;
  cut = cc;
}

delete_counted :
    (t : Table) (p : Row t → Bool) (d : Tables) (n : ℕ)
    → (memory.delete t p d).0 ≡ ok (ok n)
    → n ≡ length (keep p (rows_of d t))
delete_counted t p d n h = cc

evict_counted :
    (t : Table) (key : Row t → ℕ) (k : ℕ) (d : Tables) (n : ℕ)
    → (memory.evict t key k d).0 ≡ ok (ok n)
    → n ≡ min k (length (rows_of d t))
evict_counted t key k d n h = cc

pub memory-IsLawful : IsLawful memory
memory-IsLawful = record {
  create_keeps = λ t d. refl;
  begin_sees = λ d x h. begin_seen d x h;
  begin_base = λ d x h. begin_started d x h;
  insert_fresh = λ t r x h. insert_row-fresh t r x h;
  insert_rows = λ t r x h. insert_row-rows t r x h;
  insert_base = λ t r x. insert_row-started t r x;
  commit_ok = λ x h. refl;
  commit_err = λ x e h. cc;
  rollback_base = λ x. refl;
  select_ok = λ t q d rows h. select-IsAnswer t q d rows h;
  delete_err = λ t p d e h. cc;
  delete_ok = λ t p d n h. refl;
  delete_count = λ t p d n h. delete_counted t p d n h;
  evict_err = λ t key k d e h. cc;
  evict_ok = λ t key k d n h. (
    drop k (sort key (rows_of d t)),
    refl,
    record {
      ordering = sort key (rows_of d t);
      same = sort-perm key (rows_of d t);
      sorted = sort-IsSorted key (rows_of d t);
      kept = Perm.refl _;
    },
  );
  evict_count = λ t key k d n h. evict_counted t key k d n h;
  checkpoint_keeps = λ d. refl;
}

insert_row_succeeds :
    (t : Table) (r : Row t) (x : Open)
    → conflicts t r (rows_of x.seen t) ≡ false
    → (insert_row t r x).0 ≡ ok tt
insert_row_succeeds t r x fresh = rw (fresh, insert_row) refl

pub memory-IsReading : IsReading memory
memory-IsReading = record {
  selects = λ t q d. (limit_rows q.limit (sort q.order_by (keep q.condition (rows_of d t))), refl);
}

pub memory-IsWriting : IsWriting memory
memory-IsWriting = record {
  begins = λ d. (record { started = d; seen = d }, refl);
  prepares = λ t x. refl;
  inserts = λ t r x short h. insert_row_succeeds t r x h;
  commits = λ x. refl;
}
