-- ===== src/Sql.antt =====
-- The SQLite database that internal/store/store.go opens: the tables of `InitSchema`, the statements
-- that the store sends, and what it relies on of the engine. The engine (modernc.org/sqlite behind
-- database/sql) is not part of the repository: it is the parameter `Engine`, and `IsLawful` states
-- what SQLite documents of the statements that it ran. It may refuse any of them.
pub mod Rows
pub mod Memory
use mathlib.Core.List.{Perm}
use otelstore.Base.{
  ℕ, ◌+◌, ◌≤◌, ◌≡◌, Bool, false, not, List, [], ◌∷◌, ◌++◌, min, length, take, drop, keep, All,
  Outcome, ok, err, Error,
}
use otelstore.Base.Int.{ℤ, pos, negsuc}
use otelstore.Sql.Rows.{Table, Row, Tables, rows_of, with_rows, conflicts, AreTimesShort, time_of}

-- SELECT * FROM t WHERE condition ORDER BY order_by LIMIT limit
pub record Select (R : Type 0) : Type 0 where
  pub condition : R → Bool
  pub order_by : R → ℕ
  pub limit : ℤ

abbrev pub IsSorted : {R : Type 0} → (R → ℕ) → List R → Type 0
IsSorted key [] = Unit
IsSorted key (r ∷ rs) = All (λ s. key r ≤ key s) rs × IsSorted key rs

-- a negative LIMIT is no limit
abbrev pub limit_rows : {R : Type 0} → ℤ → List R → List R
limit_rows (pos n) rows = take n rows
limit_rows (negsuc n) rows = rows

-- What a query may return: the rows that meet the condition, in some order that ascends by the key,
-- as far as the limit goes. SQL leaves the order of rows with equal keys open.
pub record IsAnswer {R : Type 0} (q : Select R) (rows result : List R) : Type 0 where
  pub ordering : List R
  pub same : Perm ordering (keep q.condition rows)
  pub sorted : IsSorted q.order_by ordering
  pub cut : result ≡ limit_rows q.limit ordering

-- What is left after DELETE … WHERE rowid IN (SELECT rowid … ORDER BY key LIMIT n).
pub record IsEvicted {R : Type 0} (key : R → ℕ) (n : ℕ) (rows left : List R) : Type 0 where
  pub ordering : List R
  pub same : Perm ordering rows
  pub sorted : IsSorted key ordering
  pub kept : Perm left (drop n ordering)

-- What reading the rows of a query gave: the rows, or the error of `rows.Columns`, `rows.Scan` or
-- `rows.Err`.
pub data Fetched (R : Type 0) : Type 0 where
  fetched : List R → Fetched R
  columns_error : Error → Fetched R
  scan_error : Error → Fetched R
  rows_error : Error → Fetched R

-- The outer result is the statement's, the inner one that of `RowsAffected`.
abbrev pub Affected : Type 0
Affected = Outcome (Outcome ℕ)

pub record Engine : Type 1 where
  pub Db : Type 0
  pub Tx : Type 0
  -- what is committed; what a transaction sees; what was committed when it began
  pub tables : Db → Tables
  pub pending : Tx → Tables
  pub base : Tx → Tables
  pub ping : Db → Outcome (Unit {0})
  pub create : Table → Db → Outcome (Unit {0}) × Db
  pub begin : Db → Outcome Tx
  pub prepare : Table → Tx → Outcome (Unit {0})
  pub insert : (t : Table) → Row t → Tx → Outcome (Unit {0}) × Tx
  pub commit : Tx → Outcome (Unit {0}) × Db
  pub rollback : Tx → Db
  pub select : (t : Table) → Select (Row t) → Db → Outcome (Fetched (Row t))
  pub delete : (t : Table) → (Row t → Bool) → Db → Affected × Db
  pub evict : (t : Table) → (Row t → ℕ) → ℕ → Db → Affected × Db
  pub page_count : Db → Outcome ℕ
  pub page_size : Db → Outcome ℕ
  pub checkpoint : Db → Db

pub record IsLawful (E : Engine) : Type 0 where
  -- CREATE TABLE IF NOT EXISTS leaves the rows of a table that is there, and makes one without rows
  pub create_keeps : (t : Table) (d : E.Db) → E.tables (E.create t d).1 ≡ E.tables d
  pub begin_sees : (d : E.Db) (x : E.Tx) → E.begin d ≡ ok x → E.pending x ≡ E.tables d
  pub begin_base : (d : E.Db) (x : E.Tx) → E.begin d ≡ ok x → E.base x ≡ E.tables d
  -- a row that was inserted broke no constraint, and stands behind the others
  pub insert_fresh :
      (t : Table) (r : Row t) (x : E.Tx)
      → (E.insert t r x).0 ≡ ok tt
      → conflicts t r (rows_of (E.pending x) t) ≡ false
  pub insert_rows :
      (t : Table) (r : Row t) (x : E.Tx)
      → (E.insert t r x).0 ≡ ok tt
      → E.pending (E.insert t r x).1 ≡ with_rows (E.pending x) t (rows_of (E.pending x) t ++ r ∷ [])
  pub insert_base : (t : Table) (r : Row t) (x : E.Tx) → E.base (E.insert t r x).1 ≡ E.base x
  -- a transaction is committed whole or not at all
  pub commit_ok : (x : E.Tx) → (E.commit x).0 ≡ ok tt → E.tables (E.commit x).1 ≡ E.pending x
  pub commit_err :
      (x : E.Tx) (e : Error) → (E.commit x).0 ≡ err e → E.tables (E.commit x).1 ≡ E.base x
  pub rollback_base : (x : E.Tx) → E.tables (E.rollback x) ≡ E.base x
  pub select_ok :
      (t : Table) (q : Select (Row t)) (d : E.Db) (rows : List (Row t))
      → E.select t q d ≡ ok (fetched rows)
      → IsAnswer q (rows_of (E.tables d) t) rows
  -- a statement that fails changes nothing
  pub delete_err :
      (t : Table) (p : Row t → Bool) (d : E.Db) (e : Error)
      → (E.delete t p d).0 ≡ err e
      → E.tables (E.delete t p d).1 ≡ E.tables d
  pub delete_ok :
      (t : Table) (p : Row t → Bool) (d : E.Db) (n : Outcome ℕ)
      → (E.delete t p d).0 ≡ ok n
      → E.tables (E.delete t p d).1
        ≡ with_rows (E.tables d) t (keep (λ r. not (p r)) (rows_of (E.tables d) t))
  pub delete_count :
      (t : Table) (p : Row t → Bool) (d : E.Db) (n : ℕ)
      → (E.delete t p d).0 ≡ ok (ok n)
      → n ≡ length (keep p (rows_of (E.tables d) t))
  pub evict_err :
      (t : Table) (key : Row t → ℕ) (k : ℕ) (d : E.Db) (e : Error)
      → (E.evict t key k d).0 ≡ err e
      → E.tables (E.evict t key k d).1 ≡ E.tables d
  -- only the table that the statement names changes, and it loses the rows with the smallest keys
  pub evict_ok :
      (t : Table) (key : Row t → ℕ) (k : ℕ) (d : E.Db) (n : Outcome ℕ)
      → (E.evict t key k d).0 ≡ ok n
      → (left : List (Row t)) × (E.tables (E.evict t key k d).1 ≡ with_rows (E.tables d) t left)
        × IsEvicted key k (rows_of (E.tables d) t) left
  pub evict_count :
      (t : Table) (key : Row t → ℕ) (k : ℕ) (d : E.Db) (n : ℕ)
      → (E.evict t key k d).0 ≡ ok (ok n)
      → n ≡ min k (length (rows_of (E.tables d) t))
  pub checkpoint_keeps : (d : E.Db) → E.tables (E.checkpoint d) ≡ E.tables d

-- An engine that runs every query.
pub record IsReading (E : Engine) : Type 0 where
  pub selects :
      (t : Table) (q : Select (Row t)) (d : E.Db)
      → (rows : List (Row t)) × (E.select t q d ≡ ok (fetched rows))

-- An engine that runs every write but the insert of a row that breaks a constraint, or that has a
-- time of 2 ^ 63 or more: database/sql refuses a uint64 with the highest bit set.
pub record IsWriting (E : Engine) : Type 0 where
  pub begins : (d : E.Db) → (x : E.Tx) × (E.begin d ≡ ok x)
  pub prepares : (t : Table) (x : E.Tx) → E.prepare t x ≡ ok tt
  pub inserts :
      (t : Table) (r : Row t) (x : E.Tx)
      → AreTimesShort t r
      → conflicts t r (rows_of (E.pending x) t) ≡ false
      → (E.insert t r x).0 ≡ ok tt
  pub commits : (x : E.Tx) → (E.commit x).0 ≡ ok tt
