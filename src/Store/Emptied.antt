-- ===== src/Store/Emptied.antt =====
-- EnforceMaxSize of internal/store/store.go on an engine that keeps the pages of deleted rows.
use otelstore.Base.{ℕ, suc, ◌<◌, ◌≡◌, refl, sym, ◌∙◌, none, some, ok, arith, ok-injective, inl, inr}
use otelstore.Base.Int.{pos}
use otelstore.Sql.{Engine, IsLawful}
use otelstore.Sql.Rows.{Table, Row}
use otelstore.Store.Eviction.{size, Reports}
use otelstore.Store.MaxSize.{enforce_max_size-IsEnforced}
use otelstore.Store.Removing.{enforce_max_size_keeps}
use otelstore.Store.Retention.{Deleted, db_size, evict_from, enforce_max_size}

-- What SQLite documents of a database whose auto_vacuum is NONE, which is its default and which Open
-- leaves: the pages of deleted rows stay in the database, and are counted; nor does a checkpoint
-- change their number.
pub record KeepsPages (E : Engine) : Type 0 where
  pub evict_pages :
      (t : Table) (key : Row t → ℕ) (k : ℕ) (d : E.Db)
      → E.page_count (E.evict t key k d).1 ≡ E.page_count d
  pub evict_page_size :
      (t : Table) (key : Row t → ℕ) (k : ℕ) (d : E.Db)
      → E.page_size (E.evict t key k d).1 ≡ E.page_size d
  pub checkpoint_pages : (d : E.Db) → E.page_count (E.checkpoint d) ≡ E.page_count d
  pub checkpoint_page_size : (d : E.Db) → E.page_size (E.checkpoint d) ≡ E.page_size d

module _ (E : Engine) (keeps : KeepsPages E) where
  evict_from-db_size : (t : Table) (d : E.Db) → db_size E (evict_from E t d).1 ≡ db_size E d
  unfolding db_size evict_from
  evict_from-db_size t d = rw (keeps.evict_pages, keeps.evict_page_size) refl

  checkpoint-db_size : (d : E.Db) → db_size E (E.checkpoint d) ≡ db_size E d
  unfolding db_size
  checkpoint-db_size d = rw (keeps.checkpoint_pages, keeps.checkpoint_page_size) refl

  -- On a lawful engine that keeps the pages of deleted rows: Where the database is larger than the
  -- limit, EnforceMaxSize returns; and if it returns no error, and RowsAffected does not fail, all
  -- rows of all tables are gone, and the database is as large as before.
  pub enforce_max_size_empties :
      (law : IsLawful E) (max_bytes bytes : ℕ) (d : E.Db)
      → db_size E d ≡ ok bytes
      → suc max_bytes < bytes
      → (r : Deleted × E.Db) × (enforce_max_size E (pos (suc max_bytes)) d ≡ some r)
        × (r.0.1 ≡ none → Reports E → (size E r.1 ≡ 0) × (db_size E r.1 ≡ ok bytes))
  enforce_max_size_empties law max_bytes bytes d measured large =
      let (r, returns, is) = enforce_max_size-IsEnforced E law max_bytes d in
      let left =
        enforce_max_size_keeps E (λ x. db_size E x ≡ ok bytes) (λ t x k. evict_from-db_size t x ∙ k)
          (λ x k. checkpoint-db_size x ∙ k) (pos (suc max_bytes)) d measured in
      let kept : db_size E r.1 ≡ ok bytes = rw returns at left in
      (
        r,
        returns,
        λ good reports. elim (is.enforced good reports) [
          | inl (fewer, now, small) ↦
              let same : fewer ≡ bytes = ok-injective _ _ (sym now ∙ kept) in absurd (omega arith)
          | inr empty ↦ (empty, kept)
        ],
      )
