-- ===== src/Tests/Emptied.antt =====
-- A size limit on an engine whose file does not shrink.
use otelstore.Base.{ok, refl, none, some, ◌≡◌, arith}
use otelstore.Base.Int.{pos}
use otelstore.Sql.{Engine, IsLawful}
use otelstore.Sql.Memory.{memory, memory-IsLawful}
use otelstore.Store.Eviction.{size, Reports}
use otelstore.Store.Retention.{Deleted, db_size, enforce_max_size}
use otelstore.Store.Emptied.{KeepsPages, enforce_max_size_empties}
use otelstore.Tests.Fixtures.{filled_tables}

-- the engine in memory, with a file of ten pages
abbrev ten_pages : Engine
ten_pages = record memory { page_count = λ d. ok 10 }

ten_pages-IsLawful : IsLawful ten_pages
ten_pages-IsLawful = record {
  create_keeps = memory-IsLawful.create_keeps;
  begin_sees = memory-IsLawful.begin_sees;
  begin_base = memory-IsLawful.begin_base;
  insert_fresh = memory-IsLawful.insert_fresh;
  insert_rows = memory-IsLawful.insert_rows;
  insert_base = memory-IsLawful.insert_base;
  commit_ok = memory-IsLawful.commit_ok;
  commit_err = memory-IsLawful.commit_err;
  rollback_base = memory-IsLawful.rollback_base;
  select_ok = memory-IsLawful.select_ok;
  delete_err = memory-IsLawful.delete_err;
  delete_ok = memory-IsLawful.delete_ok;
  delete_count = memory-IsLawful.delete_count;
  evict_err = memory-IsLawful.evict_err;
  evict_ok = memory-IsLawful.evict_ok;
  evict_count = memory-IsLawful.evict_count;
  checkpoint_keeps = memory-IsLawful.checkpoint_keeps;
}

ten_pages-KeepsPages : KeepsPages ten_pages
ten_pages-KeepsPages = record {
  evict_pages = λ t key k d. refl;
  evict_page_size = λ t key k d. refl;
  checkpoint_pages = λ d. refl;
  checkpoint_page_size = λ d. refl;
}

forty_thousand : db_size ten_pages filled_tables ≡ ok 40960
unfolding db_size
forty_thousand = refl

enforce_max_size_empties_example :
    (r : Deleted × ten_pages.Db) × (enforce_max_size ten_pages (pos 40000) filled_tables ≡ some r)
    × (r.0.1 ≡ none
        → Reports ten_pages
        → (size ten_pages r.1 ≡ 0) × (db_size ten_pages r.1 ≡ ok 40960))
enforce_max_size_empties_example =
    enforce_max_size_empties ten_pages ten_pages-KeepsPages ten_pages-IsLawful 39999 40960
      filled_tables forty_thousand (omega arith)
