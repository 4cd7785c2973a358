-- ===== src/Tests/Emitting.antt =====
-- A span of a helper, and the opening of a database.
use otelstore.Base.{
  String, ◌≡◌, refl, none, some, false, true, [], ◌∷◌, ok, err, Error, ◌==◌, if◌then◌else◌,
}
use mathlib.Core.List.{Mem, mem-cons_self, mem-cons_of_mem}
use otelstore.Value.{Fields, object, string, lookup}
use otelstore.Sql.Memory.{memory, memory-IsLawful}
use otelstore.Sql.Rows.{SpanRow, document}
use otelstore.Store.Records.{Span}
use otelstore.Store.Inserts.{insert_spans}
use otelstore.Store.Opening.{memory_path, validate_db_path, Driver, pragmas, open_store}
use otelstore.Store.Closing.{opens, executed, IsPlain, open_store_lem}
use otelstore.Emit.{
  exported, with_provider_name, with_request_model, apply_options, start_model_span,
}
use otelstore.Emit.Contract.{
  Start, model, started, IsDecorated, with_provider_name-IsDecoration,
  with_request_model-IsDecoration, insert_spans-started,
}
use otelstore.Tests.Storing.{storing}
use otelstore.Tests.Fixtures.{ascii_lower, host, login_span, fresh_store}

abbrev call : Start
call = model "r1" "j1" (with_provider_name "p" ∷ with_request_model "m" ∷ [])

call-IsDecorated : IsDecorated call
call-IsDecorated = (with_provider_name-IsDecoration "p", (with_request_model-IsDecoration "m", tt))

abbrev call_span : Span
call_span = record login_span {
  span_id = 0x09 ∷ [];
  name = (started call).name;
  attributes = exported (started call).attributes;
}

call_stored :
    (insert_spans memory ascii_lower fresh_store (login_span ∷ call_span ∷ []) host none).0 ≡ ok tt
unfolding storing start_model_span apply_options with_provider_name with_request_model
call_stored = refl

insert_spans-started_example :
    (row : SpanRow) × Mem row
      (memory.tables
        (insert_spans memory ascii_lower fresh_store
          (login_span ∷ call_span ∷ [])
          host
          none).1.db).span_rows
    × (row.name ≡ (started call).name)
    × (row.run_id ≡ "r1")
    × ((job_id : String) → some "j1" ≡ some job_id → row.job_id ≡ job_id)
    × ((attrs : Fields) × (row.attributes ≡ document (object attrs))
        × (lookup "gen_ai.operation.name" attrs ≡ some (string (started call).name)))
insert_spans-started_example =
    insert_spans-started memory memory-IsLawful ascii_lower fresh_store host none
      (login_span ∷ call_span ∷ []) call call_span call-IsDecorated
      (record { name = refl; same = λ key. refl }) refl call_stored
      (mem-cons_of_mem _ mem-cons_self)

-- the last pragma fails
abbrev driver : Driver
driver = record {
  open_error = λ path. none;
  ping_error = none;
  exec_error = λ p. if p == "PRAGMA busy_timeout=5000" then some "locked" else none;
  quote = λ s. s;
}

open_store_lem_example :
    ((open_store driver ascii_lower (λ p. p) "t.db").1 ≡ ok tt
      → IsPlain ascii_lower "t.db"
        × (opens (open_store driver ascii_lower (λ p. p) "t.db").0 false ≡ true)
        × ((path : String) × (validate_db_path ascii_lower (λ p. p) "t.db" ≡ ok path)
            × (executed (open_store driver ascii_lower (λ p. p) "t.db").0
                ≡ (if path == memory_path then [] else pragmas))))
    × ((e : Error)
        → (open_store driver ascii_lower (λ p. p) "t.db").1 ≡ err e
        → opens (open_store driver ascii_lower (λ p. p) "t.db").0 false ≡ false)
open_store_lem_example = open_store_lem driver ascii_lower (λ p. p) "t.db"
