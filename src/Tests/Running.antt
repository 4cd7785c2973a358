-- ===== src/Tests/Running.antt =====
-- A server that main has started, and what reaches it.
use mathlib.Core.List.{append-nil, not-mem-nil}
use otelstore.Base.{
  if◌then◌else◌, ◌==◌, String, ◌≡◌, refl, ◌↔◌, ◌⊎◌, ◌≤◌, length, Any, none, some, List, [], ◌∷◌,
  string_discrete,
}
use otelstore.Base.Int.{pos}
use otelstore.Http.{Request, no_body}
use otelstore.Sql.Memory.{memory, memory-IsLawful, no_rows}
use otelstore.Sql.Rows.{Table, Row, spans, logs, metrics}
use otelstore.Store.Privacy.{IsRedactedRow}
use otelstore.Store.Inserts.{Store, set_redactor}
use otelstore.Store.Opening.{validate_db_path, configure, set_pragmas, open_store}
use otelstore.Store.Schema.{create_table, init_schema}
use otelstore.Store.Keeping.{Extends}
use otelstore.Store.Invariant.{Everywhere, IsKept}
use otelstore.Server.Config.{Flags, default_flags, token_given, resolve_token, configured_redactor}
use otelstore.Server.Start.{World, goes, Running, warning, running, open_database, start}
use otelstore.Server.Started.{all_lines, configured, IsStart, start_lem}
use otelstore.Server.Exposed.{IsExposed, warning_iff}
use otelstore.Server.System.{Event, ingests, queries, ticks, Answer, handle, handle_all}
use otelstore.Server.Denied.{IsDenial, handle-IsDenial}
use otelstore.Server.Safety.{start-IsKept, start-Extends}
use otelstore.Tests.Fixtures.{ascii_lower, redacting_store}
use otelstore.Tests.Guarding.{env, request_with, not-IsAdmitted, wrong_header}
use otelstore.Tests.Receiving.{codec, decoders, post_traces}

abbrev pub flags : Flags
flags = record default_flags {
  auth_token = "abc";
  redact_attrs = "authorization";
  ingest_port = ":4318";
  retention = pos 50;
}

abbrev pub world : World memory
world = record {
  version = "dev";
  env = env;
  driver = record {
    open_error = λ path. none;
    ping_error = none;
    exec_error = λ p. none;
    quote = λ s. s;
  };
  opened = λ path. no_rows;
  listen_error = λ addr. none;
  lower = ascii_lower;
  decimal = λ n. "42";
  quote = λ s. s;
  externals = codec;
  decoders = decoders;
  redirect = λ path. none;
  sdk = λ tools r. record {
    lines = [];
    response = record { status = 200; content_type = ""; body = no_body };
  };
}

abbrev pub server : Running memory
server = running memory world flags "abc" (configured memory world flags no_rows)

starts : start memory world flags ≡ goes (all_lines memory world flags "abc") server
unfolding start open_database open_store validate_db_path configure set_pragmas init_schema
    create_table resolve_token token_given set_redactor string_discrete
starts = rw append-nil refl

start_lem_example : IsStart memory world flags (start memory world flags)
start_lem_example = start_lem memory world flags

none_stored : (P : (t : Table) → Row t → Type 0) → Everywhere P no_rows
none_stored P spans row m = absurd (not-mem-nil m)
none_stored P logs row m = absurd (not-mem-nil m)
none_stored P metrics row m = absurd (not-mem-nil m)

-- a value for the header of the token, and another for the rest
unfoldable pub header_of : String → String → String → String
header_of auth other name = if name == "Authorization" then auth else other

abbrev pub posted : Request
posted = record post_traces { header = header_of "Bearer abc" "application/json" }

-- spans arrive, someone asks without the token, and the sweeper ticks
abbrev day : List Event
day = ingests posted ∷ queries (request_with "Bearer abd") ∷ ticks 200 ∷ []

start-IsKept_example :
    (answers : List Answer) × (u : Store memory) × (handle_all memory world.decimal server day
        server.store
      ≡ some (answers, u))
    × IsKept memory ascii_lower (configured_redactor env flags ascii_lower) u
start-IsKept_example =
    start-IsKept memory memory-IsLawful world flags (all_lines memory world flags "abc") server
      starts tt
      (none_stored (IsRedactedRow ascii_lower (configured_redactor env flags ascii_lower))) day

abbrev posting : List Event
posting = ingests posted ∷ []

start-Extends_example :
    (answers : List Answer) × (u : Store memory) × (handle_all memory world.decimal server posting
        redacting_store
      ≡ some (answers, u))
    × Extends no_rows u.db
start-Extends_example =
    start-Extends memory memory-IsLawful world flags (all_lines memory world flags "abc") server
      starts posting redacting_store (tt, tt)

handle-IsDenial_example :
    (a : Answer) × IsDenial a
    × ((s : Store memory)
        → handle memory world.decimal server (queries (request_with "Bearer abd")) s ≡ some (a, s))
handle-IsDenial_example =
    handle-IsDenial memory world flags "abc" (configured memory world flags no_rows)
      (queries (request_with "Bearer abd")) (not-IsAdmitted "Bearer abd" wrong_header)

warning_iff_example :
    ((warning world.quote env flags "" ≡ []) ↔ (
      (◌≡◌ {A = String} "" "" → ⊥)
      ⊎ (¬ Any
          (IsExposed env)
          (flags.grpc_port ∷ flags.ingest_port ∷ flags.query_port ∷ flags.mcp_addr ∷ []))))
    × (length (warning world.quote env flags "") ≤ 1)
warning_iff_example = warning_iff env world.quote flags ""
