-- ===== src/Server/Start.antt =====
-- main of cmd/otelstore/main.go up to the moment at which it waits for a signal: what it logs, with
-- which error it ends, and what it serves. The flags have been parsed.
use otelstore.Base.{
  ℕ, ◌*◌, Char, String, Option, none, some, List, [], ◌∷◌, ◌++◌, length, Outcome, ok, err, Error,
  wrap, or_wrap, concat, ◌==◌, if◌then◌else◌,
}
use otelstore.Redact.{Redactor, rules}
use otelstore.Http.{Request, Response, Reply, Handler}
use otelstore.Sql.{Engine}
use otelstore.Store.Inserts.{Store, set_redactor}
use otelstore.Store.Opening.{Driver, open_store}
use otelstore.Store.Schema.{init_schema}
use otelstore.Receiver.{Externals, OtlpDecoders, serve_http}
use otelstore.Query.{serve}
use otelstore.Mcp.{Tool, streamable_http_handler}
use otelstore.Grpc.{Unary, Export, grpc_server}
use otelstore.Base.Int.{ℤ}
use otelstore.Server.Config.{
  Flags, Environment, resolve_token, configured_redactor, is_non_loopback, with_auth,
}
use otelstore.Server.Sweep.{sweeps, sweep_interval}

-- What main takes from other packages, over an engine: the version of the build, the environment,
-- the driver with the database that it opens at a path, whether net.Listen fails at an address, and
-- what the handlers take.
pub record World (E : Engine) : Type 0 where
  pub version : String
  pub env : Environment
  pub driver : Driver
  pub opened : String → E.Db
  pub listen_error : String → Option Error
  pub lower : Char → Char
  pub decimal : ℕ → String
  pub quote : String → String
  pub externals : Externals
  pub decoders : OtlpDecoders
  pub redirect : String → Option Response
  pub sdk : List Tool → Request → Reply

-- A part of main: the lines that it logs, and its result, or the text with which log.Fatalf ends
-- the process.
pub data Start (A : Type 0) : Type 0 where
  goes : List String → A → Start A
  ends : List String → Error → Start A

abbrev pub after_lines : {A : Type 0} → List String → Start A → Start A
after_lines lines (goes more a) = goes (lines ++ more) a
after_lines lines (ends more e) = ends (lines ++ more) e

infixl 5 ◌>>=◌ ◌>>◌
abbrev pub ◌>>=◌ : {A B : Type 0} → Start A → (A → Start B) → Start B
goes lines a >>= f = after_lines lines (f a)
ends lines e >>= f = ends lines e

abbrev pub ◌>>◌ : {B : Type 0} → Start (Unit {0}) → Start B → Start B
m >> k = m >>= λ _. k

abbrev pub log_lines : List String → Start (Unit {0})
log_lines lines = goes lines tt

abbrev pub or_fatal : {A : Type 0} → Outcome A → Start A
or_fatal (ok a) = goes [] a
or_fatal (err e) = ends [] e

-- an http.Server, its durations in nanoseconds
pub record HttpServer (S : Type 0) : Type 0 where
  pub addr : String
  pub handler : Handler S
  pub read_header_timeout : ℕ
  pub read_timeout : ℕ
  pub write_timeout : ℕ
  pub idle_timeout : ℕ

abbrev pub second : ℕ
second = 1000000000

abbrev pub http_server : {S : Type 0} → String → Handler S → HttpServer S
http_server addr handler = record {
  addr = addr;
  handler = handler;
  read_header_timeout = 5 * second;
  read_timeout = 30 * second;
  write_timeout = 30 * second;
  idle_timeout = 60 * second;
}

-- what the goroutine of the sweeper works with
pub record Sweeper : Type 0 where
  pub interval : ℕ
  pub retention : ℤ
  pub max_size : ℤ

-- Everything that runs when main waits for a signal. The goroutines of the servers log the lines
-- of `banners`, in any order.
pub record Running (E : Engine) : Type 0 where
  pub store : Store E
  pub grpc : Export → Unary (Store E)
  pub ingest : HttpServer (Store E)
  pub query : HttpServer (Store E)
  pub mcp : HttpServer (Store E)
  pub sweeper : Option Sweeper
  pub banners : List String

-- the process prints its version and ends well, or it starts
pub data Main (E : Engine) : Type 0 where
  version_printed : String → Main E
  started : Start (Running E) → Main E

module _ (quote : String → String) (env : Environment) where
  -- The loop over the addresses; the first that is exposed is named, and ends it.
  unfoldable pub warn_exposed : List String → List String
  warn_exposed [] = []
  warn_exposed (addr ∷ addrs) =
      let rest = warn_exposed addrs in
      if is_non_loopback env addr
      then concat "WARNING: listening on non-loopback " (
          concat (quote addr) (
            concat " with no auth token; all telemetry is unauthenticated. "
              "Set -auth-token (and front with a TLS proxy)."))
        ∷ []
      else rest

  unfoldable pub warning : Flags → String → List String
  unfolding warn_exposed
  warning flags auth_token =
      if auth_token == ""
      then warn_exposed
          (flags.grpc_port ∷ flags.ingest_port ∷ flags.query_port ∷ flags.mcp_addr ∷ [])
      else []

abbrev pub join_rules : List String → String
join_rules [] = ""
join_rules (r ∷ []) = r
join_rules (r ∷ q ∷ rs) = concat r (concat ", " (join_rules (q ∷ rs)))

-- the line that names the rules of a redactor
abbrev pub redaction_lines : (ℕ → String) → Option Redactor → List String
redaction_lines decimal none = []
redaction_lines decimal (some redactor) =
    concat "Attribute redaction enabled for " (
      concat (decimal (length (rules (some redactor))))
        (concat " key rule(s): " (join_rules (rules (some redactor)))))
    ∷ []

unfoldable pub start_sweeper : Flags → Option Sweeper
start_sweeper flags =
    if sweeps flags.retention flags.max_size
    then some (record {
      interval = sweep_interval flags.retention;
      retention = flags.retention;
      max_size = flags.max_size;
    })
    else none

abbrev pub banner : String → String → String → String
banner auth_token what addr =
    concat what (concat addr (if auth_token == "" then " (auth disabled)" else " (auth enabled)"))

module _ (E : Engine) (W : World E) (flags : Flags) where
  -- the three handlers
  abbrev pub ingest_handler : Handler (Store E)
  ingest_handler = serve_http W.externals W.decoders E W.lower

  abbrev pub query_handler : Handler (Store E)
  query_handler r s = (record { lines = []; response = serve E s W.redirect r }, s)

  abbrev pub mcp_handler : Handler (Store E)
  mcp_handler r s = (streamable_http_handler E s W.sdk r, s)

  -- what main has made when it starts to listen
  unfoldable pub running : String → Store E → Running E
  running auth_token s = record {
    store = s;
    grpc = grpc_server E W.lower auth_token;
    ingest = http_server flags.ingest_port (with_auth auth_token ingest_handler);
    query = http_server flags.query_port (with_auth auth_token query_handler);
    mcp = http_server flags.mcp_addr (with_auth auth_token mcp_handler);
    sweeper = start_sweeper flags;
    banners =
        banner auth_token "Starting gRPC OTLP receiver on " flags.grpc_port
        ∷ banner auth_token "Starting HTTP OTLP ingest on " flags.ingest_port
        ∷ banner auth_token "Starting query API on " flags.query_port
        ∷ banner auth_token "Starting MCP query server on " flags.mcp_addr
        ∷ [];
  }

  -- store.Open, then InitSchema
  unfoldable pub open_database : Start E.Db
  open_database = do
    let (_, opening) = open_store W.driver W.lower W.env.clean flags.db_path
    _ ← or_fatal (or_wrap "failed to open store: " opening)
    let (created, d) = init_schema E (W.opened flags.db_path)
    _ ← or_fatal (or_wrap "failed to init schema: " created)
    goes [] d

  unfoldable pub start : Start (Running E)
  unfolding open_database running
  start = do
    log_lines (concat "otelstore " W.version ∷ [])
    auth_token ← or_fatal (resolve_token W.env flags)
    log_lines (warning W.quote W.env flags auth_token)
    d ← open_database
    let redactor = configured_redactor W.env flags W.lower
    log_lines (redaction_lines W.decimal redactor)
    let s = set_redactor E redactor (record { db = d; redactor = none })
    _ ← or_fatal (elim (W.listen_error flags.grpc_port) [
      | none ↦ ok tt
      | some e ↦ err (wrap "failed to listen on gRPC port: " e)
    ])
    goes [] (running auth_token s)

  unfoldable pub main : Main E
  main =
      if flags.show_version then version_printed (concat "otelstore " W.version) else started start
