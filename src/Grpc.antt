-- ===== src/Grpc.antt =====
-- internal/grpcreceiver/grpcreceiver.go
pub mod Access
use otelstore.Base.{
  ℕ, Bool, true, Char, String, Option, none, some, List, [], ◌∷◌, Outcome, ok, err, concat, ◌==◌,
  if◌then◌else◌,
}
use otelstore.Auth.{token_valid}
use otelstore.Sql.{Engine}
use otelstore.Store.Records.{Span, LogRecord, Metric}
use otelstore.Store.Inserts.{Store}
use otelstore.Ingest.{ResourceGroup, store_traces, store_logs, store_metrics}

-- What the handlers read of a call: the incoming metadata, if there is any, with the values of each
-- key; and the address of the peer, if it is known.
pub record Call : Type 0 where
  pub full_method : String
  pub metadata : Option (String → List String)
  pub peer_addr : Option String

pub data Code : Type 0 where
  unauthenticated internal : Code

-- the empty export response, or a status error
pub data Rpc : Type 0 where
  exported : Rpc
  failed : Code → String → Rpc

-- `checkAuth`: nil is `none`
unfoldable pub check_auth : Call → String → Option Rpc
check_auth call auth_token = if auth_token == "" then none else elim call.metadata [
  | none ↦ some (failed unauthenticated "missing metadata")
  | some get ↦ elim (get "authorization") [
    | [] ↦ some (failed unauthenticated "missing authorization header")
    | auth_header ∷ _ ↦
        if token_valid auth_header auth_token
        then none
        else some (failed unauthenticated "invalid token")
  ]
]

abbrev pub known_addr : Option String → String
known_addr none = "unknown"
known_addr (some addr) = addr

-- the line of `logAuthReject`
unfoldable pub reject_line : Call → String → String
reject_line call reason = concat "auth: rejected gRPC " (
    concat call.full_method
      (concat " from " (concat (known_addr call.peer_addr) (concat " (" (concat reason ")")))))

-- a unary handler over the state that it may change, with the lines that it logs
abbrev pub Unary : Type 0 → Type 0
Unary S = Call → S → Rpc × List String × S

abbrev pub rejected : {S : Type 0} → Call → String → S → Rpc × List String × S
rejected call reason s = (failed unauthenticated reason, reject_line call reason ∷ [], s)

-- the interceptor that `makeAuthInterceptor` makes
unfoldable pub auth_interceptor : {S : Type 0} → String → Unary S → Unary S
auth_interceptor auth_token handler call s =
    if auth_token == "" then handler call s else elim call.metadata [
      | none ↦ rejected call "missing metadata" s
      | some get ↦ elim (get "authorization") [
        | [] ↦ rejected call "missing authorization header" s
        | auth_header ∷ _ ↦
            if token_valid auth_header auth_token
            then handler call s
            else rejected call "invalid token" s
      ]
    ]

-- an insert's error as the status of the call
abbrev pub answer : {S : Type 0} → String → Outcome (Unit {0}) × S → Rpc × List String × S
answer text (ok _, s) = (exported, [], s)
answer text (err e, s) = (failed internal (concat text e), [], s)

module _ (E : Engine) (lower : Char → Char) (auth_token : String) where
  -- The three `Export` methods.
  unfoldable pub export_traces : List (ResourceGroup Span) → Unary (Store E)
  export_traces req call s = elim (check_auth call auth_token) [
    | some e ↦ (e, [], s)
    | none ↦ answer "failed to insert spans: " (store_traces E lower req s)
  ]

  unfoldable pub export_logs : List (ResourceGroup LogRecord) → Unary (Store E)
  export_logs req call s = elim (check_auth call auth_token) [
    | some e ↦ (e, [], s)
    | none ↦ answer "failed to insert logs: " (store_logs E lower req s)
  ]

  unfoldable pub export_metrics : List (ResourceGroup Metric) → Unary (Store E)
  export_metrics req call s = elim (check_auth call auth_token) [
    | some e ↦ (e, [], s)
    | none ↦ answer "failed to insert metrics: " (store_metrics E lower req s)
  ]

-- the requests of the three services
pub data Export : Type 0 where
  traces : List (ResourceGroup Span) → Export
  logs : List (ResourceGroup LogRecord) → Export
  metrics : List (ResourceGroup Metric) → Export

module _ (E : Engine) (lower : Char → Char) (auth_token : String) where
  abbrev pub service : Export → Unary (Store E)
  service (traces req) = export_traces E lower auth_token req
  service (logs req) = export_logs E lower auth_token req
  service (metrics req) = export_metrics E lower auth_token req

  -- the services of `NewGRPCServer`, behind its interceptor
  unfoldable pub grpc_server : Export → Unary (Store E)
  grpc_server req = auth_interceptor auth_token (service req)

-- The limits that `NewGRPCServer` hands to grpc-go; durations are nanoseconds.
pub record ServerOptions : Type 0 where
  pub max_recv_msg_size : ℕ
  pub max_concurrent_streams : ℕ
  pub max_connection_idle : ℕ
  pub min_time : ℕ
  pub permit_without_stream : Bool

-- 64 << 20
abbrev pub max_recv_msg_bytes : ℕ
max_recv_msg_bytes = 67108864

abbrev pub server_options : ServerOptions
server_options = record {
  max_recv_msg_size = max_recv_msg_bytes;
  max_concurrent_streams = 256;
  max_connection_idle = 300000000000;
  min_time = 30000000000;
  permit_without_stream = true;
}
