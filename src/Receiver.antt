-- ===== src/Receiver.antt =====
-- internal/receiver/receiver.go: OTLP over HTTP.
pub mod Outcomes
pub mod Ingesting
pub mod Logging
pub mod Routing
use otelstore.Base.{
  ℕ, Char, code, String, Bool, true, false, ◌||◌, ◌&&◌, Option, none, some, List, [], ◌∷◌, ◌++◌,
  length, take, Outcome, ok, err, Error, ◌==◌, leb, ltb, nat_eq, map_text, concat, if◌then◌else◌,
}
use otelstore.Http.{Request, Response, Reply, Body, no_body, bytes, Handler}
use otelstore.Sql.{Engine}
use otelstore.Store.Records.{Span, LogRecord, Metric}
use otelstore.Store.Inserts.{Store}
use otelstore.Ingest.{ResourceGroup, store_traces, store_logs, store_metrics}

-- 64 << 20
abbrev pub max_body_bytes : ℕ
max_body_bytes = 67108864

-- google.rpc.Code
pub data RpcCode : Type 0 where
  unimplemented invalid_argument internal not_found : RpcCode

-- the messages of a response: a `google.rpc.Status`, or the empty export response
pub data Message : Type 0 where
  status_message : RpcCode → String → Message
  export_response : Message

-- What the receiver takes from other packages: `mime.ParseMediaType`, category Cf of `unicode`, the
-- two encodings of protobuf messages, the decimal digits of fmt and its %q, and the writing of a
-- body to the client.
pub record Externals : Type 0 where
  pub parse_media_type : String → Outcome String
  pub is_format_char : Char → Bool
  pub marshal_json : Message → Outcome (List ℕ)
  pub marshal_proto : Message → Outcome (List ℕ)
  pub decimal : ℕ → String
  pub quote : String → String
  pub write : List ℕ → Option Error

-- the decoders of one kind of request; protojson discards unknown fields
pub record Decoders (A : Type 0) : Type 0 where
  pub unmarshal_json : List ℕ → Outcome (List (ResourceGroup A))
  pub unmarshal_proto : List ℕ → Outcome (List (ResourceGroup A))

-- io.ReadAll of an http.MaxBytesReader: what was read, and the error that ended it
unfoldable pub read_body : Request → List ℕ × Option Error
read_body r =
    if leb (length r.body) max_body_bytes
    then (r.body, r.body_error)
    else (take max_body_bytes r.body, some "http: request body too large")

abbrev pub err_string : Option Error → String
err_string none = "<none>"
err_string (some e) = e

module _ (X : Externals) where
  -- control characters, U+2028, U+2029 and format characters
  abbrev pub is_unsafe : Char → Bool
  is_unsafe c =
      let r = code c in
      ltb r 0x20 || nat_eq r 0x7f || nat_eq r 0x2028 || nat_eq r 0x2029 || X.is_format_char c

  abbrev pub mask : Char → Char
  mask c = if is_unsafe c then "_" else c

  unfoldable pub sanitize_for_log : String → String
  sanitize_for_log s = map_text mask s

  -- the line of `logReject`
  unfoldable pub reject_line : Request → ℕ → String → Option Error → ℕ → String
  reject_line r status stage e read = concat "ingest: rejected " (
      concat (sanitize_for_log r.method) (
        concat " " (
          concat (sanitize_for_log r.path) (
            concat " " (
              concat (X.decimal status) (
                concat " " (
                  concat stage (
                    concat ": content-type=" (
                      concat (X.quote (sanitize_for_log (r.header "Content-Type"))) (
                        concat " read=" (
                          concat (X.decimal read)
                            (concat " err=" (sanitize_for_log (err_string e))))))))))))))

  -- the line of `logWriteFailure`
  unfoldable pub write_failure_line : Request → Error → String
  write_failure_line r e = concat "ingest: response write failed for " (
      concat (sanitize_for_log r.method)
        (concat " " (concat (sanitize_for_log r.path) (concat ": " (sanitize_for_log e)))))

  unfoldable pub request_is_json : Request → Bool
  request_is_json r =
      let ct = r.header "Content-Type" in
      if ct == "" then false else elim (X.parse_media_type ct) [
        | err e ↦ false
        | ok media_type ↦ media_type == "application/json"
      ]

  abbrev pub content_type_for : Bool → String
  content_type_for true = "application/json"
  content_type_for false = "application/x-protobuf"

  abbrev pub marshal_for : Bool → Message → Outcome (List ℕ)
  marshal_for true = X.marshal_json
  marshal_for false = X.marshal_proto

  -- w.Write, whose failure is logged
  abbrev pub write_lines : Request → List ℕ → List String
  write_lines r body = elim (X.write body) [ none ↦ [] | some e ↦ write_failure_line r e ∷ [] ]

  -- the header, the status and the body; where the body cannot be made, the bare status
  unfoldable pub write_error : Request → ℕ → RpcCode → String → Reply
  write_error r status rpc_code message =
      elim (marshal_for (request_is_json r) (status_message rpc_code message)) [
        | err e ↦ record {
          lines = write_failure_line r e ∷ [];
          response = record { status = status; content_type = ""; body = no_body };
        }
        | ok body ↦ record {
          lines = write_lines r body;
          response = record {
            status = status;
            content_type = content_type_for (request_is_json r);
            body = bytes body;
          };
        }
      ]

  -- `logReject`, then `writeError`
  unfoldable pub reject : Request → ℕ → RpcCode → String → String → Option Error → ℕ → Reply
  reject r status rpc_code stage message e read =
      let reply = write_error r status rpc_code message in
      record reply { lines = reject_line r status stage e read ∷ reply.lines }

  unfoldable pub decode_request :
      {A : Type 0} → Decoders A → Request → List ℕ → Outcome (List (ResourceGroup A))
  decode_request decoders r body =
      if request_is_json r then decoders.unmarshal_json body else decoders.unmarshal_proto body

  -- the request with the number of bytes read, or the response that ends it
  pub data Prologue (A : Type 0) : Type 0 where
    go_on : ℕ → List (ResourceGroup A) → Prologue A
    stop : Reply → Prologue A

  unfoldable pub read_and_decode : {A : Type 0} → Decoders A → Request → Prologue A
  read_and_decode decoders r =
      let (body, failure) = read_body r in
      if r.method == "POST"
      then elim failure [
        | some e ↦
            stop
              (reject r 400 invalid_argument "read body" "read request body" (some e) (length body))
        | none ↦ elim (decode_request decoders r body) [
          | err e ↦
              stop
                (reject r 400 invalid_argument "unmarshal" "unmarshal error" (some e) (length body))
          | ok req ↦ go_on (length body) req
        ]
      ]
      else stop (reject r 405 unimplemented "method" "method not allowed" none 0)

  unfoldable pub write_response : Request → Reply
  write_response r = elim (marshal_for (request_is_json r) export_response) [
    | err e ↦ reject r 500 internal "marshal response" "marshal response" (some e) 0
    | ok body ↦ record {
      lines = write_lines r body;
      response = record {
        status = 200;
        content_type = content_type_for (request_is_json r);
        body = bytes body;
      };
    }
  ]

  -- `handleTraces`, `handleLogs` and `handleMetrics`, which differ in what they decode and store
  unfoldable pub handle_export :
      {A S : Type 0}
      → Decoders A
      → (List (ResourceGroup A) → S → Outcome (Unit {0}) × S)
      → Handler S
  handle_export decoders store r s = elim (read_and_decode decoders r) [
    | stop reply ↦ (reply, s)
    | go_on read req ↦
        let (result, s') = store req s in
        elim result [
          | err e ↦ (reject r 500 internal "store insert" "store insert" (some e) read, s')
          | ok _ ↦ (write_response r, s')
        ]
  ]

-- the decoders of the three requests
pub record OtlpDecoders : Type 0 where
  pub traces : Decoders Span
  pub logs : Decoders LogRecord
  pub metrics : Decoders Metric

module _ (X : Externals) (D : OtlpDecoders) (E : Engine) (lower : Char → Char) where
  unfoldable pub handle_traces : Handler (Store E)
  handle_traces = handle_export X D.traces (store_traces E lower)

  unfoldable pub handle_logs : Handler (Store E)
  handle_logs = handle_export X D.logs (store_logs E lower)

  unfoldable pub handle_metrics : Handler (Store E)
  handle_metrics = handle_export X D.metrics (store_metrics E lower)

  unfoldable pub serve_http : Handler (Store E)
  serve_http r s =
      if r.path == "/v1/traces"
      then handle_traces r s
      else if r.path == "/v1/logs"
      then handle_logs r s
      else if r.path == "/v1/metrics"
      then handle_metrics r s
      else (reject X r 404 not_found "unknown route" "unknown route" none 0, s)
