-- ===== src/Tests/Guarding.antt =====
-- Requests and calls with and without a token.
use text.Mathlib.TextEquality.{eq_iff}
use otelstore.Base.{
  ◌⊎◌, ℕ, String, ◌≡◌, ◌≢◌, refl, true, none, some, [], ◌∷◌, ok, concat, ◌==◌, if◌then◌else◌,
  string_discrete, inl, inr, arith,
}
use otelstore.Http.{Request, Handler, http_error}
use otelstore.Sql.Memory.{memory}
use otelstore.Auth.{middleware}
use otelstore.Auth.Guard.{IsAdmitted, IsRejected, middleware_lem}
use otelstore.Grpc
use otelstore.Grpc.{Call, Rpc, failed, unauthenticated, Export, traces, service, grpc_server}
use otelstore.Grpc.Access
use otelstore.Grpc.Access.{HasReason, stored, grpc_server_lem}
use otelstore.Server.Config.{default_flags, Flags, Environment, getenv, resolve_token}
use otelstore.Server.Guarded.{IsFirstGiven, IsFromFile, resolve_token_lem}
use otelstore.Tests.Fixtures.{ascii_lower, login_span, fresh_store}

-- a header with one value for its name
pub header_at : String → String → String
header_at value name = if name == "Authorization" then value else ""

abbrev pub request_with : String → Request
request_with value = record {
  method = "GET";
  path = "/v1/query";
  remote_addr = "10.0.0.1:999";
  header = header_at value;
  query = λ name. "";
  body = [];
  body_error = none;
}

abbrev count_up : Handler ℕ
count_up r n = (record { lines = []; response = http_error "done" 200 }, 1)

middleware_lem_example :
    (IsAdmitted "abc" (request_with "Bearer abd")
      → middleware "abc" count_up (request_with "Bearer abd") 0
        ≡ count_up (request_with "Bearer abd") 0)
    × (¬ IsAdmitted "abc" (request_with "Bearer abd")
        → IsRejected 0 (middleware "abc" count_up (request_with "Bearer abd") 0))
middleware_lem_example = middleware_lem "abc" count_up (request_with "Bearer abd") 0

pub not-IsAdmitted :
    (value : String)
    → header_at value "Authorization" ≢ concat "Bearer " "abc"
    → ¬ IsAdmitted "abc" (request_with value)
not-IsAdmitted value n (inl e) = let t = (eq_iff "abc" "").1 e in cc
not-IsAdmitted value n (inr (inl e)) = let t = (eq_iff "/v1/query" "/healthz").1 e in cc
not-IsAdmitted value n (inr (inr (inl e))) = let t = (eq_iff "/v1/query" "/readyz").1 e in cc
not-IsAdmitted value n (inr (inr (inr e))) = n e

pub wrong_header : header_at "Bearer abd" "Authorization" ≢ concat "Bearer " "abc"
unfolding header_at
wrong_header h =
    ground (arith, eq_iff "Bearer abd" "Bearer abc", eq_iff "Authorization" "Authorization")

short_header : header_at "abc" "Authorization" ≢ concat "Bearer " "abc"
unfolding header_at
short_header h = ground (arith, eq_iff "abc" "Bearer abc", eq_iff "Authorization" "Authorization")

both_there :
    (header_at "Bearer abd" "Authorization" == "") ≡ (header_at "abc" "Authorization" == "")
unfolding header_at string_discrete
both_there = refl

abbrev bare_call : Call
bare_call = record { full_method = "/Export"; metadata = none; peer_addr = none }

abbrev login_export : Export
login_export = traces (
    record { resource = none; groups = record { items = login_span ∷ []; scope = none } ∷ [] } ∷ [])

grpc_server_lem_example :
    (Grpc.Access.IsAdmitted "abc" bare_call
      → grpc_server memory ascii_lower "abc" login_export bare_call fresh_store
        ≡ stored memory ascii_lower login_export fresh_store)
    × (¬ Grpc.Access.IsAdmitted "abc" bare_call
        → (reason : String) × HasReason reason
          × (grpc_server memory ascii_lower "abc" login_export bare_call fresh_store ≡ (
            failed unauthenticated reason,
            Grpc.reject_line bare_call reason ∷ [],
            fresh_store,
          ))
          × (service memory ascii_lower "abc" login_export bare_call fresh_store
              ≡ (failed unauthenticated reason, [], fresh_store)))
grpc_server_lem_example =
    grpc_server_lem memory ascii_lower "abc" login_export bare_call fresh_store

abbrev pub env : Environment
env = record {
  lookup_env = λ name. if name == "OTELSTORE_AUTH_TOKEN_FILE" then some "/t" else none;
  clean = λ path. path;
  read_file = λ path. ok " abc\n";
  split_host = λ addr. ok "127.0.0.1";
  parse_ip = λ host. some true;
}

abbrev flags : Flags
flags = record default_flags { grpc_port = "" }

resolve_token_lem_example :
    (token : String) × IsFirstGiven
      (flags.auth_token ∷ getenv env "OTELSTORE_AUTH_TOKEN" ∷ [])
      token
    × (((token ≢ "") × (resolve_token env flags ≡ ok token))
        ⊎ ((token ≡ "")
            × ((path : String) × IsFirstGiven
                  (flags.auth_token_file ∷ getenv env "OTELSTORE_AUTH_TOKEN_FILE" ∷ [])
                  path
                × IsFromFile env flags path)))
resolve_token_lem_example = resolve_token_lem env flags
