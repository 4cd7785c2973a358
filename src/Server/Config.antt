-- ===== src/Server/Config.antt =====
-- How main of cmd/otelstore/main.go resolves the token, the rules and the addresses, and wraps the
-- handlers.
use otelstore.Base.{
  Char, String, Bool, true, false, not, Option, none, some, Outcome, ok, err, wrap, ◌==◌,
  trim_space, if◌then◌else◌,
}
use otelstore.Base.Int.{ℤ, pos}
use otelstore.Redact.{Redactor, new, parse_rules}
use otelstore.Http.{Handler}
use otelstore.Auth.{middleware}

-- the flags; a duration is in nanoseconds
pub record Flags : Type 0 where
  pub show_version : Bool
  pub db_path : String
  pub auth_token : String
  pub auth_token_file : String
  pub redact_attrs : String
  pub grpc_port : String
  pub ingest_port : String
  pub query_port : String
  pub mcp_addr : String
  pub retention : ℤ
  pub max_size : ℤ

-- the defaults
abbrev pub default_flags : Flags
default_flags = record {
  show_version = false;
  db_path = ":memory:";
  auth_token = "";
  auth_token_file = "";
  redact_attrs = "";
  grpc_port = "127.0.0.1:4317";
  ingest_port = "127.0.0.1:4318";
  query_port = "127.0.0.1:4319";
  mcp_addr = "127.0.0.1:4320";
  retention = pos 0;
  max_size = pos 0;
}

-- The environment and the files, and what net says of an address: the host that `SplitHostPort`
-- finds, and whether `ParseIP` reads it, and as a loopback address.
pub record Environment : Type 0 where
  pub lookup_env : String → Option String
  pub clean : String → String
  pub read_file : String → Outcome String
  pub split_host : String → Outcome String
  pub parse_ip : String → Option Bool

-- os.Getenv
abbrev pub getenv : Environment → String → String
getenv env name = elim (env.lookup_env name) [ none ↦ "" | some value ↦ value ]

unfoldable pub is_non_loopback : Environment → String → Bool
is_non_loopback env addr = elim (env.split_host addr) [
  | err e ↦ false
  | ok host ↦
      if host == "127.0.0.1"
      then false
      else if host == "::1"
      then false
      else if host == "localhost"
      then false
      else if host == ""
      then true
      else (elim (env.parse_ip host) [ none ↦ true | some is_loopback ↦ not is_loopback ])
]

module _ (env : Environment) (flags : Flags) where
  -- the flag, or the variable
  unfoldable pub token_given : String
  token_given =
      if flags.auth_token == "" then getenv env "OTELSTORE_AUTH_TOKEN" else flags.auth_token

  unfoldable pub token_file : String
  token_file =
      if flags.auth_token_file == ""
      then getenv env "OTELSTORE_AUTH_TOKEN_FILE"
      else flags.auth_token_file

  -- The token, or the error with which main ends.
  unfoldable pub resolve_token : Outcome String
  resolve_token =
      if not (token_given == "")
      then ok token_given
      else if token_file == ""
      then ok ""
      else (elim (env.read_file (env.clean token_file)) [
        | err e ↦ err (wrap "failed to read auth token file: " e)
        | ok content ↦ ok (trim_space content)
      ])

  unfoldable pub redact_rules : String
  redact_rules =
      if flags.redact_attrs == "" then getenv env "OTELSTORE_REDACT_ATTRS" else flags.redact_attrs

  -- the redactor that `SetRedactor` is called with, if it is not nil
  unfoldable pub configured_redactor : (Char → Char) → Option Redactor
  configured_redactor lower = new lower (parse_rules redact_rules)

-- `authMW(handler)`, if a token is set
unfoldable pub with_auth : {S : Type 0} → String → Handler S → Handler S
with_auth auth_token handler = if auth_token == "" then handler else middleware auth_token handler
