-- ===== src/Auth.antt =====
-- internal/auth/auth.go
pub mod Guard
use otelstore.Base.{
  Char, code, String, Bool, true, false, ◌||◌, none, some, [], ◌∷◌, ◌==◌, cut_prefix, map_text,
  concat, ltb, nat_eq, if◌then◌else◌,
}
use otelstore.Http.{Request, Reply, http_error, Handler}

-- Without the prefix false; else whether the rest is the token, in a comparison whose time the model
-- does not see.
unfoldable pub token_valid : String → String → Bool
token_valid auth_header expected = elim (cut_prefix auth_header "Bearer ") [
  | none ↦ false
  | some rest ↦ rest == expected
]

-- r < 0x20 || r == 0x7f
abbrev pub is_control : Char → Bool
is_control c = ltb (code c) 0x20 || nat_eq (code c) 0x7f

abbrev pub mask : Char → Char
mask c = if is_control c then "_" else c

unfoldable pub sanitize_for_log : String → String
sanitize_for_log s = map_text mask s

abbrev pub is_unauthenticated_path : String → Bool
is_unauthenticated_path path = path == "/healthz" || path == "/readyz"

abbrev pub reject_reason : String → String
reject_reason auth_header =
    if auth_header == "" then "missing authorization header" else "invalid token"

-- the line of `log.Printf("auth: rejected %s %s from %s (%s)", …)`
unfoldable pub rejected_line : Request → String
rejected_line r = concat "auth: rejected " (
    concat (sanitize_for_log r.method) (
      concat " " (
        concat (sanitize_for_log r.path) (
          concat " from " (
            concat (sanitize_for_log r.remote_addr)
              (concat " (" (concat (reject_reason (r.header "Authorization")) ")")))))))

unfoldable pub middleware : {S : Type 0} → String → Handler S → Handler S
middleware auth_token next r s =
    if auth_token == "" || is_unauthenticated_path r.path
    then next r s
    else if token_valid (r.header "Authorization") auth_token
    then next r s
    else (record { lines = rejected_line r ∷ []; response = http_error "unauthorized" 401 }, s)
