-- ===== src/Receiver/Logging.antt =====
-- What internal/receiver/receiver.go writes to its log.
use otelstore.Base.{
  ℕ, Char, code, String, ◌≡◌, ◌≤◌, ◌<◌, refl, false, Option, none, some, List, Outcome, Error,
  arith, AllChars, AllChars-map, AllChars-append, concat, Bool-cases, Outcome-cases, Option-cases,
  inl, inr, All, ◌==◌,
}
use otelstore.Http.{Request, Reply}
use otelstore.Ingest.{ResourceGroup}
use otelstore.Receiver.{
  RpcCode, unimplemented, invalid_argument, internal, Externals, Decoders, is_unsafe, mask,
  sanitize_for_log, err_string, reject_line, write_failure_line, write_lines, write_error, reject,
  request_is_json, marshal_for, status_message, export_response, read_body, decode_request,
  Prologue, go_on, stop, read_and_decode, write_response, handle_export,
}
use otelstore.Receiver.Outcomes.{IsSafeChar, IsSafe}

-- a printable character of ASCII
abbrev pub IsAscii : String → Type 0
IsAscii = AllChars (λ c. (0x20 ≤ code c) × (code c < 0x7f))

-- What is relied on: ASCII has no format character, numbers print as ASCII, and quoting a text
-- without unsafe characters gives such a text.
pub record IsHarmless (X : Externals) : Type 0 where
  pub ascii_format : (c : Char) → code c < 0x80 → X.is_format_char c ≡ false
  pub decimal_ascii : (n : ℕ) → IsAscii (X.decimal n)
  pub quote_safe : (s : String) → IsSafe X s → IsSafe X (X.quote s)

module _ (X : Externals) (harmless : IsHarmless X) where
  ascii-IsSafeChar : (c : Char) → 0x20 ≤ code c → code c < 0x7f → IsSafeChar X c
  ascii-IsSafeChar c h k = ground (arith, harmless.ascii_format c)

  ascii-IsSafe : (s : String) → IsAscii s → IsSafe X s
  ascii-IsSafe (String.[]) h = tt
  ascii-IsSafe (String.◌∷◌ c s) ((h, k), hs) = (ascii-IsSafeChar c h k, ascii-IsSafe s hs)

  mask-IsSafeChar : (c : Char) → IsSafeChar X (mask X c)
  mask-IsSafeChar c = elim (Bool-cases (is_unsafe X c)) [
    | inl masked ↦ rw masked (ascii-IsSafeChar "_" (omega arith) (omega arith))
    | inr kept ↦ rw kept (ground arith)
  ]

  sanitize_for_log-IsSafe : (s : String) → IsSafe X (sanitize_for_log X s)
  unfolding sanitize_for_log
  sanitize_for_log-IsSafe s = AllChars-map _ (mask X) s mask-IsSafeChar

  append-IsSafe : (s t : String) → IsSafe X s → IsSafe X t → IsSafe X (concat s t)
  append-IsSafe = AllChars-append _

  -- a fixed text in front
  literal-IsSafe : (s t : String) → IsAscii s → IsSafe X t → IsSafe X (concat s t)
  literal-IsSafe s t h = append-IsSafe s t (ascii-IsSafe s h)

  reject_line-IsSafe :
      (r : Request) (status : ℕ) (stage : String) (e : Option Error) (read : ℕ)
      → IsAscii stage
      → IsSafe X (reject_line X r status stage e read)
  unfolding reject_line
  reject_line-IsSafe r status stage e read h = literal-IsSafe _ _ (omega arith) (
      append-IsSafe _ _ (sanitize_for_log-IsSafe r.method) (
        literal-IsSafe _ _ (omega arith) (
          append-IsSafe _ _ (sanitize_for_log-IsSafe r.path) (
            literal-IsSafe _ _ (omega arith) (
              literal-IsSafe _ _ (harmless.decimal_ascii status) (
                literal-IsSafe _ _ (omega arith) (
                  literal-IsSafe _ _ h (
                    literal-IsSafe _ _ (omega arith) (
                      append-IsSafe _ _
                        (harmless.quote_safe _ (sanitize_for_log-IsSafe (r.header "Content-Type")))
                        (literal-IsSafe _ _ (omega arith) (
                          literal-IsSafe _ _ (harmless.decimal_ascii read) (
                            literal-IsSafe _ _ (omega arith)
                              (sanitize_for_log-IsSafe (err_string e))))))))))))))

  write_failure_line-IsSafe : (r : Request) (e : Error) → IsSafe X (write_failure_line X r e)
  unfolding write_failure_line
  write_failure_line-IsSafe r e = literal-IsSafe _ _ (omega arith) (
      append-IsSafe _ _ (sanitize_for_log-IsSafe r.method) (
        literal-IsSafe _ _ (omega arith) (
          append-IsSafe _ _ (sanitize_for_log-IsSafe r.path)
            (literal-IsSafe _ _ (omega arith) (sanitize_for_log-IsSafe e)))))

  abbrev AreSafe : Reply → Type 0
  AreSafe reply = All (IsSafe X) reply.lines

  write_lines-IsSafe : (r : Request) (body : List ℕ) → All (IsSafe X) (write_lines X r body)
  write_lines-IsSafe r body = elim (Option-cases (X.write body)) [
    | inl sent ↦ rw (sent, write_lines) tt
    | inr (e, failed) ↦ rw (failed, write_lines) (write_failure_line-IsSafe r e, tt)
  ]

  write_error-AreSafe :
      (r : Request) (status : ℕ) (rpc_code : RpcCode) (message : String)
      → AreSafe (write_error X r status rpc_code message)
  unfolding write_error
  write_error-AreSafe r status rpc_code message =
      elim (Outcome-cases (marshal_for X (request_is_json X r) (status_message rpc_code message))) [
        | inl (body, made) ↦ rw (made, write_error) (write_lines-IsSafe r body)
        | inr (e, failed) ↦ rw (failed, write_error) (write_failure_line-IsSafe r e, tt)
      ]

  reject-AreSafe :
      (r : Request) (status : ℕ) (rpc_code : RpcCode) (stage message : String) (e : Option Error)
      (read : ℕ)
      → IsAscii stage
      → AreSafe (reject X r status rpc_code stage message e read)
  unfolding reject
  reject-AreSafe r status rpc_code stage message e read h =
      (reject_line-IsSafe r status stage e read h, write_error-AreSafe r status rpc_code message)

  write_response-AreSafe : (r : Request) → AreSafe (write_response X r)
  unfolding write_response
  write_response-AreSafe r =
      elim (Outcome-cases (marshal_for X (request_is_json X r) export_response)) [
        | inl (body, made) ↦ rw (made, write_response) (write_lines-IsSafe r body)
        | inr (e, failed) ↦
            rw (failed, write_response)
              (reject-AreSafe r 500 internal "marshal response" "marshal response" (some e) 0
                (omega arith))
      ]

  module _ {A : Type 0} (decoders : Decoders A) (r : Request) where
    abbrev StopsSafely : Prologue X A → Type 0
    StopsSafely (go_on _ _) = Unit
    StopsSafely (stop reply) = AreSafe reply

    read_and_decode-StopsSafely : StopsSafely (read_and_decode X decoders r)
    unfolding read_and_decode
    read_and_decode-StopsSafely = elim (Bool-cases (r.method == "POST")) [
      | inr other ↦
          rw (other, read_and_decode)
            (reject-AreSafe r 405 unimplemented "method" "method not allowed" none 0 (omega arith))
      | inl post ↦ elim (Option-cases (read_body r).1) [
        | inr (e, broken) ↦
            rw (post, broken, read_and_decode)
              (reject-AreSafe r 400 invalid_argument "read body" "read request body" (some e) _
                (omega arith))
        | inl whole ↦ elim (Outcome-cases (decode_request X decoders r (read_body r).0)) [
          | inr (e, bad) ↦
              rw (post, whole, read_and_decode, bad)
                (reject-AreSafe r 400 invalid_argument "unmarshal" "unmarshal error" (some e) _
                  (omega arith))
          | inl (req, good) ↦ rw (post, whole, read_and_decode, good) tt
        ]
      ]
    ]

  module _ {A S : Type 0} (decoders : Decoders A)
      (store : List (ResourceGroup A) → S → Outcome (Unit {0}) × S) (r : Request) (s : S) where
    handled_part :
        (p : Prologue X A)
        → read_and_decode X decoders r ≡ p
        → StopsSafely decoders r p
        → AreSafe (handle_export X decoders store r s).0
    unfolding handle_export
    handled_part (stop reply) h safe = rw (h, handle_export) safe
    handled_part (go_on read req) h _ = elim (Outcome-cases (store req s).0) [
      | inl (_, done) ↦ rw (h, handle_export, done) (write_response-AreSafe r)
      | inr (e, failed) ↦
          rw (h, handle_export, failed)
            (reject-AreSafe r 500 internal "store insert" "store insert" (some e) read
              (omega arith))
    ]

    -- If ASCII has no format character, numbers print as ASCII, and quoting keeps a harmless text
    -- harmless: every line that a handler of the receiver logs, whatever the request and the
    -- outcome, has no character below U+0020, no U+007F, none of the separators U+2028 and U+2029,
    -- and no format character.
    pub handle_export-AreSafe : AreSafe (handle_export X decoders store r s).0
    handle_export-AreSafe = handled_part _ refl (read_and_decode-StopsSafely decoders r)
