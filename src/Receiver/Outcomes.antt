-- ===== src/Receiver/Outcomes.antt =====
-- What a client of internal/receiver/receiver.go and its operator can rely on.
use otelstore.Base.{
  ℕ, Char, code, ◌≢◌, String, false, ◌≡◌, ◌≤◌, ◌<◌, refl, Option, some, List, ◌∷◌, length,
  length-take, ok, Error, leb, leb→le, arith, Bool-cases, inl, inr, AllChars,
}
use otelstore.Http.{Request, Reply, bytes}
use otelstore.Receiver.{
  max_body_bytes, RpcCode, status_message, Externals, read_body, request_is_json, content_type_for,
  marshal_for, write_lines, write_error, reject,
}

-- At most 64 MiB of a body are read, and a longer one ends in an error.
read_body_bounded :
    (r : Request)
    → (length (read_body r).0 ≤ max_body_bytes)
      × (max_body_bytes < length r.body → (e : Error) × ((read_body r).1 ≡ some e))
unfolding read_body
read_body_bounded r = elim (Bool-cases (leb (length r.body) max_body_bytes)) [
  | inl small ↦ rw small (leb→le _ _ small, λ h. absurd (omega (arith, leb→le _ _ small)))
  | inr large ↦ rw large (omega (arith, length-take max_body_bytes r.body), λ h. (_, refl))
]

module _ (X : Externals) where
  -- no character below U+0020, no U+007F, none of U+2028 and U+2029, and no format character
  abbrev pub IsSafeChar : Char → Type 0
  IsSafeChar c =
      (0x20 ≤ code c)
      × (code c ≢ 0x7f)
      × (code c ≢ 0x2028)
      × (code c ≢ 0x2029)
      × (X.is_format_char c ≡ false)

  abbrev pub IsSafe : String → Type 0
  IsSafe = AllChars IsSafeChar

  -- The response speaks of an error in the status, and in the encoding of the request.
  pub record IsRefusal (r : Request) (status : ℕ) (reply : Reply) : Type 0 where
    pub status_is : reply.response.status ≡ status
    -- it is logged, first of all
    pub first : String
    pub more : List String
    pub logged : reply.lines ≡ first ∷ more
    -- a `google.rpc.Status` in the encoding of the request, or nothing if it has no encoding
    pub rpc_code : RpcCode
    pub message : String
    pub encoded :
        (body : List ℕ)
        → marshal_for X (request_is_json X r) (status_message rpc_code message) ≡ ok body
        → (reply.response.content_type ≡ content_type_for X (request_is_json X r))
          × (reply.response.body ≡ bytes body)

  write_error_ok :
      (r : Request) (status : ℕ) (rpc_code : RpcCode) (message : String) (body : List ℕ)
      → marshal_for X (request_is_json X r) (status_message rpc_code message) ≡ ok body
      → write_error X r status rpc_code message ≡ record {
        lines = write_lines X r body;
        response = record {
          status = status;
          content_type = content_type_for X (request_is_json X r);
          body = bytes body;
        };
      }
  unfolding write_error
  write_error_ok r status rpc_code message body h = rw (h, write_error)

  write_error_status :
      (r : Request) (status : ℕ) (rpc_code : RpcCode) (message : String)
      → (write_error X r status rpc_code message).response.status ≡ status
  unfolding write_error
  write_error_status r status rpc_code message = ground arith

  pub reject-IsRefusal :
      (r : Request) (status : ℕ) (rpc_code : RpcCode) (stage message : String) (e : Option Error)
      (read : ℕ)
      → IsRefusal r status (reject X r status rpc_code stage message e read)
  unfolding reject
  reject-IsRefusal r status rpc_code stage message e read = record {
    status_is = write_error_status r status rpc_code message;
    first = _;
    more = _;
    logged = refl;
    rpc_code = rpc_code;
    message = message;
    encoded = λ body h. rw (write_error_ok r status rpc_code message body h) (refl, refl);
  }
