-- ===== src/Http.antt =====
-- What the handlers read of an HTTP request and what they answer: the parts of net/http that the
-- program uses, and the lines that it writes to its log.
use otelstore.Base.{ℕ, String, Option, List, concat}
use otelstore.Value.{Value}

-- `header` is `r.Header.Get`, `query` is `r.URL.Query().Get`. The body is the bytes that arrive, and
-- the error that ends them, if they do not end by themselves.
pub record Request : Type 0 where
  pub method : String
  pub path : String
  pub remote_addr : String
  pub header : String → String
  pub query : String → String
  pub body : List ℕ
  pub body_error : Option String

pub data Body : Type 0 where
  no_body : Body
  plain : String → Body
  json : Value → Body
  bytes : List ℕ → Body

pub record Response : Type 0 where
  pub status : ℕ
  pub content_type : String
  pub body : Body

-- a response, with the lines that were logged on the way to it
pub record Reply : Type 0 where
  pub lines : List String
  pub response : Response

-- http.Error
abbrev pub http_error : String → ℕ → Response
http_error message status = record {
  status = status;
  content_type = "text/plain; charset=utf-8";
  body = plain (concat message "\n");
}

-- a handler over the state that it may change
abbrev pub Handler : Type 0 → Type 0
Handler S = Request → S → Reply × S
