-- ===== src/Query/Listing.antt =====
-- The other endpoints of internal/query/query.go, behind its mux.
use otelstore.Base.{true, false, ◌≡◌, List, Error, ◌⊎◌}
use otelstore.Value.{Value, Fields}
use otelstore.Value.Json.{is_encodable}
use otelstore.Http.{Response, json, no_body, http_error}
use otelstore.Store.Inserts.{Store}
use otelstore.Store.Promised.{Promised}

-- What the encoder makes of a result: 200 with the JSON, or, where the JSON encoder refuses the value,
-- 200 with no body.
abbrev pub IsEncoding : Value → Response → Type 0
IsEncoding v response =
    (response.status ≡ 200)
    × (((is_encodable v ≡ true) × (response.body ≡ json v))
        ⊎ ((is_encodable v ≡ false) × (response.body ≡ no_body)))

-- an error of the store, or a result that has a property
abbrev pub Answers : Response → (List Fields → Value) → (List Fields → Type 0) → Type 0
Answers response result P =
    ((e : Error) × (response ≡ http_error e 500))
    ⊎ ((es : List Fields) × IsEncoding (result es) response × P es)
