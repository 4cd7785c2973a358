-- ===== src/Grpc/Access.antt =====
-- Whom the interceptor and the services of internal/grpcreceiver/grpcreceiver.go admit.
use otelstore.Base.{
  Char, String, ◌≡◌, ◌≢◌, refl, ◌∙◌, true, Option, none, some, List, [], ◌∷◌, concat, arith,
  Option-cases, Bool-cases, ◌⊎◌, inl, inr, string_discrete,
}
use otelstore.Auth.{token_valid}
use otelstore.Auth.Guard.{token_valid_iff}
use otelstore.Sql.{Engine}
use otelstore.Store.Inserts.{Store}
use otelstore.Ingest.{store_traces, store_logs, store_metrics}
use otelstore.Grpc.{
  Call, unauthenticated, Rpc, failed, check_auth, reject_line, Unary, rejected, auth_interceptor,
  answer, export_traces, export_logs, export_metrics, Export, traces, logs, metrics, service,
  grpc_server,
}

-- the first of some values is the given one
abbrev pub IsHead : String → List String → Type 0
IsHead v [] = ⊥
IsHead v (x ∷ _) = x ≡ v

abbrev pub Presents : String → Option (String → List String) → Type 0
Presents v none = ⊥
Presents v (some get) = IsHead v (get "authorization")

-- No token is set, or the first authorization value of the metadata is "Bearer " and the token.
abbrev pub IsAdmitted : String → Call → Type 0
IsAdmitted auth_token call =
    (auth_token ≡ "") ⊎ Presents (concat "Bearer " auth_token) call.metadata

-- the reason for a rejection
abbrev pub HasReason : String → Type 0
HasReason reason =
    (reason ≡ "missing metadata")
    ⊎ ((reason ≡ "missing authorization header") ⊎ (reason ≡ "invalid token"))

-- how `check_auth` and the interceptor decide, at one call
abbrev Decides : {S : Type 0} → String → Call → Unary S → S → Type 0
Decides auth_token call handler s =
    (IsAdmitted auth_token call
      × (check_auth call auth_token ≡ none)
      × (auth_interceptor auth_token handler call s ≡ handler call s))
    ⊎ ((¬ IsAdmitted auth_token call)
        × ((reason : String) × HasReason reason
            × (check_auth call auth_token ≡ some (failed unauthenticated reason))
            × (auth_interceptor auth_token handler call s ≡ rejected call reason s)))

module _ {S : Type 0} (auth_token : String) (call : Call) (handler : Unary S) (s : S) where
  Decides-without : auth_token ≢ "" → call.metadata ≡ none → Decides auth_token call handler s
  unfolding check_auth auth_interceptor
  Decides-without n m = inr (
    (λ a. elim a [ inl e ↦ n e | inr p ↦ rw m at p ]),
    ("missing metadata", inl refl, ground arith, ground arith),
  )

  module _ (get : String → List String) (m : call.metadata ≡ some get) (n : auth_token ≢ "") where
    Decides-empty : get "authorization" ≡ [] → Decides auth_token call handler s
    unfolding check_auth auth_interceptor
    Decides-empty v = inr (
      (λ a. elim a [ inl e ↦ n e | inr p ↦ rw (m, v) at p ]),
      ("missing authorization header", inr (inl refl), ground arith, ground arith),
    )

    Decides-value :
        (x : String) (xs : List String)
        → get "authorization" ≡ x ∷ xs
        → Decides auth_token call handler s
    unfolding check_auth auth_interceptor
    Decides-value x xs v = elim (Bool-cases (token_valid x auth_token)) [
      | inl valid ↦
          inl (inr (rw (m, v) ((token_valid_iff x auth_token).0 valid)), ground arith, ground arith)
      | inr wrong ↦ inr (
        (λ a. elim a [
          | inl e ↦ n e
          | inr p ↦
              let h : x ≡ concat "Bearer " auth_token = rw (m, v) at p in
              let v : token_valid x auth_token ≡ true = (token_valid_iff x auth_token).1 h in cc
        ]),
        ("invalid token", inr (inr refl), ground arith, ground arith),
      )
    ]

    Decides-values :
        (xs : List String) → get "authorization" ≡ xs → Decides auth_token call handler s
    Decides-values [] v = Decides-empty v
    Decides-values (x ∷ xs) v = Decides-value x xs v

  Decides-open : auth_token ≡ "" → Decides auth_token call handler s
  unfolding check_auth auth_interceptor
  Decides-open e = inl (inl e, ground arith, ground arith)

  Decides-cases : Decides auth_token call handler s
  Decides-cases = elim (string_discrete auth_token "") [
    | yes e ↦ Decides-open e
    | no n ↦ elim (Option-cases call.metadata) [
      | inl m ↦ Decides-without n m
      | inr (get, m) ↦ Decides-values get m n _ refl
    ]
  ]

-- what a request does once it is admitted
abbrev pub stored : (E : Engine) → (Char → Char) → Export → Store E → Rpc × List String × Store E
stored E lower (traces req) s = answer "failed to insert spans: " (store_traces E lower req s)
stored E lower (logs req) s = answer "failed to insert logs: " (store_logs E lower req s)
stored E lower (metrics req) s = answer "failed to insert metrics: " (store_metrics E lower req s)

module _ (E : Engine) (lower : Char → Char) (auth_token : String) (req : Export) (call : Call)
    (s : Store E) where
  service_admits :
      (req : Export)
      → check_auth call auth_token ≡ none
      → service E lower auth_token req call s ≡ stored E lower req s
  unfolding export_traces export_logs export_metrics
  service_admits (traces r) h = rw (h, export_traces)
  service_admits (logs r) h = rw (h, export_logs)
  service_admits (metrics r) h = rw (h, export_metrics)

  service_rejects :
      (req : Export) (e : Rpc)
      → check_auth call auth_token ≡ some e
      → service E lower auth_token req call s ≡ (e, [], s)
  unfolding export_traces export_logs export_metrics
  service_rejects (traces r) e h = rw (h, export_traces)
  service_rejects (logs r) e h = rw (h, export_logs)
  service_rejects (metrics r) e h = rw (h, export_metrics)

  -- An export call is stored exactly if no token is set, or the first authorization value of its
  -- metadata is "Bearer " and the token. Any other fails as unauthenticated, for a reason that does
  -- not name a value, logs the reason once, and changes nothing; and it does so also where the
  -- service is reached without the interceptor, with no line in the log.
  pub grpc_server_lem :
      (IsAdmitted auth_token call
        → grpc_server E lower auth_token req call s ≡ stored E lower req s)
      × (¬ IsAdmitted auth_token call
          → (reason : String) × HasReason reason
            × (grpc_server E lower auth_token req call s
                ≡ (failed unauthenticated reason, reject_line call reason ∷ [], s))
            × (service E lower auth_token req call s ≡ (failed unauthenticated reason, [], s)))
  unfolding grpc_server
  grpc_server_lem = elim (Decides-cases auth_token call (service E lower auth_token req) s) [
    | inl (admitted, checked, passed) ↦
        ((λ h. passed ∙ service_admits req checked), (λ h. absurd (h admitted)))
    | inr (not_admitted, (reason, has, checked, stopped)) ↦ (
      (λ h. absurd (not_admitted h)),
      (λ h. (reason, has, stopped, service_rejects req _ checked)),
    )
  ]

  -- every call is admitted or not, and dealt with accordingly
  pub grpc_server-cases :
      (IsAdmitted auth_token call
        × (grpc_server E lower auth_token req call s ≡ stored E lower req s))
      ⊎ ((¬ IsAdmitted auth_token call)
          × ((reason : String) × HasReason reason
              × (check_auth call auth_token ≡ some (failed unauthenticated reason))
              × (grpc_server E lower auth_token req call s
                  ≡ (failed unauthenticated reason, reject_line call reason ∷ [], s))))
  unfolding grpc_server
  grpc_server-cases = elim (Decides-cases auth_token call (service E lower auth_token req) s) [
    | inl (admitted, checked, passed) ↦ inl (admitted, passed ∙ service_admits req checked)
    | inr (not_admitted, (reason, has, checked, stopped)) ↦
        inr (not_admitted, (reason, has, checked, stopped))
  ]
