-- ===== src/Server/Denied.antt =====
-- What the server of cmd/otelstore/main.go shows to those who do not have the token.
use otelstore.Base.{String, ◌≡◌, refl, ◌∙◌, ap, some, [], ◌∷◌, inl, inr}
use otelstore.Http.{Request, http_error, Handler}
use otelstore.Sql.{Engine}
use otelstore.Store.Inserts.{Store}
use otelstore.Auth.{rejected_line}
use otelstore.Auth.Guard as Guard
use otelstore.Auth.Guard.{middleware_rejects_as}
use otelstore.Grpc.{Call, check_auth, failed, unauthenticated, reject_line, Export, grpc_server}
use otelstore.Grpc.Access as Access
use otelstore.Grpc.Access.{HasReason, grpc_server-cases}
use otelstore.Server.Config.{Flags, with_auth}
use otelstore.Server.Guarded.{with_auth-middleware}
use otelstore.Server.Start.{World, running}
use otelstore.Server.System.{
  Event, ingests, queries, tools, exports, ticks, Answer, replied, returned, swept, handle,
}

-- who may pass: the token of the requests, or none for a tick
abbrev pub IsAdmitted : String → Event → Type 0
IsAdmitted auth_token (ingests r) = Guard.IsAdmitted auth_token r
IsAdmitted auth_token (queries r) = Guard.IsAdmitted auth_token r
IsAdmitted auth_token (tools r) = Guard.IsAdmitted auth_token r
IsAdmitted auth_token (exports req call) = Access.IsAdmitted auth_token call
IsAdmitted auth_token (ticks now) = Unit

-- 401, or UNAUTHENTICATED with a reason that names no value; and one line in the log
abbrev pub IsDenial : Answer → Type 0
IsDenial (replied reply) =
    (reply.response ≡ http_error "unauthorized" 401) × ((line : String) × (reply.lines ≡ line ∷ []))
IsDenial (returned rpc lines) =
    ((reason : String) × HasReason reason × (rpc ≡ failed unauthenticated reason))
    × ((line : String) × (lines ≡ line ∷ []))
IsDenial (swept lines) = ⊥

with_auth_rejects :
    {S : Type 0} (auth_token : String) (handler : Handler S) (r : Request) (s : S)
    → ¬ Guard.IsAdmitted auth_token r
    → with_auth auth_token handler r s
      ≡ (record { lines = rejected_line r ∷ []; response = http_error "unauthorized" 401 }, s)
with_auth_rejects auth_token handler r s h =
    with_auth-middleware auth_token handler r s ∙ middleware_rejects_as auth_token handler r s h

module _ (E : Engine) (W : World E) (flags : Flags) (auth_token : String) (first : Store E) where
  call_denied :
      (req : Export) (call : Call) (s : Store E)
      → ¬ Access.IsAdmitted auth_token call
      → (reason : String) × HasReason reason
        × (check_auth call auth_token ≡ some (failed unauthenticated reason))
        × (grpc_server E W.lower auth_token req call s
            ≡ (failed unauthenticated reason, reject_line call reason ∷ [], s))
  call_denied req call s h = elim (grpc_server-cases E W.lower auth_token req call s) [
    | inl (admitted, _) ↦ absurd (h admitted)
    | inr (_, denied) ↦ denied
  ]

  -- A request or call that is not admitted, to whichever of the four servers, is denied with an
  -- answer that is the same whatever the store holds, so that it shows nothing of it, and the store
  -- stays as it is.
  pub handle-IsDenial :
      (e : Event)
      → ¬ IsAdmitted auth_token e
      → (a : Answer) × IsDenial a
        × ((s : Store E)
            → handle E W.decimal (running E W flags auth_token first) e s ≡ some (a, s))
  unfolding handle running
  handle-IsDenial (ingests r) h = (
    _,
    (refl, (_, refl)),
    (λ s. ap (λ p. some (replied p.0, p.1)) (with_auth_rejects auth_token _ r s h)),
  )
  handle-IsDenial (queries r) h = (
    _,
    (refl, (_, refl)),
    (λ s. ap (λ p. some (replied p.0, p.1)) (with_auth_rejects auth_token _ r s h)),
  )
  handle-IsDenial (tools r) h = (
    _,
    (refl, (_, refl)),
    (λ s. ap (λ p. some (replied p.0, p.1)) (with_auth_rejects auth_token _ r s h)),
  )
  handle-IsDenial (exports req call) h =
      let (reason, has, checked, _) = call_denied req call first h in
      (
        returned (failed unauthenticated reason) (reject_line call reason ∷ []),
        ((reason, has, refl), (_, refl)),
        (λ s.
            let (reason', _, checked', stopped) = call_denied req call s h in
            let same : reason' ≡ reason = cc (checked, checked') in rw stopped (rw same refl)),
      )
  handle-IsDenial (ticks now) h = absurd (h tt)
