-- ===== src/Server/Handled.antt =====
-- What the started server of cmd/otelstore/main.go does with its store on each event.
use mathlib.Core.Path.{subst}
use otelstore.Base.{
  ℕ, zero, suc, Option-cases, Char, String, ◌≡◌, refl, ap, ◌∙◌, Option, none, some, List, [], ◌∷◌,
  Outcome, ok, err, Outcome-cases, Bool-cases, ◌==◌, inl, inr, ◌⊎◌, arith,
}
use otelstore.Base.Int.{ℤ, pos, negsuc}
use otelstore.Http.{Request, Reply, http_error, Handler}
use otelstore.Sql.{Engine, IsLawful}
use otelstore.Store.Inserts.{Store}
use otelstore.Store.Retention.{enforce_max_size}
use otelstore.Store.Removing.{delete_before_keeps, enforce_max_size_keeps}
use otelstore.Store.Steps.{
  expired, evicted, checkpointed, removes, Grown, grown_none, Reach, here, next,
}
use otelstore.Store.Growth.{Grown-trans}
use otelstore.Ingest.{ResourceGroup}
use otelstore.Ingest.Growing.{store_traces-Grown, store_logs-Grown, store_metrics-Grown}
use otelstore.Receiver.{
  Externals, Decoders, OtlpDecoders, go_on, stop, Prologue, read_and_decode, handle_export,
  handle_traces, handle_logs, handle_metrics, serve_http,
}
use otelstore.Grpc.{Call, Export, traces, logs, metrics, answer, grpc_server}
use otelstore.Grpc.Access.{stored, grpc_server-cases}
use otelstore.Auth.{rejected_line, middleware}
use otelstore.Server.Config.{Flags, with_auth}
use otelstore.Server.Sweep.{sweep_age, sweep_size, sweep}
use otelstore.Server.Sweeping.{sweep_lem}
use otelstore.Server.Start.{
  World, Sweeper, running, ingest_handler, query_handler, mcp_handler, start_sweeper,
}
use otelstore.Server.System.{
  Event, ingests, queries, tools, exports, ticks, Answer, swept, on_tick, handle,
}

-- A wrapped handler has passed the request on, or has answered 401 and left the state.
pub with_auth-cases :
    {S : Type 0} (auth_token : String) (handler : Handler S) (r : Request) (s : S)
    → (with_auth auth_token handler r s ≡ handler r s)
      ⊎ (with_auth auth_token handler r s
          ≡ (record { lines = rejected_line r ∷ []; response = http_error "unauthorized" 401 }, s))
unfolding with_auth middleware
with_auth-cases auth_token handler r s = ground arith

Prologue-cases :
    {A : Type 0} (X : Externals) (p : Prologue X A)
    → ((reply : Reply) × (p ≡ stop reply))
      ⊎ ((read : ℕ) × (req : List (ResourceGroup A)) × (p ≡ go_on read req))
Prologue-cases X (stop reply) = inl (reply, refl)
Prologue-cases X (go_on read req) = inr (read, req, refl)

module _ {A S : Type 0} (X : Externals) (decoders : Decoders A)
    (store : List (ResourceGroup A) → S → Outcome (Unit {0}) × S) (Keeps : S → Type 0)
    (kept : (req : List (ResourceGroup A)) (s : S) → Keeps s → Keeps (store req s).1) where
  handle_export_keeps :
      (r : Request) (s : S) → Keeps s → Keeps (handle_export X decoders store r s).1
  unfolding handle_export
  handle_export_keeps r s k = elim (Prologue-cases X (read_and_decode X decoders r)) [
    | inl (reply, h) ↦ rw (h, handle_export) k
    | inr (read, req, h) ↦ elim (Outcome-cases (store req s).0) [
      | inr (e, m) ↦ rw (h, m, handle_export) (kept req s k)
      | inl (_, m) ↦ rw (h, m, handle_export) (kept req s k)
    ]
  ]

answer_state : {S : Type 0} (text : String) (p : Outcome (Unit {0}) × S) → (answer text p).2 ≡ p.1
answer_state text (ok _, s) = refl
answer_state text (err e, s) = refl

some_of_none : {A : Type 0} (a : A) → ¬ (◌≡◌ {A = Option A} none (some a))
some_of_none a h = cc

swept_last :
    {A B : Type 0} (a a' : A) (b b' : B)
    → ◌≡◌ {A = Option (A × B)} (some (a, b)) (some (a', b'))
    → b ≡ b'
swept_last a a' b b' h = cc

module _ (E : Engine) (lower : Char → Char) where
  serve_http-Grown :
      (X : Externals) (D : OtlpDecoders) (r : Request) (s : Store E)
      → Grown E lower s (serve_http X D E lower r s).1
  unfolding serve_http handle_traces handle_logs handle_metrics
  serve_http-Grown X D r s = elim (Bool-cases (r.path == "/v1/traces")) [
    | inl a ↦
        rw (a, serve_http)
          (handle_export_keeps X D.traces _ (Grown E lower s)
            (λ req x g. Grown-trans E lower g (store_traces-Grown E lower x req)) r s grown_none)
    | inr a ↦ elim (Bool-cases (r.path == "/v1/logs")) [
      | inl b ↦
          rw (a, b, serve_http)
            (handle_export_keeps X D.logs _ (Grown E lower s)
              (λ req x g. Grown-trans E lower g (store_logs-Grown E lower x req)) r s grown_none)
      | inr b ↦ elim (Bool-cases (r.path == "/v1/metrics")) [
        | inl c ↦
            rw (a, b, c, serve_http)
              (handle_export_keeps X D.metrics _ (Grown E lower s)
                (λ req x g. Grown-trans E lower g (store_metrics-Grown E lower x req)) r s
                grown_none)
        | inr c ↦ rw (a, b, c, serve_http) grown_none
      ]
    ]
  ]

  stored-Grown : (req : Export) (s : Store E) → Grown E lower s (stored E lower req s).2
  stored-Grown (traces req) s = rw answer_state (store_traces-Grown E lower s req)
  stored-Grown (logs req) s = rw answer_state (store_logs-Grown E lower s req)
  stored-Grown (metrics req) s = rw answer_state (store_metrics-Grown E lower s req)

  grpc_server-Grown :
      (auth_token : String) (req : Export) (call : Call) (s : Store E)
      → Grown E lower s (grpc_server E lower auth_token req call s).2
  grpc_server-Grown auth_token req call s = elim (grpc_server-cases E lower auth_token req call s) [
    | inl (_, passed) ↦ rw passed (stored-Grown req s)
    | inr (_, (reason, _, _, stopped)) ↦ rw stopped grown_none
  ]

  module _ (law : IsLawful E) (decimal : ℕ → String) where
    -- what the sweeper runs from a store
    abbrev Swept : Store E → E.Db → Type 0
    Swept s d = Reach E lower s (record s { db = d })

    sweep_age-Swept :
        (retention : ℤ) (now : ℕ) (s : Store E) → Swept s (sweep_age E decimal retention now s.db).1
    unfolding sweep_age
    sweep_age-Swept (pos zero) now s = here
    sweep_age-Swept (negsuc n) now s = here
    sweep_age-Swept (pos (suc n)) now s =
        delete_before_keeps E (Swept s) (λ t cutoff d r. next r (removes (expired t cutoff))) _ s.db
          here

    sweep_size-Swept :
        (max_size : ℤ) (s : Store E) (d : E.Db) (lines : List String) (d' : E.Db)
        → Swept s d
        → sweep_size E decimal max_size d ≡ some (lines, d')
        → Swept s d'
    unfolding sweep_size
    sweep_size-Swept (pos zero) s d lines d' r h = subst (Swept s) (ground arith) r
    sweep_size-Swept (negsuc n) s d lines d' r h = subst (Swept s) (ground arith) r
    sweep_size-Swept (pos (suc n)) s d lines d' r h =
        elim (Option-cases (enforce_max_size E (pos (suc n)) d)) [
          | inl stuck ↦ absurd (some_of_none _ (rw (stuck, sweep_size) at h))
          | inr ((counted, d''), e) ↦
              let kept =
                enforce_max_size_keeps E (Swept s) (λ t x q. next q (removes (evicted t)))
                  (λ x q. next q (removes checkpointed)) (pos (suc n)) d r in
              let kept' : Swept s d'' = rw e at kept in
              subst (Swept s) (swept_last _ _ _ _ (rw (e, sweep_size) at h)) kept'
        ]

    sweep-Swept :
        (retention max_size : ℤ) (now : ℕ) (s : Store E) (lines : List String) (d : E.Db)
        → sweep E decimal retention max_size now s.db ≡ some (lines, d)
        → Swept s d
    unfolding sweep
    sweep-Swept retention max_size now s lines d h =
        let aged = (sweep_age E decimal retention now s.db).1 in
        elim (Option-cases (sweep_size E decimal max_size aged)) [
          | inl stuck ↦ absurd (some_of_none _ (rw (stuck, sweep) at h))
          | inr ((more, d'), e) ↦
              sweep_size-Swept max_size s aged more d (sweep_age-Swept retention now s)
                (e ∙ ap (λ x. some (more, x)) (swept_last _ _ _ _ (rw (e, sweep) at h)))
        ]

    on_tick_lem :
        (sweeper : Option Sweeper) (now : ℕ) (s : Store E)
        → (a : Answer) × (u : Store E) × (on_tick E decimal sweeper now s ≡ some (a, u))
          × Reach E lower s u
    unfolding on_tick
    on_tick_lem none now s = (swept [], s, refl, here)
    on_tick_lem (some w) now s =
        let ((lines, d), aged, more, ends, _, _, _) =
          sweep_lem E law decimal w.retention w.max_size now s.db in
        (
          swept lines,
          record s { db = d },
          rw (ends, on_tick) refl,
          sweep-Swept w.retention w.max_size now s lines d ends,
        )

    -- What an event does to the store, by its kind.
    abbrev pub Changes : Event → Store E → Store E → Type 0
    Changes (ingests r) s u = Grown E lower s u
    Changes (queries r) s u = u ≡ s
    Changes (tools r) s u = u ≡ s
    Changes (exports req call) s u = Grown E lower s u
    Changes (ticks now) s u = Reach E lower s u

module _ (E : Engine) (law : IsLawful E) (W : World E) (flags : Flags) (auth_token : String)
    (first : Store E) where
  -- On a lawful engine: Each event ends. A request to the ingest server or a call of the gRPC
  -- server has run some inserts of batches, a request to the query or the MCP server has left the
  -- store as it was, and a tick has run some statements and inserts.
  pub handle_lem :
      (e : Event) (s : Store E)
      → (a : Answer) × (u : Store E) × (handle E W.decimal (running E W flags auth_token first) e s
          ≡ some (a, u))
        × Changes E W.lower law W.decimal e s u
  unfolding handle running
  handle_lem (ingests r) s = (
    _,
    _,
    refl,
    elim (with_auth-cases auth_token (ingest_handler E W flags) r s) [
      | inl passed ↦ rw passed (serve_http-Grown E W.lower W.externals W.decoders r s)
      | inr kept ↦ rw kept grown_none
    ],
  )
  handle_lem (queries r) s = (
    _,
    _,
    refl,
    elim (with_auth-cases auth_token (query_handler E W flags) r s) [
      | inl passed ↦ ap (λ p. p.1) passed
      | inr kept ↦ ap (λ p. p.1) kept
    ],
  )
  handle_lem (tools r) s = (
    _,
    _,
    refl,
    elim (with_auth-cases auth_token (mcp_handler E W flags) r s) [
      | inl passed ↦ ap (λ p. p.1) passed
      | inr kept ↦ ap (λ p. p.1) kept
    ],
  )
  handle_lem (exports req call) s = (_, _, refl, grpc_server-Grown E W.lower auth_token req call s)
  handle_lem (ticks now) s = on_tick_lem E W.lower law W.decimal (start_sweeper flags) now s
