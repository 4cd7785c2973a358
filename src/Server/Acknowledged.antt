-- ===== src/Server/Acknowledged.antt =====
-- What it takes for an answer of the server of cmd/otelstore/main.go to acknowledge an export request
-- of spans, over HTTP or gRPC, and what is stored then.
use mathlib.Core.List.{Mem, Mem-prop, Memᴰ, mem-append_left, mem-append_right}
use mathlib.Core.Logic.{∥∥₁_elim}
use otelstore.Base.{
  String, ◌≡◌, sym, ap, ◌∙◌, Option, some, List, [], ◌∷◌, ◌++◌, map, err, Outcome, ok, ok-injective,
  inl, inr, arith,
}
use otelstore.Http.{Request, Reply}
use otelstore.Sql.{Engine, IsLawful}
use otelstore.Sql.Rows.{SpanRow, spans, rows_of, with_rows}
use otelstore.Store.Records.{Span, span_row}
use otelstore.Store.Inserts.{Store}
use otelstore.Store.RoundTrip.{made_row, made_row-mem}
use otelstore.Store.Found.{Mem-map}
use otelstore.Ingest.{ResourceGroup, store_traces}
use otelstore.Ingest.Committed.{Batch, batches, rows_made, IsCommitted}
use otelstore.Ingest.Signals.{spans_made}
use otelstore.Receiver.{serve_http}
use otelstore.Receiver.Ingesting.{IsAccepted}
use otelstore.Receiver.Routing.{IsIngested, handle_traces-IsIngested, routes_traces}
use otelstore.Server.Config.{Flags}
use otelstore.Server.Start.{World, Running, running, ingest_handler}
use otelstore.Server.System.{
  Event, ingests, queries, tools, exports, ticks, Answer, replied, returned, swept, handle,
}
use otelstore.Server.Handled.{with_auth-cases}
use otelstore.Grpc.{Call, traces, logs, metrics, Rpc, exported, answer, grpc_server}
use otelstore.Grpc.Access.{grpc_server-cases}
use otelstore.Ingest.Signals.{store_traces-IsCommitted}
use otelstore.Receiver.Routing.{IsCommitted-whole}

-- a span of a batch, among the rows that the batches make
Memᴰ-rows_made :
    {A R : Type 0} (made : Batch A → List (Outcome R)) (bs : List (Batch A)) (b : Batch A)
    (o : Outcome R)
    → Mem o (made b)
    → Memᴰ b bs
    → Mem o (rows_made made bs)
Memᴰ-rows_made made [] b o m k = elim k [ ]
Memᴰ-rows_made made (c ∷ bs) b o m (Memᴰ.head e) = mem-append_left (rows_made made bs) (rw e at m)
Memᴰ-rows_made made (c ∷ bs) b o m (Memᴰ.tail k) =
    mem-append_right (made c) (Memᴰ-rows_made made bs b o m k)

same_replied :
    {S : Type 0} (x y : Reply) (s t : S)
    → ◌≡◌ {A = Option (Answer × S)} (some (replied x, s)) (some (replied y, t))
    → (x ≡ y) × (s ≡ t)
same_replied x y s t h = (cc, cc)

same_returned :
    {S : Type 0} (x y : Rpc) (ls ms : List String) (s t : S)
    → ◌≡◌ {A = Option (Answer × S)} (some (returned x ls, s)) (some (returned y ms, t))
    → (x ≡ y) × (s ≡ t)
same_returned x y ls ms s t h = (cc, cc)

module _ {E : Engine} (W : World E) where
  -- the answer acknowledges the request `sent`
  abbrev pub IsAcknowledged : Event → Answer → List (ResourceGroup Span) → Type 0
  IsAcknowledged (ingests r) (replied reply) sent =
      (r.path ≡ "/v1/traces")
      × (reply.response.status ≡ 200)
      × IsAccepted W.externals W.decoders.traces r sent
  IsAcknowledged (exports (traces req) call) (returned rpc lines) sent =
      (rpc ≡ exported) × (req ≡ sent)
  IsAcknowledged _ _ sent = ⊥

module _ (E : Engine) (law : IsLawful E) (W : World E) (flags : Flags) (auth_token : String)
    (first : Store E) where
  abbrev R : Running E
  R = running E W flags auth_token first

  -- a request that the ingest server has answered with 200 has reached its handler
  acknowledged :
      (r : Request) (s : Store E)
      → (R.ingest.handler r s).0.response.status ≡ 200
      → R.ingest.handler r s ≡ serve_http W.externals W.decoders E W.lower r s
  unfolding running
  acknowledged r s good = elim (with_auth-cases auth_token (ingest_handler E W flags) r s) [
    | inl passed ↦ passed
    | inr refused ↦ absurd (omega (arith, ap (λ p. p.0.response.status) refused))
  ]

  acknowledged-IsIngested :
      (r : Request) (s : Store E)
      → r.path ≡ "/v1/traces"
      → (R.ingest.handler r s).0.response.status ≡ 200
      → IsIngested W.externals W.decoders.traces spans
          (spans_made W.lower s.redactor)
          r
          (E.tables s.db)
          (E.tables (R.ingest.handler r s).1.db)
  acknowledged-IsIngested r s routed good =
      let reached =
        acknowledged r s good ∙ routes_traces W.externals W.decoders E law W.lower r s routed in
      rw reached
        (handle_traces-IsIngested W.externals W.decoders E law W.lower r s (rw reached at good))

  -- the rows of all spans of a request stand behind those of before
  abbrev AreStored : List (ResourceGroup Span) → Store E → Store E → Type 0
  AreStored sent s u =
      (rows : List SpanRow) × (rows_made (spans_made W.lower s.redactor) (batches sent)
        ≡ map ok rows)
      × (E.tables u.db ≡ with_rows (E.tables s.db) spans (rows_of (E.tables s.db) spans ++ rows))

  ingested-AreStored :
      (r : Request) (s : Store E) (sent : List (ResourceGroup Span))
      → r.path ≡ "/v1/traces"
      → (R.ingest.handler r s).0.response.status ≡ 200
      → IsAccepted W.externals W.decoders.traces r sent
      → AreStored sent s (R.ingest.handler r s).1
  ingested-AreStored r s sent routed good accepted =
      let i = acknowledged-IsIngested r s routed good in
      let same : i.req ≡ sent = ok-injective _ _ (sym i.accepted.decoded ∙ accepted.decoded) in
      (i.rows, rw (← same) i.were_made, i.stored)

  answer-AreStored_of :
      (req : List (ResourceGroup Span)) (s : Store E) (text : String)
      (p : Outcome (Unit {0}) × Store E)
      → IsCommitted spans
          (spans_made W.lower s.redactor)
          (batches req)
          (E.tables s.db)
          p.0
          (E.tables p.1.db)
      → (answer text p).0 ≡ exported
      → AreStored req s (answer text p).2
  answer-AreStored_of req s text (ok _, x) c done = IsCommitted-whole spans _ _ _ _ c
  answer-AreStored_of req s text (err e, x) c done = cc

  answer-AreStored :
      (req : List (ResourceGroup Span)) (s : Store E) (text : String)
      → (answer text (store_traces E W.lower req s)).0 ≡ exported
      → AreStored req s (answer text (store_traces E W.lower req s)).2
  answer-AreStored req s text done =
      answer-AreStored_of req s text _ (store_traces-IsCommitted E law W.lower s req) done

  exported-AreStored :
      (req : List (ResourceGroup Span)) (call : Call) (s : Store E)
      → (grpc_server E W.lower auth_token (traces req) call s).0 ≡ exported
      → AreStored req s (grpc_server E W.lower auth_token (traces req) call s).2
  exported-AreStored req call s done =
      elim (grpc_server-cases E W.lower auth_token (traces req) call s) [
        | inl (_, passed) ↦
            rw passed (answer-AreStored req s "failed to insert spans: " (rw passed at done))
        | inr (_, (reason, _, _, stopped)) ↦ let h = rw stopped at done in cc
      ]

  -- what is acknowledged is stored
  acknowledged-AreStored :
      (e : Event) (a : Answer) (sent : List (ResourceGroup Span)) (s u : Store E)
      → handle E W.decimal R e s ≡ some (a, u)
      → IsAcknowledged W e a sent
      → AreStored sent s u
  unfolding handle running
  acknowledged-AreStored (ingests r) (replied reply) sent s u h (routed, good, accepted) =
      let (x, y) = same_replied _ reply _ u h in
      rw (← y) (ingested-AreStored r s sent routed (rw x good) accepted)
  acknowledged-AreStored (exports (traces req) call) (returned rpc lines) sent s u h (done, same) =
      let (x, y) = same_returned _ rpc _ lines _ u h in
      rw (← y, ← same) (exported-AreStored req call s (x ∙ done))
  acknowledged-AreStored (ingests r) (returned rpc lines) sent s u h ack = absurd ack
  acknowledged-AreStored (ingests r) (swept lines) sent s u h ack = absurd ack
  acknowledged-AreStored (exports (traces req) call) (replied reply) sent s u h ack = absurd ack
  acknowledged-AreStored (exports (traces req) call) (swept lines) sent s u h ack = absurd ack
  acknowledged-AreStored (exports (logs req) call) a sent s u h ack = absurd ack
  acknowledged-AreStored (exports (metrics req) call) a sent s u h ack = absurd ack
  acknowledged-AreStored (queries r) a sent s u h ack = absurd ack
  acknowledged-AreStored (tools r) a sent s u h ack = absurd ack
  acknowledged-AreStored (ticks now) a sent s u h ack = absurd ack

  -- the row of each span of an acknowledged request is stored
  pub acknowledged-stored :
      (e : Event) (a : Answer) (sent : List (ResourceGroup Span)) (s u : Store E) (b : Batch Span)
      (span : Span)
      → handle E W.decimal R e s ≡ some (a, u)
      → IsAcknowledged W e a sent
      → Mem b (batches sent)
      → Mem span b.items
      → Mem (made_row W.lower s.redactor b.resource b.scope span) (E.tables u.db).span_rows
  acknowledged-stored e a sent s u b span done ack sent_in among =
      let (rows, were_made, stored) = acknowledged-AreStored e a sent s u done ack in
      let made = spans_made W.lower s.redactor in
      let o = span_row W.lower s.redactor b.resource b.scope span in
      let in_batch : Mem o (made b) = Mem-map _ span b.items among in
      let in_request : Mem o (rows_made made (batches sent)) =
        ∥∥₁_elim sent_in Mem-prop (Memᴰ-rows_made made (batches sent) b o in_batch) in
      let in_rows =
        made_row-mem W.lower s.redactor b.resource b.scope span rows (rw were_made at in_request) in
      rw stored (mem-append_right (E.tables s.db).span_rows in_rows)
