-- ===== src/Server/Concurrent.antt =====
-- Export requests that the receivers handle at the same time, beside the same requests one by one.
use mathlib.Core.List.{map-append}
use otelstore.Base.{
  Char, ◌≡◌, refl, sym, ◌∙◌, ap, Option, List, [], ◌∷◌, ◌++◌, map, Outcome, ok, err, Outcome-cases,
  inl, inr,
}
use otelstore.Value.{Resource, Scope}
use otelstore.Sql.{Engine, IsLawful}
use otelstore.Store.Inserts.{Store}
use otelstore.Store.Bags.{
  view, Call, span_call, log_call, metric_call, call, call_keeps_redactor, added,
}
use otelstore.Ingest.{
  ScopeGroup, ResourceGroup, walk_scopes, walk, store_traces, store_logs, store_metrics,
}
use otelstore.Ingest.Committed.{Batch, scope_batches, batches}
use otelstore.Grpc.{Export, traces, logs, metrics}
use otelstore.Server.Schedule.{
  calls, all_calls, Interleaved, flat-calls, oks-map, adds, add_each, add_each-Interleaved,
}

-- what runs first, and what runs next if it succeeds
abbrev and_then :
    {S : Type 0} → Outcome (Unit {0}) × S → (S → Outcome (Unit {0}) × S) → Outcome (Unit {0}) × S
and_then p next = elim p.0 [ err e ↦ (err e, p.1) | ok _ ↦ next p.1 ]

and_then_same :
    {S : Type 0} (p : Outcome (Unit {0}) × S) {f g : S → Outcome (Unit {0}) × S}
    → ((s : S) → f s ≡ g s)
    → and_then p f ≡ and_then p g
and_then_same (ok _, s) h = h s
and_then_same (err e, s) h = refl

and_then_assoc :
    {S : Type 0} (p : Outcome (Unit {0}) × S) (f g : S → Outcome (Unit {0}) × S)
    → and_then (and_then p f) g ≡ and_then p (λ s. and_then (f s) g)
and_then_assoc (ok _, s) f g = refl
and_then_assoc (err e, s) f g = refl

module _ (E : Engine) (lower : Char → Char) where
  -- some calls, one after the other, up to the first that fails
  unfoldable pub run_all : List Call → Store E → Outcome (Unit {0}) × Store E
  run_all [] s = (ok tt, s)
  run_all (c ∷ cs) s =
      let (r, s') = call E lower c s in
      let rest = run_all cs s' in elim r [ err e ↦ (err e, s') | ok _ ↦ rest ]

  -- some requests, one behind the other, up to the first that fails
  abbrev pub store_request : Export → Store E → Outcome (Unit {0}) × Store E
  store_request (traces sent) = store_traces E lower sent
  store_request (logs sent) = store_logs E lower sent
  store_request (metrics sent) = store_metrics E lower sent

  unfoldable pub store_requests : List Export → Store E → Outcome (Unit {0}) × Store E
  store_requests [] s = (ok tt, s)
  store_requests (r ∷ rs) s =
      let (x, s') = store_request r s in
      let rest = store_requests rs s' in elim x [ err e ↦ (err e, s') | ok _ ↦ rest ]

  run_all-append :
      (cs ds : List Call) (s : Store E)
      → run_all (cs ++ ds) s ≡ and_then (run_all cs s) (run_all ds)
  unfolding run_all
  run_all-append [] ds s = refl
  run_all-append (c ∷ cs) ds s =
      and_then_same (call E lower c s) (run_all-append cs ds)
      ∙ sym (and_then_assoc (call E lower c s) (run_all cs) (run_all ds))

  -- the walk over a request runs the inserts of its scopes
  module _ {A : Type 0} (make : List A → Option Resource → Option Scope → Call) where
    abbrev insert : List A → Option Resource → Option Scope → Store E → Outcome (Unit {0}) × Store E
    insert items resource scope = call E lower (make items resource scope)

    abbrev call_of : Batch A → Call
    call_of b = make b.items b.resource b.scope

    walk_scopes-run_all :
        (resource : Option Resource) (groups : List (ScopeGroup A)) (s : Store E)
        → walk_scopes insert resource groups s
          ≡ run_all (map call_of (scope_batches resource groups)) s
    unfolding run_all walk_scopes
    walk_scopes-run_all resource [] s = refl
    walk_scopes-run_all resource (g ∷ groups) s =
        and_then_same (insert g.items resource g.scope s) (walk_scopes-run_all resource groups)

    walk-run_all :
        (groups : List (ResourceGroup A)) (s : Store E)
        → walk insert groups s ≡ run_all (map call_of (batches groups)) s
    unfolding run_all walk
    walk-run_all [] s = refl
    walk-run_all (g ∷ groups) s =
        let own = map call_of (scope_batches g.resource g.groups) in
        ap (λ p. and_then p (walk insert groups)) (walk_scopes-run_all g.resource g.groups s)
        ∙ and_then_same (run_all own s) (walk-run_all groups)
        ∙ sym (run_all-append own (map call_of (batches groups)) s)
        ∙ ap (λ cs. run_all cs s) (sym (map-append call_of (scope_batches g.resource g.groups) _))

  store_request-run_all : (r : Export) (s : Store E) → store_request r s ≡ run_all (calls r) s
  unfolding store_traces store_logs store_metrics
  store_request-run_all (traces sent) = walk-run_all span_call sent
  store_request-run_all (logs sent) = walk-run_all log_call sent
  store_request-run_all (metrics sent) = walk-run_all metric_call sent

  store_requests-run_all :
      (rs : List Export) (s : Store E) → store_requests rs s ≡ run_all (all_calls rs) s
  unfolding run_all store_requests
  store_requests-run_all [] s = refl
  store_requests-run_all (r ∷ rs) s =
      ap (λ p. and_then p (store_requests rs)) (store_request-run_all r s)
      ∙ and_then_same (run_all (calls r) s) (store_requests-run_all rs)
      ∙ sym (run_all-append (calls r) (all_calls rs) s)

  module _ (law : IsLawful E) where
    run_all-adds :
        (cs : List Call) (s u : Store E)
        → run_all cs s ≡ (ok tt, u)
        → view (E.tables u.db) ≡ add_each lower s.redactor cs (view (E.tables s.db))
    unfolding run_all add_each adds
    run_all-adds [] s u h = ap (λ p. view (E.tables p.1.db)) (sym h)
    run_all-adds (c ∷ cs) s u h = elim (Outcome-cases (call E lower c s).0) [
      | inr (e, k) ↦ let h' = rw (run_all, k) at h in cc
      | inl (_, k) ↦
          let (rows, made, now) = added E lower law c s k in
          let h' : run_all cs (call E lower c s).1 ≡ (ok tt, u) = rw (run_all, k) at h in
          run_all-adds cs (call E lower c s).1 u h'
          ∙ rw (call_keeps_redactor E lower c s, made, oks-map rows, now) refl
    ]

    -- On a lawful engine: Let any number of export requests be handled at the same time, so that
    -- their inserts reach the database in some interleaving, and let all of these succeed. Then the
    -- store has the same bags of rows as when the requests come one after the other, if they
    -- succeed then too: what is stored does not depend on the schedule.
    pub interleaved_lem :
        (requests : List Export) (cs : List Call) (s u w : Store E)
        → Interleaved (map calls requests) cs
        → run_all cs s ≡ (ok tt, u)
        → store_requests requests s ≡ (ok tt, w)
        → view (E.tables u.db) ≡ view (E.tables w.db)
    interleaved_lem requests cs s u w i h k =
        run_all-adds cs s u h
        ∙ add_each-Interleaved lower s.redactor i (view (E.tables s.db))
        ∙ ap (λ ds. add_each lower s.redactor ds (view (E.tables s.db))) (flat-calls requests)
        ∙ sym (run_all-adds (all_calls requests) s w (sym (store_requests-run_all requests s) ∙ k))
