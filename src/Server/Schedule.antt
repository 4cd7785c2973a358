-- ===== src/Server/Schedule.antt =====
-- The inserts of export requests that are handled at the same time, in the order in which they reach
-- the database, and what they add to its bags of rows.
use mathlib.Core.List.{append_assoc}
use otelstore.Base.{
  Char, ◌≡◌, refl, sym, ◌∙◌, ap, Option, List, [], ◌∷◌, ◌++◌, map, Outcome, ok, err,
}
use otelstore.Redact.{Redactor}
use otelstore.Store.Bags.{
  Bags, add_rows, add_rows_comm, Call, span_call, log_call, metric_call, table_of, made_by,
}
use otelstore.Ingest.Committed.{batches}
use otelstore.Grpc.{Export, traces, logs, metrics}

-- the inserts of a request, in their order
abbrev pub calls : Export → List Call
calls (traces sent) = map (λ b. span_call b.items b.resource b.scope) (batches sent)
calls (logs sent) = map (λ b. log_call b.items b.resource b.scope) (batches sent)
calls (metrics sent) = map (λ b. metric_call b.items b.resource b.scope) (batches sent)

abbrev pub all_calls : List Export → List Call
all_calls [] = []
all_calls (r ∷ rs) = calls r ++ all_calls rs

-- The rest of each request, and what they do from there on: the next insert is the first of any of
-- them.
pub data Interleaved : List (List Call) → List Call → Type 0 where
  all_done : Interleaved [] []
  one_done :
      {rest : List (List Call)} {cs : List Call} → Interleaved rest cs → Interleaved ([] ∷ rest) cs
  takes :
      (front behind : List (List Call)) (c : Call) (own : List Call) {cs : List Call}
      → Interleaved (front ++ (own ∷ behind)) cs
      → Interleaved (front ++ ((c ∷ own) ∷ behind)) (c ∷ cs)

abbrev pub flat : List (List Call) → List Call
flat [] = []
flat (cs ∷ rest) = cs ++ flat rest

flat-append : (xs ys : List (List Call)) → flat (xs ++ ys) ≡ flat xs ++ flat ys
flat-append [] ys = refl
flat-append (x ∷ xs) ys = rw (flat-append xs ys, append_assoc) refl

pub flat-calls : (rs : List Export) → flat (map calls rs) ≡ all_calls rs
flat-calls [] = refl
flat-calls (r ∷ rs) = ap (λ x. calls r ++ x) (flat-calls rs)

abbrev pub oks : {A : Type 0} → List (Outcome A) → List A
oks [] = []
oks (ok x ∷ xs) = x ∷ oks xs
oks (err e ∷ xs) = oks xs

pub oks-map : {A : Type 0} (xs : List A) → oks (map ok xs) ≡ xs
oks-map [] = refl
oks-map (x ∷ xs) = ap (λ ys. x ∷ ys) (oks-map xs)

module _ (lower : Char → Char) (redactor : Option Redactor) where
  -- what a call that succeeds adds
  unfoldable pub adds : Call → Bags → Bags
  adds c = add_rows (table_of c) (oks (made_by lower redactor c))

  adds_comm : (c d : Call) (b : Bags) → adds c (adds d b) ≡ adds d (adds c b)
  unfolding adds
  adds_comm c d b = add_rows_comm (table_of c) (table_of d) _ _ b

  unfoldable pub add_each : List Call → Bags → Bags
  add_each [] b = b
  add_each (c ∷ cs) b = add_each cs (adds c b)

  add_each-middle :
      (xs : List Call) (c : Call) (ys : List Call) (b : Bags)
      → add_each (xs ++ (c ∷ ys)) b ≡ add_each (c ∷ (xs ++ ys)) b
  unfolding add_each
  add_each-middle [] c ys b = refl
  add_each-middle (x ∷ xs) c ys b =
      add_each-middle xs c ys (adds x b) ∙ ap (add_each (xs ++ ys)) (adds_comm c x b)

  pub add_each-Interleaved :
      {pool : List (List Call)} {cs : List Call}
      → Interleaved pool cs
      → (b : Bags) → add_each cs b ≡ add_each (flat pool) b
  unfolding add_each
  add_each-Interleaved all_done b = refl
  add_each-Interleaved (one_done i) b = add_each-Interleaved i b
  add_each-Interleaved (takes front behind c own i) b =
      add_each-Interleaved i (adds c b)
      ∙ ap (λ x. add_each x (adds c b)) (flat-append front (own ∷ behind))
      ∙ sym (add_each-middle (flat front) c (own ++ flat behind) b)
      ∙ ap (λ x. add_each x b) (sym (flat-append front ((c ∷ own) ∷ behind)))
