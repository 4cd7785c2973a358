-- ===== src/Query/Serving.antt =====
-- What the queries of internal/query/query.go answer.
use otelstore.Base.{
  ℕ, zero, suc, Bool-cases, leb, leb→le, ◌≤◌, String, ◌≡◌, ◌≢◌, refl, sym, ap, ◌∙◌, string_discrete,
  Option, none, some, List, Outcome, Error, Outcome-cases, ◌==◌, arith, ◌⊎◌, inl, inr,
}
use otelstore.Base.Int.{ℤ, pos, negsuc}
use otelstore.Value.{Fields}
use otelstore.Http.{Request, http_error}
use otelstore.Sql.{Engine, IsLawful}
use otelstore.Store.Inserts.{Store}
use otelstore.Store.Queries.{span_entry, log_entry, query_by_key}
use otelstore.Store.Answers.{
  LookupKey, by_trace_id, by_run_id, by_job_id, key_text, span_column, log_column, effective_limit,
}
use otelstore.Store.Promised.{Promised}
use otelstore.Store.Lookups.{lookup-Promised}
use otelstore.Query.{
  limit_or_default, parse_limit, encode, respond, both_result, not_allowed, handle_query,
}
use otelstore.Query.Numbers.{atoi}

-- The limit that a text asks for: the number that it is, if that lies between 1 and 10000, and else
-- 1000.
abbrev pub IsLimitOf : String → ℕ → Type 0
IsLimitOf limit_str n =
    (1 ≤ n)
    × (n ≤ 10000)
    × ((atoi limit_str ≡ some (pos n))
        ⊎ ((n ≡ 1000) × ((m : ℕ) → 1 ≤ m → m ≤ 10000 → atoi limit_str ≢ some (pos m))))

-- a text that is no number from 1 to 10000
limit_by_default :
    (limit_str : String)
    → (l : Option ℤ) → atoi limit_str ≡ l
    → ((m : ℕ) → 1 ≤ m → m ≤ 10000 → l ≢ some (pos m))
    → IsLimitOf limit_str 1000
limit_by_default limit_str l given h =
    (omega arith, omega arith, inr (refl, λ m low high e. h m low high (sym given ∙ e)))

parsed-IsLimitOf :
    (limit_str : String) (l : Option ℤ)
    → atoi limit_str ≡ l
    → (n : ℕ) × (limit_or_default l ≡ pos n) × IsLimitOf limit_str n
parsed-IsLimitOf limit_str none h =
    (1000, refl, limit_by_default limit_str none h (λ m low high e. cc))
parsed-IsLimitOf limit_str (some (negsuc n)) h =
    (1000, refl, limit_by_default limit_str _ h (λ m low high e. cc))
parsed-IsLimitOf limit_str (some (pos zero)) h =
    (1000, refl, limit_by_default limit_str _ h (λ m low high e. ground arith))
parsed-IsLimitOf limit_str (some (pos (suc n))) h = elim (Bool-cases (leb (suc n) 10000)) [
  | inl small ↦ (suc n, ground arith, (omega arith, leb→le _ _ small, inl h))
  | inr large ↦ (1000, ground arith, limit_by_default limit_str _ h (λ m low high e. ground arith))
]

empty_limit : atoi "" ≡ none
unfolding atoi
empty_limit = refl

effective_limit-kept : (n : ℕ) → 1 ≤ n → n ≤ 10000 → effective_limit (pos n) ≡ n
effective_limit-kept zero low high = absurd (omega arith)
effective_limit-kept (suc n) low high = omega arith

parse_limit-IsLimitOf :
    (limit_str : String)
    → (n : ℕ) × (effective_limit (parse_limit limit_str) ≡ n) × IsLimitOf limit_str n
unfolding parse_limit
parse_limit-IsLimitOf limit_str = elim (string_discrete limit_str "") [
  | yes e ↦
      let (n, is_n, limit) = parsed-IsLimitOf limit_str none (ap atoi e ∙ empty_limit) in
      let kept : parse_limit limit_str ≡ pos n = ground (arith, is_n) in
      (n, ap effective_limit kept ∙ effective_limit-kept n limit.0 limit.1, limit)
  | no given ↦
      let (n, is_n, limit) = parsed-IsLimitOf limit_str (atoi limit_str) refl in
      let kept : parse_limit limit_str ≡ pos n = ground (arith, is_n) in
      (n, ap effective_limit kept ∙ effective_limit-kept n limit.0 limit.1, limit)
]

-- the limit that the store goes by
pub effective_limit-IsLimitOf :
    (limit_str : String) → IsLimitOf limit_str (effective_limit (parse_limit limit_str))
effective_limit-IsLimitOf limit_str =
    let (n, same, asked) = parse_limit-IsLimitOf limit_str in rw same asked

-- The request names the lookup's key, and neither of the others.
abbrev pub HasOnly : LookupKey → Request → Type 0
HasOnly by_job_id r = (r.query "job_id" ≢ "") × (r.query "run_id" ≡ "") × (r.query "trace_id" ≡ "")
HasOnly by_run_id r = (r.query "job_id" ≡ "") × (r.query "run_id" ≢ "") × (r.query "trace_id" ≡ "")
HasOnly by_trace_id r =
    (r.query "job_id" ≡ "") × (r.query "run_id" ≡ "") × (r.query "trace_id" ≢ "")

module _ (E : Engine) (s : Store E) (r : Request) where
  abbrev looked_up : LookupKey → Outcome (List Fields × List Fields)
  looked_up k = query_by_key E s (key_text k) (r.query (key_text k)) (parse_limit (r.query "limit"))

  answers_only :
      (k : LookupKey)
      → r.method ≡ "GET"
      → HasOnly k r
      → handle_query E s r ≡ respond both_result (looked_up k)
  unfolding handle_query
  answers_only by_job_id get (a, b, c) = ground arith
  answers_only by_run_id get (a, b, c) = ground arith
  answers_only by_trace_id get (a, b, c) = ground arith

  refuses_method : r.method ≢ "GET" → handle_query E s r ≡ not_allowed
  unfolding handle_query
  refuses_method h = ground arith

  refuses_none :
      r.method ≡ "GET"
      → ((k : LookupKey) → ¬ HasOnly k r)
      → handle_query E s r ≡ http_error "exactly one of job_id, run_id, or trace_id required" 400
  unfolding handle_query
  refuses_none get h = ground (arith, h by_job_id, h by_run_id, h by_trace_id)

  -- /v1/query answers a request that is no GET with 405, one that does not give exactly one of
  -- job_id, run_id and trace_id with 400, and looks any other up by the one that it gives.
  pub handle_query_lem :
      (r.method ≢ "GET" → handle_query E s r ≡ not_allowed)
      × (r.method ≡ "GET"
          → ((k : LookupKey) → HasOnly k r → handle_query E s r ≡ respond both_result (looked_up k))
            × (((k : LookupKey) → ¬ HasOnly k r)
                → handle_query E s r
                  ≡ http_error "exactly one of job_id, run_id, or trace_id required" 400))
  handle_query_lem = (refuses_method, (λ get. ((λ k. answers_only k get), refuses_none get)))

  module _ (law : IsLawful E) (k : LookupKey) where
    -- On a lawful engine: A GET of /v1/query that gives exactly one key is answered with 500 and the
    -- error, or with what the encoder makes of the entries of stored spans and logs whose column has
    -- the value, in the order of their times: of all of them, or of the oldest, as many as the
    -- limit: the number that the parameter limit is, if it lies between 1 and 10000, and else 1000.
    pub handle_query-Promised :
        r.method ≡ "GET"
        → HasOnly k r
        → ((e : Error) × (handle_query E s r ≡ http_error e 500))
          ⊎ ((n : ℕ) × (ss : List Fields) × (ls : List Fields) × IsLimitOf (r.query "limit") n
              × (handle_query E s r ≡ encode (both_result (ss, ls)))
              × Promised span_entry
                  (λ x. span_column k x == r.query (key_text k))
                  (λ x. x.start_ns)
                  n
                  (E.tables s.db).span_rows
                  ss
              × Promised log_entry
                  (λ x. log_column k x == r.query (key_text k))
                  (λ x. x.time_ns)
                  n
                  (E.tables s.db).log_rows
                  ls)
    handle_query-Promised get only = elim (Outcome-cases (looked_up k)) [
      | inr (e, failed) ↦ inl (e, answers_only k get only ∙ ap (respond both_result) failed)
      | inl ((ss, ls), found) ↦
          let (n, effective, asked) = parse_limit-IsLimitOf (r.query "limit") in
          let (a, b) =
            lookup-Promised E law s k (r.query (key_text k)) (parse_limit (r.query "limit")) n ss ls
              effective found in
          inr (n, ss, ls, asked, answers_only k get only ∙ ap (respond both_result) found, a, b)
    ]
