-- ===== src/Store/Lookups.antt =====
-- QueryByKey of internal/store/store.go, called with a key that is known.
use mathlib.Core.Path.{subst}
use text.Mathlib.TextEquality.{eq_iff}
use otelstore.Base.{ℕ, String, ◌≡◌, refl, sym, List, ok, ◌==◌, arith}
use otelstore.Base.Int.{ℤ}
use otelstore.Value.{Fields}
use otelstore.Sql.{Engine, IsLawful}
use otelstore.Store.Inserts.{Store}
use otelstore.Store.Queries.{span_entry, log_entry, query_by_key}
use otelstore.Store.Answers.{
  LookupKey, by_trace_id, by_run_id, by_job_id, key_text, span_column, log_column, effective_limit,
  query_by_key-Promised,
}
use otelstore.Store.Promised.{Promised}

key_text-injective : (k k' : LookupKey) → key_text k ≡ key_text k' → k ≡ k'
key_text-injective by_trace_id by_trace_id h = refl
key_text-injective by_run_id by_run_id h = refl
key_text-injective by_job_id by_job_id h = refl
key_text-injective by_trace_id by_run_id h = absurd (ground (arith, eq_iff "trace_id" "run_id"))
key_text-injective by_trace_id by_job_id h = absurd (ground (arith, eq_iff "trace_id" "job_id"))
key_text-injective by_run_id by_trace_id h = absurd (ground (arith, eq_iff "run_id" "trace_id"))
key_text-injective by_run_id by_job_id h = absurd (ground (arith, eq_iff "run_id" "job_id"))
key_text-injective by_job_id by_trace_id h = absurd (ground (arith, eq_iff "job_id" "trace_id"))
key_text-injective by_job_id by_run_id h = absurd (ground (arith, eq_iff "job_id" "run_id"))

-- QueryByKey at a key that is named as such
pub lookup-Promised :
    (E : Engine) (law : IsLawful E) (s : Store E) (k : LookupKey) (value : String) (limit : ℤ)
    (n : ℕ) (ss ls : List Fields)
    → effective_limit limit ≡ n
    → query_by_key E s (key_text k) value limit ≡ ok (ss, ls)
    → Promised span_entry
        (λ x. span_column k x == value)
        (λ x. x.start_ns)
        n
        (E.tables s.db).span_rows
        ss
      × Promised log_entry
          (λ x. log_column k x == value)
          (λ x. x.time_ns)
          n
          (E.tables s.db).log_rows
          ls
lookup-Promised E law s k value limit n ss ls range h =
    let (k', same_key, a, b) = query_by_key-Promised E law s (key_text k) value limit ss ls h in
    let same : k' ≡ k = sym (key_text-injective k k' same_key) in
    (
      subst
          (λ (c : LookupKey).
            Promised span_entry (λ x. span_column c x == value) (λ x. x.start_ns) n
              (E.tables s.db).span_rows ss)
          same (rw range at a),
      subst
          (λ (c : LookupKey).
            Promised log_entry (λ x. log_column c x == value) (λ x. x.time_ns) n
              (E.tables s.db).log_rows ls)
          same (rw range at b),
    )
