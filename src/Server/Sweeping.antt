-- ===== src/Server/Sweeping.antt =====
-- What a tick of the retention sweeper of cmd/otelstore/main.go does.
use otelstore.Base.{
  ℕ, zero, suc, ◌+◌, ◌≤◌, ◌<◌, String, ◌≡◌, refl, ap, none, some, List, [], ◌∷◌, ◌++◌, ◌⊎◌, inl,
  inr, Error, concat, arith,
}
use otelstore.Sql.Rows.{spans, logs, metrics}
use otelstore.Base.Int.{ℤ, pos, negsuc}
use otelstore.Sql.{Engine, IsLawful}
use otelstore.Store.Retention.{Deleted, delete_before, enforce_max_size}
use otelstore.Store.Expiry.{
  IsPartly, all_unexpired, expired_count, delete_before_complete, delete_before-IsPartly,
}
use otelstore.Store.MaxSize.{IsEnforced, enforce_max_size-IsEnforced}
use otelstore.Server.Sweep.{
  minute, hour, min_duration, sweep_interval, cutoff, report, sweep_age, sweep_size, sweep,
}

-- For a retention that is not negative the period of the sweeper is at most an hour; it is a minute
-- where the retention is 0, and at least 1 ns where it is at least 10 ns. Where the retention is
-- positive and below 10 ns the period is 0, for which `time.NewTicker` panics.
pub sweep_interval_bounds :
    (n : ℕ)
    → (sweep_interval (pos n) ≤ hour)
      × (n ≡ 0 → sweep_interval (pos n) ≡ minute)
      × (10 ≤ n → 0 < sweep_interval (pos n))
      × (0 < n → n < 10 → sweep_interval (pos n) ≡ 0)
unfolding sweep_interval min_duration
sweep_interval_bounds zero =
    (omega arith, (λ h. refl), (λ h. omega arith), (λ h k. absurd (omega arith)))
sweep_interval_bounds (suc n) =
    (ground arith, (λ h. absurd (omega arith)), (λ h. ground arith), (λ h k. ground arith))

-- The lines for what a guard returned: one with the error, or one with the number of rows, or none
-- if no row is gone.
abbrev pub IsReported : (ℕ → String) → String → String → Deleted → List String → Type 0
IsReported decimal failed did r lines =
    ((e : Error) × (r.1 ≡ some e) × (lines ≡ concat failed e ∷ []))
    ⊎ ((r ≡ (0, none)) × (lines ≡ []))
    ⊎ ((n : ℕ) × (0 < n) × (r ≡ (n, none)) × (lines ≡ concat did (concat (decimal n) " rows") ∷ []))

report-IsReported :
    (decimal : ℕ → String) (failed did : String) (r : Deleted)
    → IsReported decimal failed did r (report decimal failed did r)
report-IsReported decimal failed did (n, some e) = inl (e, refl, refl)
report-IsReported decimal failed did (zero, none) = inr (inl (refl, refl))
report-IsReported decimal failed did (suc n, none) = inr (inr (suc n, omega arith, refl, refl))

module _ (E : Engine) (decimal : ℕ → String) where
  -- What the guard of the age has done, which is nothing if it is off: it has run DeleteBefore, which
  -- has taken away exactly the expired rows, or has failed and let some tables as they were.
  pub record AgeGuard (c : ℤ) (d : E.Db) (lines : List String) (d' : E.Db) : Type 0 where
    pub result : Deleted
    pub ran : delete_before E c d ≡ (result, d')
    pub reported :
        IsReported decimal "Retention (age) error: " "Retention (age): deleted " result lines
    pub gone :
        ((result.1 ≡ none)
          × (E.tables d' ≡ all_unexpired c (E.tables d))
          × (result.0
              ≡ expired_count c spans (E.tables d)
                + expired_count c logs (E.tables d)
                + expired_count c metrics (E.tables d)))
        ⊎ ((e : Error) × (result ≡ (0, some e)))
    pub partly : IsPartly c (E.tables d) (E.tables d')

  abbrev pub IsAged : ℤ → ℕ → E.Db → List String → E.Db → Type 0
  IsAged (pos zero) now d lines d' = (lines ≡ []) × (d' ≡ d)
  IsAged (negsuc n) now d lines d' = (lines ≡ []) × (d' ≡ d)
  IsAged (pos (suc n)) now d lines d' = AgeGuard (cutoff now (suc n)) d lines d'

  -- the same for the guard of the size, which runs EnforceMaxSize
  pub record SizeGuard (n : ℕ) (d : E.Db) (lines : List String) (d' : E.Db) : Type 0 where
    pub result : Deleted
    pub ran : enforce_max_size E (pos (suc n)) d ≡ some (result, d')
    pub reported :
        IsReported decimal "Retention (size) error: " "Retention (size): evicted " result lines
    pub enforced : IsEnforced E (suc n) 0 d (result, d')

  abbrev pub IsSized : ℤ → E.Db → List String → E.Db → Type 0
  IsSized (pos zero) d lines d' = (lines ≡ []) × (d' ≡ d)
  IsSized (negsuc n) d lines d' = (lines ≡ []) × (d' ≡ d)
  IsSized (pos (suc n)) d lines d' = SizeGuard n d lines d'

module _ (E : Engine) (law : IsLawful E) (decimal : ℕ → String) where
  -- DeleteBefore returns what is gone, or an error
  age_outcome :
      (c : ℤ) (d : E.Db) (r : Deleted)
      → (delete_before E c d).0 ≡ r
      → ((r.1 ≡ none)
          × (E.tables (delete_before E c d).1 ≡ all_unexpired c (E.tables d))
          × (r.0
              ≡ expired_count c spans (E.tables d)
                + expired_count c logs (E.tables d)
                + expired_count c metrics (E.tables d)))
        ⊎ ((e : Error) × (r ≡ (0, some e)))
  age_outcome c d (n, none) h =
      let (gone, count) = (delete_before_complete E law c d n).0 h in inl (refl, gone, count)
  age_outcome c d (n, some e) h =
      let none_gone = (delete_before_complete E law c d n).1 e h in
      inr (e, ap (λ k. (k, some e)) none_gone)

  sweep_age-IsAged :
      (retention : ℤ) (now : ℕ) (d : E.Db)
      → IsAged E decimal retention now d
          (sweep_age E decimal retention now d).0
          (sweep_age E decimal retention now d).1
  unfolding sweep_age
  sweep_age-IsAged (pos zero) now d = (refl, refl)
  sweep_age-IsAged (negsuc n) now d = (refl, refl)
  sweep_age-IsAged (pos (suc n)) now d = record {
    result = (delete_before E (cutoff now (suc n)) d).0;
    ran = refl;
    reported = report-IsReported decimal _ _ _;
    gone = age_outcome (cutoff now (suc n)) d _ refl;
    partly = delete_before-IsPartly E law (cutoff now (suc n)) d;
  }

  sweep_size-IsSized :
      (max_size : ℤ) (d : E.Db)
      → (r : List String × E.Db) × (sweep_size E decimal max_size d ≡ some r)
        × IsSized E decimal max_size d r.0 r.1
  unfolding sweep_size
  sweep_size-IsSized (pos zero) d = (_, refl, (refl, refl))
  sweep_size-IsSized (negsuc n) d = (_, refl, (refl, refl))
  sweep_size-IsSized (pos (suc n)) d =
      let ((r, d'), returns, enforced) = enforce_max_size-IsEnforced E law n d in
      (
        (report decimal "Retention (size) error: " "Retention (size): evicted " r, d'),
        rw (returns, sweep_size) refl,
        record {
          result = r;
          ran = returns;
          reported = report-IsReported decimal _ _ r;
          enforced = enforced;
        },
      )

  pub sweep_lem :
      (retention max_size : ℤ) (now : ℕ) (d : E.Db)
      → (r : List String × E.Db) × (aged : List String × E.Db) × (more : List String) × (sweep E
            decimal retention max_size now d
          ≡ some r)
        × (r.0 ≡ aged.0 ++ more)
        × IsAged E decimal retention now d aged.0 aged.1
        × IsSized E decimal max_size aged.1 more r.1
  unfolding sweep
  sweep_lem retention max_size now d =
      let aged = sweep_age E decimal retention now d in
      let ((lines, d'), returns, sized) = sweep_size-IsSized max_size aged.1 in
      (
        (aged.0 ++ lines, d'),
        aged,
        lines,
        rw (returns, sweep) refl,
        refl,
        sweep_age-IsAged retention now d,
        sized,
      )
