-- ===== src/Store/MaxSize.antt =====
-- The loop of EnforceMaxSize of internal/store/store.go.
use otelstore.Base.{
  ℕ, zero, suc, ◌+◌, ◌≤◌, ◌<◌, ◌≡◌, refl, ◌∙◌, true, false, Option, none, some, ok, err, Error,
  arith, Outcome-cases, ◌⊎◌, inl, inr, leb, leb→le, nat_eq, Bool-cases,
}
use otelstore.Base.Int.{pos}
use otelstore.Sql.{Engine, IsLawful}
use otelstore.Sql.Rows.{spans, logs, metrics}
use otelstore.Store.Eviction.{
  AreOldestGone, AreOldestGone-none, AreOldestGone-trans, size, smaller, Reports, IsCounted,
  evict_pass-IsPassed,
}
use otelstore.Store.Retention.{Deleted, db_size, evict_pass, evict_until, enforce_max_size}

module _ (E : Engine) where
  -- What the eviction has done when it returns: the oldest rows of each table are gone, and the
  -- number, which is `total` more than that of this call, does not exceed theirs. With no error,
  -- and if RowsAffected does not fail, it is theirs, and the database has at most the wanted size
  -- or has no rows.
  pub record IsEnforced (max_bytes total : ℕ) (d : E.Db) (r : Deleted × E.Db) : Type 0 where
    pub oldest_gone : AreOldestGone (E.tables d) (E.tables r.1)
    pub at_most : r.0.0 + size E r.1 ≤ total + size E d
    pub exact : r.0.1 ≡ none → Reports E → r.0.0 + size E r.1 ≡ total + size E d
    pub enforced :
        r.0.1 ≡ none
        → Reports E
        → ((bytes : ℕ) × (db_size E r.1 ≡ ok bytes) × (bytes ≤ max_bytes)) ⊎ (size E r.1 ≡ 0)

  module _ (law : IsLawful E) where
    fewer_rows :
        (before after : E.Db)
        → AreOldestGone (E.tables before) (E.tables after)
        → size E after ≤ size E before
    fewer_rows before after h = omega (
      arith,
      smaller E law spans before after h,
      smaller E law logs before after h,
      smaller E law metrics before after h,
    )

    module _ (max_bytes fuel total : ℕ) (d : E.Db) where
      unmeasured :
          (e : Error)
          → db_size E d ≡ err e
          → evict_until E max_bytes (suc fuel) total d ≡ some ((total, some e), d)
      unfolding evict_until
      unmeasured e h = rw (h, evict_until)

      small_enough :
          (bytes : ℕ)
          → db_size E d ≡ ok bytes
          → leb bytes max_bytes ≡ true
          → evict_until E max_bytes (suc fuel) total d ≡ some ((total, none), d)
      unfolding evict_until
      small_enough bytes h k = rw (h, k, evict_until)

      module _ (bytes : ℕ) (measured : db_size E d ≡ ok bytes)
          (too_large : leb bytes max_bytes ≡ false) where
        pass_failed :
            (e : Error)
            → (evict_pass E d).0 ≡ err e
            → evict_until E max_bytes (suc fuel) total d
              ≡ some ((total, some e), (evict_pass E d).1)
        unfolding evict_until
        pass_failed e h = rw (measured, too_large, h, evict_until)

        pass_empty :
            (n : ℕ)
            → (evict_pass E d).0 ≡ ok n
            → nat_eq n 0 ≡ true
            → evict_until E max_bytes (suc fuel) total d
              ≡ some ((total + n, none), E.checkpoint (evict_pass E d).1)
        unfolding evict_until
        pass_empty n h k = rw (measured, too_large, h, k, evict_until)

        pass_done :
            (n : ℕ)
            → (evict_pass E d).0 ≡ ok n
            → nat_eq n 0 ≡ false
            → evict_until E max_bytes (suc fuel) total d
              ≡ evict_until E max_bytes fuel (total + n) (evict_pass E d).1
        unfolding evict_until
        pass_done n h k = rw (measured, too_large, h, k, evict_until)

    IsEnforced-at_once :
        (max_bytes total : ℕ) (d : E.Db) (o : Option Error)
        → (o ≡ none → (bytes : ℕ) × (db_size E d ≡ ok bytes) × (bytes ≤ max_bytes))
        → IsEnforced max_bytes total d ((total, o), d)
    IsEnforced-at_once max_bytes total d o h = record {
      oldest_gone = AreOldestGone-none _ _ refl;
      at_most = omega arith;
      exact = λ e r. refl;
      enforced = λ e r. inl (h e);
    }

    IsEnforced-checkpoint :
        (max_bytes total n : ℕ) (d : E.Db)
        → (evict_pass E d).0 ≡ ok n
        → n ≡ 0
        → IsEnforced max_bytes total d ((total + n, none), E.checkpoint (evict_pass E d).1)
    IsEnforced-checkpoint max_bytes total n d h zero_gone =
        let (oldest, counts) = evict_pass-IsPassed E law d in
        let ((most, exact), nothing) = counts n h in
        let same = law.checkpoint_keeps (evict_pass E d).1 in
        record {
          oldest_gone = rw same oldest;
          at_most = rw same (omega arith);
          exact = λ e r. let x = exact r in rw same (omega arith);
          enforced = λ e r. inr (rw same (nothing r zero_gone));
        }

    IsEnforced-pass :
        (max_bytes total n : ℕ) (d d' : E.Db) (r : Deleted × E.Db)
        → AreOldestGone (E.tables d) (E.tables d')
        → IsCounted E n d d'
        → IsEnforced max_bytes (total + n) d' r
        → IsEnforced max_bytes total d r
    IsEnforced-pass max_bytes total n d d' r gone (most, exact) h = record {
      oldest_gone = AreOldestGone-trans _ (E.tables d') _ gone h.oldest_gone;
      at_most = omega (arith, h.at_most);
      exact = λ e reports. omega (arith, h.exact e reports, exact reports);
      enforced = h.enforced;
    }

    evict_until-IsEnforced :
        (max_bytes fuel total : ℕ) (d : E.Db)
        → size E d < fuel
        → (r : Deleted × E.Db) × (evict_until E max_bytes fuel total d ≡ some r)
          × IsEnforced max_bytes total d r
    evict_until-IsEnforced max_bytes zero total d h = absurd (omega arith)
    evict_until-IsEnforced max_bytes (suc fuel) total d h = elim (Outcome-cases (db_size E d)) [
      | inr (e, failed) ↦ (
        _,
        unmeasured max_bytes fuel total d e failed,
        IsEnforced-at_once max_bytes total d (some e) (λ k. cc),
      )
      | inl (bytes, measured) ↦ elim (Bool-cases (leb bytes max_bytes)) [
        | inl small ↦ (
          _,
          small_enough max_bytes fuel total d bytes measured small,
          IsEnforced-at_once max_bytes total d none (λ k. (bytes, measured, leb→le _ _ small)),
        )
        | inr large ↦ elim (Outcome-cases (evict_pass E d).0) [
          | inr (e, failed) ↦
              let (gone, counts) = evict_pass-IsPassed E law d in
              (
                _,
                pass_failed max_bytes fuel total d bytes measured large e failed,
                record {
                  oldest_gone = gone;
                  at_most = omega (arith, fewer_rows d _ gone);
                  exact = λ k r. cc;
                  enforced = λ k r. cc;
                },
              )
          | inl (n, passed) ↦ elim (Bool-cases (nat_eq n 0)) [
            | inl nothing ↦ (
              _,
              pass_empty max_bytes fuel total d bytes measured large n passed nothing,
              IsEnforced-checkpoint max_bytes total n d passed (ground arith),
            )
            | inr something ↦
                let (gone, counts) = evict_pass-IsPassed E law d in
                let (counted, _) = counts n passed in
                let (r, returns, is) =
                  evict_until-IsEnforced max_bytes fuel (total + n) (evict_pass E d).1
                    (ground (arith, counted.0)) in
                (
                  r,
                  pass_done max_bytes fuel total d bytes measured large n passed something
                      ∙ returns,
                  IsEnforced-pass max_bytes total n d _ r gone counted is,
                )
          ]
        ]
      ]
    ]

    -- On a lawful engine: With a positive limit EnforceMaxSize returns. The oldest rows of each
    -- table are gone, as many as the number that it returns or more. If it returns no error, and
    -- RowsAffected does not fail, the number is exact, and the database has at most the limit's
    -- size or no rows.
    pub enforce_max_size-IsEnforced :
        (max_bytes : ℕ) (d : E.Db)
        → (r : Deleted × E.Db) × (enforce_max_size E (pos (suc max_bytes)) d ≡ some r)
          × IsEnforced (suc max_bytes) 0 d r
    unfolding enforce_max_size
    enforce_max_size-IsEnforced max_bytes d =
        let positive : nat_eq (suc max_bytes) 0 ≡ false = ground arith in
        rw positive (evict_until-IsEnforced (suc max_bytes) (suc (size E d)) 0 d (omega arith))
