-- ===== src/Store/Removing.antt =====
-- The statements that DeleteBefore and EnforceMaxSize of internal/store/store.go run.
use otelstore.Base.{
  ℕ, zero, suc, ◌+◌, Option, none, some, Outcome-cases, inl, inr, leb, nat_eq, Bool-cases,
}
use otelstore.Base.Int.{ℤ, pos, negsuc}
use otelstore.Sql.{Engine}
use otelstore.Sql.Rows.{Table, spans, logs, metrics}
use otelstore.Store.Retention.{
  Deleted, delete_from, delete_before, db_size, evict_from, evict_pass, evict_until,
  enforce_max_size,
}

module _ (E : Engine) (Keeps : E.Db → Type 0) where
  module _
      (deletes : (t : Table) (cutoff : ℤ) (d : E.Db)
        → Keeps d
        → Keeps (delete_from E t cutoff d).1) where
    pub delete_before_keeps : (cutoff : ℤ) (d : E.Db) → Keeps d → Keeps (delete_before E cutoff d).1
    unfolding delete_before
    delete_before_keeps cutoff d k =
        let k' = deletes spans cutoff d k in
        let k'' = deletes logs cutoff _ k' in
        let k''' = deletes metrics cutoff _ k'' in
        elim (Outcome-cases (delete_from E spans cutoff d).0) [
          | inr (e, h) ↦ rw (h, delete_before) k'
          | inl (a, h) ↦
              elim (Outcome-cases (delete_from E logs cutoff (delete_from E spans cutoff d).1).0) [
                | inr (e, l) ↦ rw (h, l, delete_before) k''
                | inl (b, l) ↦
                    elim (Outcome-cases
                      (delete_from E metrics cutoff
                        (delete_from E logs cutoff (delete_from E spans cutoff d).1).1).0) [
                          | inr (e, m) ↦ rw (h, l, m, delete_before) k'''
                          | inl (c, m) ↦ rw (h, l, m, delete_before) k'''
                        ]
              ]
        ]

  module _ (evicts : (t : Table) (d : E.Db) → Keeps d → Keeps (evict_from E t d).1)
      (checkpoints : (d : E.Db) → Keeps d → Keeps (E.checkpoint d)) where
    evict_pass_keeps : (d : E.Db) → Keeps d → Keeps (evict_pass E d).1
    unfolding evict_pass
    evict_pass_keeps d k =
        let k' = evicts spans d k in
        let k'' = evicts logs _ k' in
        let k''' = evicts metrics _ k'' in
        elim (Outcome-cases (evict_from E spans d).0) [
          | inr (e, h) ↦ rw (h, evict_pass) k'
          | inl (a, h) ↦ elim (Outcome-cases (evict_from E logs (evict_from E spans d).1).0) [
            | inr (e, l) ↦ rw (h, l, evict_pass) k''
            | inl (b, l) ↦
                elim (Outcome-cases
                  (evict_from E metrics (evict_from E logs (evict_from E spans d).1).1).0) [
                    | inr (e, m) ↦ rw (h, l, m, evict_pass) k'''
                    | inl (c, m) ↦ rw (h, l, m, evict_pass) k'''
                  ]
          ]
        ]

    -- what a run has left, if it has ended
    abbrev pub Left : Option (Deleted × E.Db) → Type 0
    Left none = Unit
    Left (some (r, d)) = Keeps d

    evict_until_keeps :
        (max_bytes fuel total : ℕ) (d : E.Db)
        → Keeps d
        → Left (evict_until E max_bytes fuel total d)
    unfolding evict_until
    evict_until_keeps max_bytes zero total d k = tt
    evict_until_keeps max_bytes (suc fuel) total d k =
        let k' = evict_pass_keeps d k in
        elim (Outcome-cases (db_size E d)) [
          | inr (e, h) ↦ rw (h, evict_until) k
          | inl (bytes, h) ↦ elim (Bool-cases (leb bytes max_bytes)) [
            | inl small ↦ rw (h, small, evict_until) k
            | inr large ↦ elim (Outcome-cases (evict_pass E d).0) [
              | inr (e, m) ↦ rw (h, large, m, evict_until) k'
              | inl (n, m) ↦ elim (Bool-cases (nat_eq n 0)) [
                | inl nothing ↦ rw (h, large, m, nothing, evict_until) (checkpoints _ k')
                | inr more ↦
                    rw (h, large, m, more, evict_until)
                      (evict_until_keeps max_bytes fuel (total + n) _ k')
              ]
            ]
          ]
        ]

    pub enforce_max_size_keeps :
        (max_bytes : ℤ) (d : E.Db) → Keeps d → Left (enforce_max_size E max_bytes d)
    unfolding enforce_max_size
    enforce_max_size_keeps (negsuc n) d k = k
    enforce_max_size_keeps (pos n) d k = elim (Bool-cases (nat_eq n 0)) [
      | inl off ↦ rw (off, enforce_max_size) k
      | inr on ↦ rw (on, enforce_max_size) (evict_until_keeps n _ 0 d k)
    ]
