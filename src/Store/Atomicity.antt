-- ===== src/Store/Atomicity.antt =====
-- The transaction of an insert of internal/store/store.go.
use mathlib.Core.List.{append-nil, append_assoc}
use otelstore.Base.{
  ◌≡◌, refl, sym, ◌∙◌, ap, Error, List, [], ◌∷◌, ◌++◌, map, Outcome, ok, err, wrap, false, arith,
  Outcome-cases, inl, inr,
}
use otelstore.Sql.{Engine, IsLawful}
use otelstore.Sql.Rows.{Table, Row, Tables, rows_of, with_rows, conflicts, spans, logs, metrics}
use otelstore.Store.Inserts.{insert_failed, insert_rows, finish, in_transaction}

pub with_rows_same : (d : Tables) (t : Table) → with_rows d t (rows_of d t) ≡ d
with_rows_same d spans = refl
with_rows_same d logs = refl
with_rows_same d metrics = refl

pub with_rows_at :
    (d : Tables) (t : Table) (rows : List (Row t)) → rows_of (with_rows d t rows) t ≡ rows
with_rows_at d spans rows = refl
with_rows_at d logs rows = refl
with_rows_at d metrics rows = refl

pub with_rows_twice :
    (d : Tables) (t : Table) (rows rows' : List (Row t))
    → with_rows (with_rows d t rows) t rows' ≡ with_rows d t rows'
with_rows_twice d spans rows rows' = refl
with_rows_twice d logs rows rows' = refl
with_rows_twice d metrics rows rows' = refl

-- Each row broke no constraint beside the rows that were there before it.
abbrev pub AreFresh : (t : Table) → List (Row t) → List (Row t) → Type 0
AreFresh t old [] = Unit
AreFresh t old (r ∷ rs) = (conflicts t r old ≡ false) × AreFresh t (old ++ r ∷ []) rs

-- What an insert of a batch has done to the tables, by its result.
abbrev pub IsStored :
    (t : Table) → List (Outcome (Row t)) → Tables → Outcome (Unit {0}) → Tables → Type 0
IsStored t made before (err e) after = after ≡ before
IsStored t made before (ok _) after =
    (rows : List (Row t)) × (made ≡ map ok rows)
    × AreFresh t (rows_of before t) rows
    × (after ≡ with_rows before t (rows_of before t ++ rows))

-- an empty batch, which the inserts return from at once
pub IsStored-nil : (t : Table) (before : Tables) → IsStored t [] before (ok tt) before
IsStored-nil t before = ([], refl, tt, rw (append-nil, with_rows_same))

module _ (E : Engine) (law : IsLawful E) where
  module _ (t : Table) (row : Row t) (made : List (Outcome (Row t))) (x : E.Tx) where
    pub insert_rows_step :
        (E.insert t row x).0 ≡ ok tt
        → insert_rows E t (ok row ∷ made) x ≡ insert_rows E t made (E.insert t row x).1
    unfolding insert_rows
    insert_rows_step h = rw (h, insert_rows)

    insert_rows_stop :
        (e : Error)
        → (E.insert t row x).0 ≡ err e
        → insert_rows E t (ok row ∷ made) x ≡ (err (wrap (insert_failed t) e), (E.insert t row x).1)
    unfolding insert_rows
    insert_rows_stop e h = rw (h, insert_rows)

    pub pending_after :
        (E.insert t row x).0 ≡ ok tt
        → rows_of (E.pending (E.insert t row x).1) t ≡ rows_of (E.pending x) t ++ row ∷ []
    pending_after done = rw (law.insert_rows t row x done, with_rows_at)

    -- what the rest has inserted stands behind the row
    stored_cons :
        (rows : List (Row t)) (after : Tables)
        → (E.insert t row x).0 ≡ ok tt
        → after
          ≡ with_rows
              (E.pending (E.insert t row x).1)
              t
              (rows_of (E.pending (E.insert t row x).1) t ++ rows)
        → after ≡ with_rows (E.pending x) t (rows_of (E.pending x) t ++ row ∷ rows)
    stored_cons rows after done h =
        rw (h, law.insert_rows t row x done, with_rows_at, with_rows_twice, append_assoc)

  insert_rows_ok :
      (t : Table) (made : List (Outcome (Row t))) (x : E.Tx)
      → (insert_rows E t made x).0 ≡ ok tt
      → (rows : List (Row t)) × (made ≡ map ok rows)
        × AreFresh t (rows_of (E.pending x) t) rows
        × (E.pending (insert_rows E t made x).1
            ≡ with_rows (E.pending x) t (rows_of (E.pending x) t ++ rows))
  insert_rows_ok t [] x h = ([], refl, tt, unfold insert_rows in rw (append-nil, with_rows_same))
  insert_rows_ok t (err e ∷ made) x h = unfold insert_rows in cc
  insert_rows_ok t (ok row ∷ made) x h = elim (Outcome-cases (E.insert t row x).0) [
    | inr (e, failed) ↦ cc (insert_rows_stop t row made x e failed)
    | inl (_, done) ↦
        let (rows, all_made, fresh, seen) =
          insert_rows_ok t made (E.insert t row x).1
            (rw (insert_rows_step t row made x done) at h) in
        (
          row ∷ rows,
          ap (◌∷◌ (ok row)) all_made,
          (law.insert_fresh t row x done, rw (pending_after t row made x done) at fresh),
          rw (insert_rows_step t row made x done) (stored_cons t row made x rows _ done seen),
        )
  ]

  insert_rows_base :
      (t : Table) (made : List (Outcome (Row t))) (x : E.Tx)
      → E.base (insert_rows E t made x).1 ≡ E.base x
  unfolding insert_rows
  insert_rows_base t [] x = refl
  insert_rows_base t (err e ∷ made) x = refl
  insert_rows_base t (ok row ∷ made) x =
      ground (arith, law.insert_base t row x, insert_rows_base t made (E.insert t row x).1)

  module _ (t : Table) (made : List (Outcome (Row t))) (d : E.Db) where
    in_transaction_unbegun :
        (e : Error)
        → E.begin d ≡ err e
        → in_transaction E t made d ≡ (err (wrap "failed to begin tx: " e), d)
    unfolding in_transaction
    in_transaction_unbegun e h = rw (h, in_transaction)

    in_transaction_unprepared :
        (x : E.Tx) (e : Error)
        → E.begin d ≡ ok x
        → E.prepare t x ≡ err e
        → in_transaction E t made d ≡ (err (wrap "failed to prepare statement: " e), E.rollback x)
    unfolding in_transaction
    in_transaction_unprepared x e h k = rw (h, k, in_transaction)

    pub in_transaction_begun :
        (x : E.Tx)
        → E.begin d ≡ ok x
        → E.prepare t x ≡ ok tt
        → in_transaction E t made d ≡ finish E t (insert_rows E t made x)
    unfolding in_transaction
    in_transaction_begun x h k = rw (h, k, in_transaction)

  finish-IsStored :
      (t : Table) (made : List (Outcome (Row t))) (x : E.Tx) (r : Outcome (Unit {0}) × E.Tx)
      → insert_rows E t made x ≡ r
      → E.pending x ≡ E.base x
      → IsStored t made (E.base x) (finish E t r).0 (E.tables (finish E t r).1)
  unfolding finish
  finish-IsStored t made x (err e, y) h began =
      law.rollback_base y ∙ ap (λ p. E.base p.1) (sym h) ∙ insert_rows_base t made x
  finish-IsStored t made x (ok _, y) h began = elim (Outcome-cases (E.commit y).0) [
    | inr (e, failed) ↦
        rw failed
          (law.commit_err y e failed ∙ ap (λ p. E.base p.1) (sym h) ∙ insert_rows_base t made x)
    | inl (_, done) ↦
        let (rows, all_made, fresh, seen) = insert_rows_ok t made x (ap (λ p. p.0) h) in
        rw done (
          rows,
          all_made,
          (rw began at fresh),
          law.commit_ok y done ∙ ap (λ p. E.pending p.1) (sym h) ∙ (rw began at seen),
        )
  ]

  pub in_transaction-IsStored :
      (t : Table) (made : List (Outcome (Row t))) (d : E.Db)
      → IsStored t made
          (E.tables d)
          (in_transaction E t made d).0
          (E.tables (in_transaction E t made d).1)
  in_transaction-IsStored t made d = elim (Outcome-cases (E.begin d)) [
    | inr (e, failed) ↦ rw (in_transaction_unbegun t made d e failed) refl
    | inl (x, begun) ↦ elim (Outcome-cases (E.prepare t x)) [
      | inr (e, failed) ↦
          rw (in_transaction_unprepared t made d x e begun failed)
            (law.rollback_base x ∙ law.begin_base d x begun)
      | inl (_, prepared) ↦
          rw (in_transaction_begun t made d x begun prepared, ← law.begin_base d x begun)
            (finish-IsStored t made x _ refl
              (law.begin_sees d x begun ∙ sym (law.begin_base d x begun)))
    ]
  ]
