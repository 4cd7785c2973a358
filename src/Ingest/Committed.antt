-- ===== src/Ingest/Committed.antt =====
-- What the walk over an export request leaves in the store, by the scope at which it ends.
use mathlib.Core.List.{append-nil, append_assoc, map-append}
use otelstore.Base.{
  ◌≡◌, refl, sym, ap, ◌∙◌, Option, List, [], ◌∷◌, ◌++◌, map, Outcome, ok, err, Error, Outcome-cases,
  inl, inr,
}
use otelstore.Value.{Resource, Scope}
use otelstore.Sql.Rows.{Table, Row, Tables, rows_of, with_rows}
use otelstore.Store.Atomicity.{IsStored, with_rows_same, with_rows_at, with_rows_twice}
use otelstore.Ingest.{ScopeGroup, ResourceGroup, walk_scopes, walk}

-- One call of an insert: what a scope holds, with its resource.
pub record Batch (A : Type 0) : Type 0 where
  pub items : List A
  pub resource : Option Resource
  pub scope : Option Scope

module _ {A : Type 0} where
  abbrev pub scope_batches : Option Resource → List (ScopeGroup A) → List (Batch A)
  scope_batches resource [] = []
  scope_batches resource (g ∷ groups) =
      record { items = g.items; resource = resource; scope = g.scope }
      ∷ scope_batches resource groups

  -- the scopes of a request, in order
  abbrev pub batches : List (ResourceGroup A) → List (Batch A)
  batches [] = []
  batches (g ∷ groups) = scope_batches g.resource g.groups ++ batches groups

-- the rows of some batches, in order
abbrev pub rows_made :
    {A R : Type 0} → (Batch A → List (Outcome R)) → List (Batch A) → List (Outcome R)
rows_made made [] = []
rows_made made (b ∷ bs) = made b ++ rows_made made bs

rows_made-append :
    {A R : Type 0} (made : Batch A → List (Outcome R)) (xs ys : List (Batch A))
    → rows_made made (xs ++ ys) ≡ rows_made made xs ++ rows_made made ys
rows_made-append made [] ys = refl
rows_made-append made (x ∷ xs) ys = rw (rows_made-append made xs ys, append_assoc) refl

-- The batches up to some point are stored, each whole, and no others; all of them if there was no
-- error.
pub record IsCommitted {A : Type 0} (t : Table) (made : Batch A → List (Outcome (Row t)))
    (sent : List (Batch A)) (before : Tables) (r : Outcome (Unit {0})) (after : Tables)
    : Type 0 where
  pub done : List (Batch A)
  pub left : List (Batch A)
  pub split : sent ≡ done ++ left
  pub rows : List (Row t)
  pub were_made : rows_made made done ≡ map ok rows
  pub stored : after ≡ with_rows before t (rows_of before t ++ rows)
  pub whole : r ≡ ok tt → left ≡ []

module _ (t : Table) where
  added_none : (d : Tables) → with_rows d t (rows_of d t ++ []) ≡ d
  added_none d = rw (append-nil, with_rows_same) refl

  added_twice :
      (d : Tables) (xs ys : List (Row t))
      → with_rows
          (with_rows d t (rows_of d t ++ xs))
          t
          (rows_of (with_rows d t (rows_of d t ++ xs)) t ++ ys)
        ≡ with_rows d t (rows_of d t ++ (xs ++ ys))
  added_twice d xs ys = rw (with_rows_at, with_rows_twice, append_assoc) refl

  module _ {A : Type 0} (made : Batch A → List (Outcome (Row t))) where
    IsCommitted-nil : (before : Tables) → IsCommitted t made [] before (ok tt) before
    IsCommitted-nil before = record {
      done = [];
      left = [];
      split = refl;
      rows = [];
      were_made = refl;
      stored = sym (added_none before);
      whole = λ h. refl;
    }

    IsCommitted-one :
        (b : Batch A) (before : Tables) (r : Outcome (Unit {0})) (after : Tables)
        → IsStored t (made b) before r after
        → IsCommitted t made (b ∷ []) before r after
    IsCommitted-one b before (err e) after h = record {
      done = [];
      left = b ∷ [];
      split = refl;
      rows = [];
      were_made = refl;
      stored = h ∙ sym (added_none before);
      whole = λ k. cc;
    }
    IsCommitted-one b before (ok _) after (rows, all_made, _, seen) = record {
      done = b ∷ [];
      left = [];
      split = refl;
      rows = rows;
      were_made = rw append-nil all_made;
      stored = seen;
      whole = λ k. refl;
    }

    IsCommitted-stop :
        (sent more : List (Batch A)) (before : Tables) (e : Error) (after : Tables)
        → IsCommitted t made sent before (err e) after
        → IsCommitted t made (sent ++ more) before (err e) after
    IsCommitted-stop sent more before e after h = record {
      done = h.done;
      left = h.left ++ more;
      split = rw (h.split, append_assoc) refl;
      rows = h.rows;
      were_made = h.were_made;
      stored = h.stored;
      whole = λ k. cc;
    }

    IsCommitted-append :
        (sent more : List (Batch A)) (before mid : Tables) (r : Outcome (Unit {0})) (after : Tables)
        → IsCommitted t made sent before (ok tt) mid
        → IsCommitted t made more mid r after
        → IsCommitted t made (sent ++ more) before r after
    IsCommitted-append sent more before mid r after h k = record {
      done = h.done ++ k.done;
      left = k.left;
      split =
          let all_done : sent ≡ h.done =
            h.split ∙ ap (λ l. h.done ++ l) (h.whole refl) ∙ append-nil h.done in
          rw (all_done, k.split, append_assoc) refl;
      rows = h.rows ++ k.rows;
      were_made =
          rows_made-append made h.done k.done ∙ rw (h.were_made, k.were_made, map-append) refl;
      stored = rw (k.stored, h.stored) (added_twice before h.rows k.rows);
      whole = k.whole;
    }

module _ {A S : Type 0} (t : Table)
    (insert : List A → Option Resource → Option Scope → S → Outcome (Unit {0}) × S)
    (tables : S → Tables) (Keeps : S → Type 0) (made : Batch A → List (Outcome (Row t)))
    (insert_kept : (b : Batch A) (s : S) → Keeps s → Keeps (insert b.items b.resource b.scope s).1)
    (insert_stored : (b : Batch A) (s : S)
      → Keeps s
      → IsStored t
          (made b)
          (tables s)
          (insert b.items b.resource b.scope s).0
          (tables (insert b.items b.resource b.scope s).1)) where
  -- what a part of the walk does
  abbrev IsWalked : List (Batch A) → S → Outcome (Unit {0}) × S → Type 0
  IsWalked sent s r = Keeps r.1 × IsCommitted t made sent (tables s) r.0 (tables r.1)

  module _ (resource : Option Resource) (g : ScopeGroup A) (groups : List (ScopeGroup A))
      (s : S) where
    scope_stops :
        (e : Error)
        → (insert g.items resource g.scope s).0 ≡ err e
        → walk_scopes insert resource (g ∷ groups) s
          ≡ (err e, (insert g.items resource g.scope s).1)
    unfolding walk_scopes
    scope_stops e h = rw (h, walk_scopes)

    scope_goes_on :
        (insert g.items resource g.scope s).0 ≡ ok tt
        → walk_scopes insert resource (g ∷ groups) s
          ≡ walk_scopes insert resource groups (insert g.items resource g.scope s).1
    unfolding walk_scopes
    scope_goes_on h = rw (h, walk_scopes)

  walk_scopes-IsWalked :
      (resource : Option Resource) (groups : List (ScopeGroup A)) (s : S)
      → Keeps s
      → IsWalked (scope_batches resource groups) s (walk_scopes insert resource groups s)
  walk_scopes-IsWalked resource [] s k =
      unfold walk_scopes in (k, IsCommitted-nil t made (tables s))
  walk_scopes-IsWalked resource (g ∷ groups) s k =
      let b : Batch A = record { items = g.items; resource = resource; scope = g.scope } in
      let k' = insert_kept b s k in
      let one = IsCommitted-one t made b _ _ _ (insert_stored b s k) in
      elim (Outcome-cases (insert g.items resource g.scope s).0) [
        | inr (e, h) ↦
            rw (scope_stops resource g groups s e h)
              (k', IsCommitted-stop t made (b ∷ []) _ _ _ _ (rw h at one))
        | inl (_, h) ↦
            let (kept, more) =
              walk_scopes-IsWalked resource groups (insert g.items resource g.scope s).1 k' in
            rw (scope_goes_on resource g groups s h) (
              kept,
              IsCommitted-append t made (b ∷ []) _ _ (tables (insert g.items resource g.scope s).1)
                  _ _ (rw h at one) more,
            )
      ]

  module _ (g : ResourceGroup A) (groups : List (ResourceGroup A)) (s : S) where
    resource_stops :
        (e : Error)
        → (walk_scopes insert g.resource g.groups s).0 ≡ err e
        → walk insert (g ∷ groups) s ≡ (err e, (walk_scopes insert g.resource g.groups s).1)
    unfolding walk
    resource_stops e h = rw (h, walk)

    resource_goes_on :
        (walk_scopes insert g.resource g.groups s).0 ≡ ok tt
        → walk insert (g ∷ groups) s
          ≡ walk insert groups (walk_scopes insert g.resource g.groups s).1
    unfolding walk
    resource_goes_on h = rw (h, walk)

  walk-IsWalked :
      (groups : List (ResourceGroup A)) (s : S)
      → Keeps s
      → IsWalked (batches groups) s (walk insert groups s)
  walk-IsWalked [] s k = unfold walk in (k, IsCommitted-nil t made (tables s))
  walk-IsWalked (g ∷ groups) s k =
      let (k', first) = walk_scopes-IsWalked g.resource g.groups s k in
      elim (Outcome-cases (walk_scopes insert g.resource g.groups s).0) [
        | inr (e, h) ↦ rw (resource_stops g groups s e h) (
          k',
          IsCommitted-stop t made (scope_batches g.resource g.groups) _ _ _ _ (rw h at first),
        )
        | inl (_, h) ↦
            let (kept, more) =
              walk-IsWalked groups (walk_scopes insert g.resource g.groups s).1 k' in
            rw (resource_goes_on g groups s h) (
              kept,
              IsCommitted-append t made (scope_batches g.resource g.groups) _ _
                  (tables (walk_scopes insert g.resource g.groups s).1) _ _ (rw h at first) more,
            )
      ]

  pub walk-IsCommitted :
      (groups : List (ResourceGroup A)) (s : S)
      → Keeps s
      → IsCommitted t made
          (batches groups)
          (tables s)
          (walk insert groups s).0
          (tables (walk insert groups s).1)
  walk-IsCommitted groups s k = let (_, committed) = walk-IsWalked groups s k in committed
