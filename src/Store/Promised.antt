-- ===== src/Store/Promised.antt =====
-- What a query of internal/store/store.go can promise of its entries.
use mathlib.Core.List.{Perm}
use otelstore.Base.{
  ℕ, zero, suc, ◌≤◌, min, ◌≡◌, refl, ap, ◌∙◌, Bool, true, List, [], ◌∷◌, ◌++◌, map, keep, length,
  drop, length-take, take, take_of_length-le, All, ok, arith,
}
use otelstore.Base.Orders.{length-perm, any-perm, any-not-keep, any-take, All-of-none}
use otelstore.Base.Int.{pos}
use otelstore.Value.{Fields}
use otelstore.Sql.{IsSorted, IsAnswer, Fetched, fetched, columns_error, scan_error, rows_error}
use otelstore.Store.Queries.{scan}

-- What a caller is promised of a query over `stored` rows.
pub record Promised {R : Type 0} (entry : R → Fields) (test : R → Bool) (key : R → ℕ) (limit : ℕ)
    (stored : List R) (entries : List Fields) : Type 0 where
  pub rows : List R
  -- they are the entries of rows that were asked for, in ascending order
  pub entries_of : entries ≡ map entry rows
  pub asked_for : All (λ r. test r ≡ true) rows
  pub ascending : IsSorted key rows
  -- as many as there are, or the limit
  pub number : length rows ≡ min limit (length (keep test stored))
  -- with those left out they are the stored rows that were asked for, each as often as it is stored
  pub rest : List R
  pub split : Perm (rows ++ rest) (keep test stored)
  -- and none that is left out is older than one that is returned
  pub oldest : IsSorted key (rows ++ rest)
  -- all of them, where the limit suffices
  pub complete : length (keep test stored) ≤ limit → Perm rows (keep test stored)

module _ {R : Type 0} where
  All-take : (P : R → Type 0) (n : ℕ) (rows : List R) → All P rows → All P (take n rows)
  All-take P zero rows h = tt
  All-take P (suc n) [] h = tt
  All-take P (suc n) (r ∷ rows) (h, hs) = (h, All-take P n rows hs)

  take-IsSorted :
      (key : R → ℕ) (n : ℕ) (rows : List R) → IsSorted key rows → IsSorted key (take n rows)
  take-IsSorted key zero rows h = tt
  take-IsSorted key (suc n) [] h = tt
  take-IsSorted key (suc n) (r ∷ rows) (h, hs) = (All-take _ n rows h, take-IsSorted key n rows hs)

  take_append_drop : (n : ℕ) (rows : List R) → take n rows ++ drop n rows ≡ rows
  take_append_drop zero rows = refl
  take_append_drop (suc n) [] = refl
  take_append_drop (suc n) (r ∷ rows) = ap (λ rs. r ∷ rs) (take_append_drop n rows)

  pub IsAnswer-Promised :
      (entry : R → Fields) (test : R → Bool) (key : R → ℕ) (n : ℕ) (stored rows : List R)
      → IsAnswer (record { condition = test; order_by = key; limit = pos n }) stored rows
      → Promised entry test key n stored (map entry rows)
  IsAnswer-Promised entry test key n stored rows a = record {
    rows = take n a.ordering;
    entries_of = ap (map entry) a.cut;
    asked_for =
        All-of-none test _ (any-take _ n a.ordering (any-perm _ a.same ∙ any-not-keep test stored));
    ascending = take-IsSorted key n a.ordering a.sorted;
    number = length-take n a.ordering ∙ ap (min n) (length-perm a.same);
    rest = drop n a.ordering;
    split = rw (take_append_drop n a.ordering) a.same;
    oldest = rw (take_append_drop n a.ordering) a.sorted;
    complete = λ h. rw (take_of_length-le n a.ordering (omega (arith, length-perm a.same))) a.same;
  }

  pub scan-eq-ok :
      (entry : R → Fields) (f : Fetched R) (es : List Fields)
      → scan entry f ≡ ok es
      → (rows : List R) × (f ≡ fetched rows) × (es ≡ map entry rows)
  unfolding scan
  scan-eq-ok entry (fetched rows) es h = (rows, refl, cc)
  scan-eq-ok entry (columns_error e) es h = cc
  scan-eq-ok entry (scan_error e) es h = cc
  scan-eq-ok entry (rows_error e) es h = cc
