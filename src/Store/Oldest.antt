-- ===== src/Store/Oldest.antt =====
-- Rows of which the oldest were taken away, as EnforceMaxSize of internal/store/store.go does it.
use mathlib.Core.List.Perm
use mathlib.Core.List.{Perm, append_assoc}
use otelstore.Base.{
  ℕ, zero, suc, ◌≤◌, ◌≡◌, refl, sym, ◌∙◌, Bool, false, List, [], ◌∷◌, ◌++◌, take, drop, any,
  any-append, take-append-drop, All, arith, ltb,
}
use otelstore.Base.Orders.{any-perm}
use otelstore.Sql.{IsSorted, IsEvicted}

module _ {R : Type 0} (key : R → ℕ) where
  abbrev is_newer : List R → R → Bool
  is_newer left r = any (λ l. ltb (key l) (key r)) left

  -- What is left of the rows after the oldest of them were taken away, one or many or none.
  pub record IsOldestGone (before left : List R) : Type 0 where
    pub gone : List R
    pub same : Perm (gone ++ left) before
    -- none that is gone is newer than one that is left
    pub oldest : any (is_newer left) gone ≡ false

  any_newer :
      (n : ℕ) (r : R) (rows : List R)
      → All (λ s. key r ≤ key s) rows
      → any (λ l. ltb (key l) (key r)) (drop n rows) ≡ false
  any_newer zero r [] h = refl
  any_newer zero r (s ∷ rows) (h, hs) = ground (arith, any_newer zero r rows hs)
  any_newer (suc n) r [] h = refl
  any_newer (suc n) r (s ∷ rows) (h, hs) = any_newer n r rows hs

  oldest_taken :
      (n : ℕ) (rows : List R)
      → IsSorted key rows
      → any (is_newer (drop n rows)) (take n rows) ≡ false
  oldest_taken zero rows h = refl
  oldest_taken (suc n) [] h = refl
  oldest_taken (suc n) (r ∷ rows) (h, hs) = rw (any_newer n r rows h) (oldest_taken n rows hs)

  any_fewer :
      (gone fewer more : List R)
      → ((r : R) → is_newer more r ≡ false → is_newer fewer r ≡ false)
      → any (is_newer more) gone ≡ false
      → any (is_newer fewer) gone ≡ false
  any_fewer [] fewer more sub h = refl
  any_fewer (r ∷ gone) fewer more sub h = ground (arith, sub r, any_fewer gone fewer more sub)

  any_left :
      (left left' : List R)
      → Perm left left'
      → (gone : List R) → any (is_newer left) gone ≡ false
      → any (is_newer left') gone ≡ false
  any_left left left' p gone h = any_fewer gone left' left (λ r k. sym (any-perm _ p) ∙ k) h

  pub IsEvicted-IsOldestGone :
      (n : ℕ) (before left : List R) → IsEvicted key n before left → IsOldestGone before left
  IsEvicted-IsOldestGone n before left e = record {
    gone = take n e.ordering;
    same =
        Perm.trans (Perm.append_left (take n e.ordering) e.kept)
          (rw (take-append-drop n e.ordering) e.same);
    oldest = any_left _ left (Perm.symm e.kept) _ (oldest_taken n e.ordering e.sorted);
  }

  pub IsOldestGone-none : (rows : List R) → IsOldestGone rows rows
  IsOldestGone-none rows = record { gone = []; same = Perm.refl rows; oldest = refl }

  pub IsOldestGone-trans :
      (before mid left : List R)
      → IsOldestGone before mid
      → IsOldestGone mid left
      → IsOldestGone before left
  IsOldestGone-trans before mid left a b = record {
    gone = a.gone ++ b.gone;
    same = rw append_assoc (Perm.trans (Perm.append_left a.gone b.same) a.same);
    oldest =
        let first : any (is_newer left) a.gone ≡ false =
          any_fewer a.gone left mid
            (λ r k. ground (
              arith,
              any-perm (λ l. ltb (key l) (key r)) b.same,
              any-append (λ l. ltb (key l) (key r)) b.gone left,
            ))
            a.oldest in
        rw (any-append, first) b.oldest;
  }
