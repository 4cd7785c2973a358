-- ===== src/Store/Found.antt =====
-- What is among the rows that were made, and among what a query returns.
use mathlib.Core.List.Perm
use mathlib.Core.List.{Mem, Mem-prop, Memᴰ, mem-cons_self, mem-cons_of_mem}
use mathlib.Core.Logic.{∥∥₁_elim}
use otelstore.Base.{
  ℕ, ◌≡◌, sym, ap, ◌∙◌, ◌≤◌, true, Bool, Bool-cases, inl, inr, List, [], ◌∷◌, map, keep, length,
  Outcome, ok, err, Error, ok-injective,
}
use otelstore.Value.{Fields}
use otelstore.Store.Promised.{Promised}

module _ {A : Type 0} where
  Memᴰ-keep :
      (test : A → Bool) {x : A} (xs : List A) → test x ≡ true → Memᴰ x xs → Mem x (keep test xs)
  Memᴰ-keep test [] h m = elim m [ ]
  Memᴰ-keep test (y ∷ ys) h (Memᴰ.head e) =
      let passes : test y ≡ true = ap test (sym e) ∙ h in rw (passes, keep) (rw e mem-cons_self)
  Memᴰ-keep test (y ∷ ys) h (Memᴰ.tail m) = elim (Bool-cases (test y)) [
    | inl passes ↦ rw (passes, keep) (mem-cons_of_mem y (Memᴰ-keep test ys h m))
    | inr fails ↦ rw (fails, keep) (Memᴰ-keep test ys h m)
  ]

  pub Mem-keep :
      (test : A → Bool) (x : A) (xs : List A) → test x ≡ true → Mem x xs → Mem x (keep test xs)
  Mem-keep test x xs h m = ∥∥₁_elim m Mem-prop (Memᴰ-keep test xs h)

  Memᴰ-map : {B : Type 0} (f : A → B) {x : A} (xs : List A) → Memᴰ x xs → Mem (f x) (map f xs)
  Memᴰ-map f [] m = elim m [ ]
  Memᴰ-map f (y ∷ ys) (Memᴰ.head e) = rw e mem-cons_self
  Memᴰ-map f (y ∷ ys) (Memᴰ.tail m) = mem-cons_of_mem (f y) (Memᴰ-map f ys m)

  pub Mem-map : {B : Type 0} (f : A → B) (x : A) (xs : List A) → Mem x xs → Mem (f x) (map f xs)
  Mem-map f x xs m = ∥∥₁_elim m Mem-prop (Memᴰ-map f xs)

  -- what is among results that all are good
  Memᴰ-map-ok : {x : A} (xs : List A) → Memᴰ (ok x) (map ok xs) → Mem x xs
  Memᴰ-map-ok [] m = elim m [ ]
  Memᴰ-map-ok (y ∷ ys) (Memᴰ.head e) = rw (ok-injective _ _ e) mem-cons_self
  Memᴰ-map-ok (y ∷ ys) (Memᴰ.tail m) = mem-cons_of_mem y (Memᴰ-map-ok ys m)

  not-Memᴰ-map-ok : {e : Error} (xs : List A) → ¬ Memᴰ (err e) (map ok xs)
  not-Memᴰ-map-ok [] m = elim m [ ]
  not-Memᴰ-map-ok (y ∷ ys) (Memᴰ.head e) = cc
  not-Memᴰ-map-ok (y ∷ ys) (Memᴰ.tail m) = not-Memᴰ-map-ok ys m

  -- the entry of a stored row that was asked for, where the limit suffices
  pub Promised-Mem :
      (entry : A → Fields) (test : A → Bool) (key : A → ℕ) (limit : ℕ) (stored : List A)
      (entries : List Fields) (row : A)
      → Promised entry test key limit stored entries
      → Mem row stored
      → test row ≡ true
      → length (keep test stored) ≤ limit
      → Mem (entry row) entries
  Promised-Mem entry test key limit stored entries row p kept wanted few =
      let returned : Mem row p.rows =
        Perm.subset (Perm.symm (p.complete few)) row (Mem-keep test row stored wanted kept) in
      rw p.entries_of (Mem-map entry row p.rows returned)

module _ {R : Type 0} (results : List (Outcome R)) (rows : List R)
    (all_made : results ≡ map ok rows) where
  -- what is among results that all are good
  pub Mem-made :
      (result : Outcome R) (row : R) → result ≡ ok row → Mem result results → Mem row rows
  Mem-made result row makes m =
      let among : Mem result (map ok rows) = rw all_made at m in
      ∥∥₁_elim (rw makes at among) Mem-prop (Memᴰ-map-ok rows)

  pub not-made : (result : Outcome R) (e : Error) → result ≡ err e → ¬ Mem result results
  not-made result e fails m =
      let among : Mem result (map ok rows) = rw all_made at m in
      ∥∥₁_elim (rw fails at among) (λ a b. absurd a) (not-Memᴰ-map-ok rows)
