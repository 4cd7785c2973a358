-- ===== src/Base/Orders.antt =====
-- What a permutation keeps, in native numbers and Boolean searches.
use mathlib.Core.Logic.{∥∥₁_elim}
use mathlib.Core.List.{Perm, Permᴰ}
use otelstore.Base.Lists.{length, any, take, keep, All}
use Prim.Native.Nat.{ℕ, zero, suc}
use native.Mathlib.Nat.{ℕ_set}
use mathlib.Core.Path.{◌≡◌, refl, ap, ◌∙◌}
use mathlib.Core.Bool.{Bool, true, false, not, Bool-set}
use mathlib.Core.List.{List, [], ◌∷◌}
use native.Mathlib.Omega.{arith}

module _ {A : Type 0} where
  length_permᴰ : {xs ys : List A} → Permᴰ xs ys → length xs ≡ length ys
  length_permᴰ Permᴰ.nil = refl
  length_permᴰ (Permᴰ.cons e p) = ap suc (length_permᴰ p)
  length_permᴰ (Permᴰ.swap e f) = refl
  length_permᴰ (Permᴰ.trans p q) = length_permᴰ p ∙ length_permᴰ q

  pub length-perm : {xs ys : List A} → Perm xs ys → length xs ≡ length ys
  length-perm p = ∥∥₁_elim p (ℕ_set _ _) length_permᴰ

  pub any_permᴰ : (test : A → Bool) {xs ys : List A} → Permᴰ xs ys → any test xs ≡ any test ys
  any_permᴰ test Permᴰ.nil = refl
  any_permᴰ test (Permᴰ.cons e p) = rw (e, any_permᴰ test p)
  any_permᴰ test (Permᴰ.swap {a} {b} {l} e f) = rw (← e, ← f) (ground arith)
  any_permᴰ test (Permᴰ.trans p q) = any_permᴰ test p ∙ any_permᴰ test q

  pub any-perm : (test : A → Bool) {xs ys : List A} → Perm xs ys → any test xs ≡ any test ys
  any-perm test p = ∥∥₁_elim p (Bool-set _ _) (any_permᴰ test)

  -- no element fails a test
  pub any-not-keep :
      (test : A → Bool) (xs : List A) → any (λ x. not (test x)) (keep test xs) ≡ false
  any-not-keep test [] = refl
  any-not-keep test (x ∷ xs) = ground (arith, any-not-keep test xs)

  pub any-take :
      (test : A → Bool) (n : ℕ) (xs : List A) → any test xs ≡ false → any test (take n xs) ≡ false
  any-take test zero xs h = refl
  any-take test (suc n) [] h = refl
  any-take test (suc n) (x ∷ xs) h = ground (arith, any-take test n xs)

  pub All-of-none :
      (test : A → Bool) (xs : List A)
      → any (λ x. not (test x)) xs ≡ false
      → All (λ x. test x ≡ true) xs
  All-of-none test [] h = tt
  All-of-none test (x ∷ xs) h = (ground arith, All-of-none test xs (ground arith))
