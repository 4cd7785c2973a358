-- ===== src/Store/Keyed.antt =====
-- The primary key of the spans under what takes rows away: DELETE of internal/store/store.go.
use mathlib.Core.Logic.{∥∥₁_elim}
use mathlib.Core.Path.{subst}
use mathlib.Core.List.{Perm, Permᴰ}
use otelstore.Base.{
  ◌≡◌, refl, Bool, false, List, [], ◌∷◌, ◌++◌, any, keep, ◌||◌, arith, Bool-cases, inl, inr,
}
use otelstore.Base.Orders.{any_permᴰ}
use otelstore.Sql.Rows.{SpanRow, same_key}
use otelstore.Store.Batches.{IsKeyed, same_key_comm}

any-keep :
    {A : Type 0} (p q : A → Bool) (xs : List A) → any p xs ≡ false → any p (keep q xs) ≡ false
any-keep p q [] h = refl
any-keep p q (x ∷ xs) h = ground (arith, any-keep p q xs)

pub IsKeyed-keep :
    (test : SpanRow → Bool) (rows : List SpanRow) → IsKeyed rows → IsKeyed (keep test rows)
IsKeyed-keep test [] h = tt
IsKeyed-keep test (r ∷ rows) (h, hs) = elim (Bool-cases (test r)) [
  | inl kept ↦ rw kept (any-keep (same_key r) test rows h, IsKeyed-keep test rows hs)
  | inr gone ↦ rw gone (IsKeyed-keep test rows hs)
]

pub IsKeyed-right : (gone left : List SpanRow) → IsKeyed (gone ++ left) → IsKeyed left
IsKeyed-right [] left h = h
IsKeyed-right (r ∷ gone) left (h, hs) = IsKeyed-right gone left hs

IsKeyed-prop : (rows : List SpanRow) → IsProp (IsKeyed rows)
IsKeyed-prop [] = hlevel
IsKeyed-prop (r ∷ rows) = let rest = IsKeyed-prop rows in hlevel

or_shifts : (x y z : Bool) → (x || y) ≡ false → z ≡ false → ((x || z) ≡ false) × (y ≡ false)
or_shifts x y z h k = (ground arith, ground arith)

IsKeyed-swap : (a b : SpanRow) (l : List SpanRow) → IsKeyed (a ∷ b ∷ l) → IsKeyed (b ∷ a ∷ l)
IsKeyed-swap a b l (h, (k, hs)) =
    let (x, y) = or_shifts (same_key a b) (any (same_key a) l) (any (same_key b) l) h k in
    rw (same_key_comm b a) (x, (y, hs))

IsKeyed-permᴰ : {xs ys : List SpanRow} → Permᴰ xs ys → IsKeyed xs → IsKeyed ys
IsKeyed-permᴰ Permᴰ.nil h = h
IsKeyed-permᴰ (Permᴰ.cons {a} {b} {l₁} {l₂} e p) (h, hs) =
    (rw (← e, ← any_permᴰ (same_key a) p) h, IsKeyed-permᴰ p hs)
IsKeyed-permᴰ (Permᴰ.swap {a} {b} {a'} {b'} {l} e f) h =
    subst (λ y. IsKeyed (a' ∷ y ∷ l)) e (subst (λ x. IsKeyed (x ∷ a ∷ l)) f (IsKeyed-swap a b l h))
IsKeyed-permᴰ (Permᴰ.trans p q) h = IsKeyed-permᴰ q (IsKeyed-permᴰ p h)

pub IsKeyed-perm : {xs ys : List SpanRow} → Perm xs ys → IsKeyed xs → IsKeyed ys
IsKeyed-perm {ys} p h = ∥∥₁_elim p (IsKeyed-prop ys) (λ q. IsKeyed-permᴰ q h)
