-- ===== src/Base/Errors.antt =====
-- Go's `(value, error)` results. An error is its message; `fmt.Errorf("…: %w", err)` puts its text
-- in front of the message of the error that it wraps.
use Prim.Native.String.{String, ◌++◌}
use mathlib.Core.Path.{◌≡◌, refl}
use mathlib.Core.Logic.{◌⊎◌, inl, inr}

pub data Outcome {ℓ} (A : Type ℓ) : Type ℓ where
  ok : A → Outcome A
  err : String → Outcome A

abbrev pub Error : Type 0
Error = String

abbrev pub wrap : String → Error → Error
wrap text e = text ++ e

infixl 5 ◌>>=◌ ◌>>◌
abbrev pub ◌>>=◌ {ℓ κ} : {A : Type ℓ} {B : Type κ} → Outcome A → (A → Outcome B) → Outcome B
ok a >>= f = f a
err e >>= f = err e

abbrev pub ◌>>◌ {ℓ κ} : {A : Type ℓ} {B : Type κ} → Outcome A → Outcome B → Outcome B
m >> k = m >>= λ _. k

-- `if err != nil { return …, fmt.Errorf("text: %w", err) }`
abbrev pub or_wrap {ℓ} : {A : Type ℓ} → String → Outcome A → Outcome A
or_wrap text (ok a) = ok a
or_wrap text (err e) = err (wrap text e)

pub Outcome-cases {ℓ} :
    {A : Type ℓ} (r : Outcome A) → ((a : A) × (r ≡ ok a)) ⊎ ((e : Error) × (r ≡ err e))
Outcome-cases (ok a) = inl (a, refl)
Outcome-cases (err e) = inr (e, refl)

pub ok-injective {ℓ} : {A : Type ℓ} (a b : A) → ok a ≡ ok b → a ≡ b
ok-injective a b h = cc

-- inversion of a successful bind
pub >>=-eq-ok {ℓ κ} :
    {A : Type ℓ} {B : Type κ} (r : Outcome A) (next : A → Outcome B) {v : B}
    → (r >>= next) ≡ ok v
    → (u : A) × (r ≡ ok u) × (next u ≡ ok v)
>>=-eq-ok (err text) next same = cc
>>=-eq-ok (ok u) next same = (u, refl, same)

pub or_wrap-eq-ok {ℓ} :
    {A : Type ℓ} (text : String) (r : Outcome A) {a : A} → or_wrap text r ≡ ok a → r ≡ ok a
or_wrap-eq-ok text (ok b) h = h
or_wrap-eq-ok text (err e) h = cc
