-- ===== src/Float/Exact.antt =====
-- Which integers `float64(n)` keeps.
use otelstore.Base.{
  ℕ, zero, suc, ◌+◌, ◌-◌, ◌*◌, ◌/◌, ◌^◌, ◌≤◌, ◌<◌, ◌≡◌, refl, sym, ◌∙◌, ap, true, Bool-cases, inl,
  inr, leb, ltb, arith,
}
use otelstore.Base.Int.{ℤ, pos, negsuc}
use otelstore.Float.{highest_bit, significand, float64_of_nat, float64_of_int}

-- the bits of the double that is n, which is positive
pub record IsDouble (n bits : ℕ) : Type 0 where
  pub exponent : ℕ
  pub fraction : ℕ
  pub small : exponent ≤ 52
  pub short : fraction < 2 ^ 52
  pub bits_are : bits ≡ (exponent + 1023) * 2 ^ 52 + fraction
  pub value : n * 2 ^ (52 - exponent) ≡ 2 ^ 52 + fraction

le→leb : (a b : ℕ) → a ≤ b → leb a b ≡ true
le→leb a b h = ground arith

pow_suc : (k : ℕ) → 2 ^ suc k ≡ 2 * 2 ^ k
pow_suc k = omega arith

highest_bit_lem :
    (rounds n : ℕ)
    → 0 < n
    → n < 2 ^ rounds
    → (2 ^ highest_bit rounds n ≤ n) × (n < 2 * 2 ^ highest_bit rounds n)
unfolding highest_bit
highest_bit_lem zero n h k = absurd (omega arith)
highest_bit_lem (suc rounds) n h k = elim (Bool-cases (ltb n 2)) [
  | inl less ↦ let two : n < 2 = ground arith in rw less (omega (arith, two), omega (arith, two))
  | inr more ↦
      let (l, u) = highest_bit_lem rounds (n / 2) (ground arith) (omega (arith, pow_suc rounds)) in
      let p = pow_suc (highest_bit rounds (n / 2)) in rw more (omega (arith, p), omega (arith, p))
]

pow_add : (a b : ℕ) → 2 ^ (a + b) ≡ 2 ^ a * 2 ^ b
pow_add zero b = let z : zero + b ≡ b = omega arith in rw z (omega arith)
pow_add (suc a) b =
    let z : suc a + b ≡ suc (a + b) = omega arith in
    rw (z, pow_suc, pow_suc, pow_add a b) (grind arith)

times_le : (a b k : ℕ) → a ≤ b → a * k ≤ b * k
times_le a b zero h = omega arith
times_le a b (suc k) h = omega (arith, times_le a b k h)

times_lt : (a b k : ℕ) → a < b → 0 < k → a * k < b * k
times_lt a b zero h p = absurd (omega arith)
times_lt a b (suc k) h p = omega (arith, times_le a b k (omega arith))

pow_positive : (k : ℕ) → 0 < 2 ^ k
pow_positive zero = omega arith
pow_positive (suc k) = omega (arith, pow_suc k, pow_positive k)

module _ (n e : ℕ) (low : 2 ^ e ≤ n) (high : n < 2 * 2 ^ e) (below : n < 2 ^ 53) where
  exponent_small : e ≤ 52
  exponent_small = elim (Bool-cases (leb e 52)) [
    | inl small ↦ ground arith
    | inr large ↦
        let past : 53 ≤ e = ground arith in
        let split : 53 + (e - 53) ≡ e = omega arith in
        let p : 2 ^ e ≡ 2 ^ 53 * 2 ^ (e - 53) = sym (ap (λ k. 2 ^ k) split) ∙ pow_add 53 (e - 53) in
        absurd (omega (arith, p, pow_positive (e - 53)))
  ]

  factor : 2 ^ e * 2 ^ (52 - e) ≡ 2 ^ 52
  factor =
      let s = exponent_small in
      let split : e + (52 - e) ≡ 52 = omega (arith, s) in
      sym (pow_add e (52 - e)) ∙ ap (λ k. 2 ^ k) split

  scaled_low : 2 ^ 52 ≤ n * 2 ^ (52 - e)
  scaled_low = omega (arith, factor, times_le (2 ^ e) n (2 ^ (52 - e)) low)

  scaled_high : n * 2 ^ (52 - e) < 2 ^ 53
  scaled_high =
      let same : 2 * 2 ^ e * 2 ^ (52 - e) ≡ 2 * (2 ^ e * 2 ^ (52 - e)) = grind arith in
      let t = times_lt n (2 * 2 ^ e) (2 ^ (52 - e)) high (pow_positive (52 - e)) in
      omega (arith, factor, same, t)

-- Every positive number below 2 ^ 53 is a double, and `float64(n)` is that.
pub float64_of_nat-IsDouble : (n : ℕ) → 0 < n → n < 2 ^ 53 → IsDouble n (float64_of_nat n)
unfolding float64_of_nat significand
float64_of_nat-IsDouble zero h below = absurd (omega arith)
float64_of_nat-IsDouble (suc m) h below =
    let n = suc m in
    let e = highest_bit 64 n in
    let (low, high) = highest_bit_lem 64 n h (omega arith) in
    let small = exponent_small n e low high below in
    let fits : leb e 52 ≡ true = le→leb e 52 small in
    let least = scaled_low n e low high below in
    record {
      exponent = e;
      fraction = n * 2 ^ (52 - e) - 2 ^ 52;
      small = small;
      short = omega (arith, least, scaled_high n e low high below);
      bits_are = rw (fits, significand) refl;
      value = omega (arith, least);
    }

-- The same for a whole number, whose sign is the highest bit.
abbrev pub IsDoubleOf : ℤ → ℕ → Type 0
IsDoubleOf (pos zero) bits = bits ≡ 0
IsDoubleOf (pos (suc n)) bits = IsDouble (suc n) bits
IsDoubleOf (negsuc n) bits = (b : ℕ) × (bits ≡ 2 ^ 63 + b) × IsDouble (suc n) b

abbrev pub magnitude : ℤ → ℕ
magnitude (pos n) = n
magnitude (negsuc n) = suc n

pub float64_of_int-IsDoubleOf : (n : ℤ) → magnitude n < 2 ^ 53 → IsDoubleOf n (float64_of_int n)
unfolding float64_of_int
float64_of_int-IsDoubleOf (pos zero) below = unfold float64_of_nat in refl
float64_of_int-IsDoubleOf (pos (suc n)) below = float64_of_nat-IsDouble (suc n) (omega arith) below
float64_of_int-IsDoubleOf (negsuc n) below =
    (float64_of_nat (suc n), refl, float64_of_nat-IsDouble (suc n) (omega arith) below)
