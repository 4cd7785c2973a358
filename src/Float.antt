-- ===== src/Float.antt =====
-- IEEE 754 doubles as the numbers that their 64 bits are: Go's conversion `float64(n)` of an
-- integer, and the test for a finite value that encoding/json makes.
pub mod Exact
use otelstore.Base.{
  ℕ, zero, suc, ◌+◌, ◌-◌, ◌*◌, ◌/◌, ◌%◌, ◌^◌, Bool, not, ◌&&◌, ◌||◌, ltb, leb, nat_eq,
  if◌then◌else◌,
}
use otelstore.Base.Int.{ℤ, pos, negsuc}

-- the position of the highest bit that is set; 64 rounds are enough for a 64-bit number
unfoldable pub highest_bit : ℕ → ℕ → ℕ
highest_bit zero n = 0
highest_bit (suc rounds) n =
    let rest = suc (highest_bit rounds (n / 2)) in if ltb n 2 then 0 else rest

-- n / 2 ^ s, rounded to the nearest integer, to the even one at a tie; s is at least 1
unfoldable pub round_half_even : ℕ → ℕ → ℕ
round_half_even n s =
    let quotient = n / 2 ^ s in
    let remainder = n % 2 ^ s in
    let half = 2 ^ (s - 1) in
    if ltb half remainder || (nat_eq remainder half && nat_eq (quotient % 2) 1)
    then quotient + 1
    else quotient

-- the 53 bits of the significand of n, whose highest bit is bit e
unfoldable pub significand : ℕ → ℕ → ℕ
unfolding round_half_even
significand n e = if leb e 52 then n * 2 ^ (52 - e) else round_half_even n (e - 52)

-- A significand that rounds up to 2 ^ 53 carries into the exponent.
unfoldable pub float64_of_nat : ℕ → ℕ
unfolding highest_bit significand
float64_of_nat zero = 0
float64_of_nat n = let e = highest_bit 64 n in (e + 1023) * 2 ^ 52 + (significand n e - 2 ^ 52)

-- float64(n)
unfoldable pub float64_of_int : ℤ → ℕ
unfolding float64_of_nat
float64_of_int (pos n) = float64_of_nat n
float64_of_int (negsuc n) = 2 ^ 63 + float64_of_nat (suc n)

-- a NaN: the exponent is all ones, and the fraction is not 0
unfoldable pub is_nan : ℕ → Bool
is_nan bits = nat_eq ((bits / 2 ^ 52) % 2048) 2047 && not (nat_eq (bits % 2 ^ 52) 0)

-- neither NaN nor an infinity: the exponent is not all ones
unfoldable pub is_finite : ℕ → Bool
is_finite bits = not (nat_eq ((bits / 2 ^ 52) % 2048) 2047)
