-- ===== src/Query/Numbers.antt =====
-- strconv.Atoi, for the numbers in the query strings.
use Prim.Native.String.{[], ◌∷◌}
use otelstore.Base.{
  ℕ, zero, suc, ◌+◌, ◌*◌, ◌-◌, Char, code, String, Bool, ◌&&◌, Option, none, some, leb, nat_eq,
  if◌then◌else◌,
}
use otelstore.Base.Int.{ℤ, pos, negsuc}

is_digit : Char → Bool
is_digit c = leb 0x30 (code c) && leb (code c) 0x39

digits : String → ℕ → Option ℕ
unfolding is_digit
digits [] n = some n
digits (c ∷ s) n =
    let rest = digits s (n * 10 + (code c - 0x30)) in if is_digit c then rest else none

-- at least one digit
magnitude : String → Option ℕ
unfolding digits
magnitude [] = none
magnitude (c ∷ s) = digits (c ∷ s) 0

neg : ℕ → ℤ
neg zero = pos 0
neg (suc n) = negsuc n

-- 64-bit integers; `none` is the error, of the syntax or of the range
unfoldable pub atoi : String → Option ℤ
unfolding magnitude neg
atoi [] = none
atoi (c ∷ s) =
    if nat_eq (code c) 0x2d
    then elim (magnitude s) [
      | none ↦ none
      | some n ↦ if leb n 9223372036854775808 then some (neg n) else none
    ]
    else elim (magnitude (if nat_eq (code c) 0x2b then s else c ∷ s)) [
      | none ↦ none
      | some n ↦ if leb n 9223372036854775807 then some (pos n) else none
    ]
