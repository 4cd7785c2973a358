-- ===== src/Base/Strings.antt =====
-- The functions of Go's strings and unicode packages that the program calls.
use Prim.Native.String.{[], ◌∷◌, ◌++◌, count}
use text.Mathlib.TextLemmas.{nil-append, cons-append, length-cons, length-append}
use otelstore.Base.Tests.{leb, nat_eq, if◌then◌else◌, Option-cases}
use otelstore.Base.Text.{◌==◌, string_discrete, cut_prefix, cut_prefix_sound, cut_prefix-append}
use Prim.Native.Nat.{ℕ}
use Prim.Native.Char.{Char, code}
use Prim.Native.String.{String}
use mathlib.Core.Path.{◌≡◌, refl, ap}
use mathlib.Core.Logic.{◌≢◌, inl, inr}
use mathlib.Core.Bool.{Bool, true, false, ◌&&◌, ◌||◌}
use mathlib.Core.Option.{Option, none, some}
use native.Mathlib.Omega.{arith}

-- unicode.IsSpace
unfoldable pub is_space : Char → Bool
is_space ch =
    let c = code ch in
    (leb 0x09 c && leb c 0x0d)
    || nat_eq c 0x20
    || nat_eq c 0x85
    || nat_eq c 0xa0
    || nat_eq c 0x1680
    || (leb 0x2000 c && leb c 0x200a)
    || nat_eq c 0x2028
    || nat_eq c 0x2029
    || nat_eq c 0x202f
    || nat_eq c 0x205f
    || nat_eq c 0x3000

trim_left : String → String
trim_left [] = []
trim_left (c ∷ s) = let rest = trim_left s in if is_space c then rest else c ∷ s

-- a blank in front of nothing goes too
cons_trimmed : Char → String → String
cons_trimmed c [] = if is_space c then [] else c ∷ []
cons_trimmed c (d ∷ s) = c ∷ d ∷ s

trim_right : String → String
unfolding cons_trimmed
trim_right [] = []
trim_right (c ∷ s) = cons_trimmed c (trim_right s)

-- strings.TrimSpace
unfoldable pub trim_space : String → String
unfolding trim_left trim_right is_space
trim_space s = trim_right (trim_left s)

-- strings.HasPrefix
abbrev pub has_prefix : String → String → Bool
has_prefix s p = elim (cut_prefix s p) [ none ↦ false | some _ ↦ true ]

pub has_prefix_sound : (s p : String) → has_prefix s p ≡ true → (t : String) × (s ≡ p ++ t)
has_prefix_sound s p h = go (cut_prefix s p) refl h
  where
    go :
        (o : Option String)
        → cut_prefix s p ≡ o
        → elim o [ none ↦ false | some _ ↦ true ] ≡ true
        → (t : String) × (s ≡ p ++ t)
    go none e k = ground arith
    go (some t) e k = (t, cut_prefix_sound s p t e)

pub has_prefix-append : (p t : String) → has_prefix (p ++ t) p ≡ true
has_prefix-append p t = rw (cut_prefix-append p t, has_prefix) refl

-- strings.CutSuffix: the rest in front of the suffix
unfoldable pub cut_suffix : String → String → Option String
cut_suffix [] p = if [] == p then some [] else none
cut_suffix (c ∷ s) p =
    if (c ∷ s) == p then some [] else elim (cut_suffix s p) [ none ↦ none | some t ↦ some (c ∷ t) ]

pub cut_suffix_sound : (s p t : String) → cut_suffix s p ≡ some t → s ≡ t ++ p
unfolding cut_suffix
cut_suffix_sound [] p t h = elim (string_discrete [] p) [
  | yes e ↦ let t_nil : [] ≡ t = ground arith in rw (← t_nil, nil-append) e
  | no n ↦ absurd (ground arith)
]
cut_suffix_sound (c ∷ s) p t h = elim (string_discrete (c ∷ s) p) [
  | yes e ↦ let t_nil : [] ≡ t = ground arith in rw (← t_nil, nil-append) e
  | no n ↦ elim (Option-cases (cut_suffix s p)) [
    | inl missed ↦ absurd (ground arith)
    | inr (u, found) ↦
        let t_cons : c ∷ u ≡ t = ground arith in
        rw (← t_cons, cons-append, cut_suffix_sound s p u found)
  ]
]

cons-append-ne : (c : Char) (t p : String) → c ∷ (t ++ p) ≢ p
cons-append-ne c t p e =
    let counted = ap count e in omega (arith, counted, length-cons c (t ++ p), length-append t p)

pub cut_suffix-append : (t p : String) → cut_suffix (t ++ p) p ≡ some t
unfolding cut_suffix
cut_suffix-append [] [] = ground arith
cut_suffix-append [] (d ∷ p) = rw nil-append (ground arith)
cut_suffix-append (c ∷ t) p =
    rw cons-append (ground (arith, cons-append-ne c t p, cut_suffix-append t p))

-- strings.Contains(s, sep) for a text of one character
abbrev pub contains_char : ℕ → String → Bool
contains_char n [] = false
contains_char n (c ∷ s) = nat_eq (code c) n || contains_char n s
