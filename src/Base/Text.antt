-- ===== src/Base/Text.antt =====
-- Texts. A Go string is a sequence of code points here: the texts that the program reads come from
-- protobuf `string` fields, URLs and flags, which are valid UTF-8.
use Prim.Native.Char.{Char, code}
use Prim.Native.String.{String, [], ◌∷◌, ◌++◌}
use mathlib.Core.Path.{◌≡◌}
use mathlib.Core.Logic.{ite, dite}
use mathlib.Core.Bool.{Bool, true, false, Bool-discrete}
use mathlib.Core.Option.{Option, none, some}
use native.Mathlib.Omega.{arith}
use native.Mathlib.Decide.{ℕ_discrete}
use text.Mathlib.Text
use text.Mathlib.TextEquality.{eq_iff, Char-path}
use text.Mathlib.TextLemmas.{nil-append, cons-append}

-- Shut in proofs, where a split on `s == t` yields the equation or its negation.
unfoldable pub string_discrete : Discrete String
string_discrete s t =
    dite (Bool-discrete (Text.◌==◌ s t) true) (λ same. yes ((eq_iff s t).0 same))
      (λ differ. no (λ p. differ ((eq_iff s t).1 p)))

infix 50 ◌==◌
abbrev pub ◌==◌ : String → String → Bool
s == t = ite (string_discrete s t) true false

-- strings.Map
abbrev pub map_text : (Char → Char) → String → String
map_text f [] = []
map_text f (c ∷ s) = f c ∷ map_text f s

abbrev pub AllChars : (Char → Type 0) → String → Type 0
AllChars P [] = Unit
AllChars P (c ∷ s) = P c × AllChars P s

pub AllChars-map :
    (P : Char → Type 0) (f : Char → Char) (s : String)
    → ((c : Char) → P (f c))
    → AllChars P (map_text f s)
AllChars-map P f [] h = tt
AllChars-map P f (c ∷ s) h = (h c, AllChars-map P f s h)

pub AllChars-append :
    (P : Char → Type 0) (s t : String) → AllChars P s → AllChars P t → AllChars P (s ++ t)
AllChars-append P [] t _ k = rw nil-append k
AllChars-append P (c ∷ s) t (h, hs) k = rw cons-append (h, AllChars-append P s t hs k)

-- strings.CutPrefix: the rest behind the prefix
abbrev pub cut_prefix : String → String → Option String
cut_prefix s [] = some s
cut_prefix [] (d ∷ p) = none
cut_prefix (c ∷ s) (d ∷ p) =
    let rest = cut_prefix s p in ite (ℕ_discrete (code c) (code d)) rest none

pub cut_prefix_sound : (s p t : String) → cut_prefix s p ≡ some t → s ≡ p ++ t
cut_prefix_sound s [] t h = rw nil-append (cc)
cut_prefix_sound [] (d ∷ p) t h = cc
cut_prefix_sound (c ∷ s) (d ∷ p) t h = elim (ℕ_discrete (code c) (code d)) [
  | yes e ↦ rw (cons-append, Char-path c d e, cut_prefix_sound s p t (ground arith))
  | no n ↦ absurd (ground arith)
]

pub cut_prefix-append : (p t : String) → cut_prefix (p ++ t) p ≡ some t
cut_prefix-append [] t = rw nil-append
cut_prefix-append (d ∷ p) t = rw cons-append (ground (arith, cut_prefix-append p t))

-- s + t
abbrev pub concat : String → String → String
concat s t = s ++ t

pub AllChars-left : (P : Char → Type 0) (s t : String) → AllChars P (s ++ t) → AllChars P s
AllChars-left P [] t h = tt
AllChars-left P (c ∷ s) t h =
    let (here, later) = rw cons-append at h in (here, AllChars-left P s t later)
