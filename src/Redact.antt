-- ===== src/Redact.antt =====
-- internal/redact/redact.go: the rules that an operator gives, and what they do to an attribute
-- map. `lower` is `unicode.ToLower`, a table of the Unicode standard: `strings.ToLower` maps it
-- over a text. A nil `*Redactor` is `none`.
pub mod Matching
pub mod Applying
pub mod Rules
use otelstore.Base.{
  ℕ, zero, suc, ◌+◌, Char, code, String, Bool, true, false, ◌||◌, Option, none, some, List, [], ◌∷◌,
  ◌++◌, map, ltb, nat_eq, any, ◌==◌, if◌then◌else◌, map_text, trim_space, cut_suffix, has_prefix,
  concat,
}
use otelstore.Value.{Value, string, Fields, no_fields, field_then}

abbrev pub placeholder : Value
placeholder = string "[REDACTED]"

-- `exact` is a Go set: its order means nothing.
pub record Redactor : Type 0 where
  pub exact : List String
  pub prefixes : List String

-- r < 0x20 || r == 0x7f
abbrev pub is_control : Char → Bool
is_control c = ltb (code c) 0x20 || nat_eq (code c) 0x7f

abbrev pub mask_control : Char → Char
mask_control c = if is_control c then "_" else c

unfoldable pub sanitize_rule : String → String
sanitize_rule = map_text mask_control

-- `strings.Split(s, ",")`: a comma begins a part, any other character goes on with one
grow : Char → List String → List String
grow c [] = (String.◌∷◌ c "") ∷ []
grow c (part ∷ parts) = (String.◌∷◌ c part) ∷ parts

unfoldable pub split_comma : String → List String
unfolding grow
split_comma String.[] = "" ∷ []
split_comma (String.◌∷◌ c s) =
    let rest = split_comma s in if nat_eq (code c) b',' then "" ∷ rest else grow c rest

unfoldable pub parse_rules : String → List String
unfolding split_comma
parse_rules s = if trim_space s == "" then [] else split_comma s

-- r.exact[rule] = struct{}{}
add_exact : String → List String → List String
add_exact rule exact = if any (λ e. e == rule) exact then exact else exact ++ rule ∷ []

-- a rule that ends in "*" is a prefix
add_usable : Redactor → String → Redactor
unfolding add_exact
add_usable r rule = elim (cut_suffix rule "*") [
  | some after ↦ record r { prefixes = r.prefixes ++ after ∷ [] }
  | none ↦ record r { exact = add_exact rule r.exact }
]

abbrev pub empty_redactor : Redactor
empty_redactor = record { exact = []; prefixes = [] }

abbrev is_empty : Redactor → Bool
is_empty r = elim r.exact [ [] ↦ elim r.prefixes [ [] ↦ true | _ ↦ false ] | _ ↦ false ]

-- out = append(out, p+"*")
abbrev pub globs : List String → List String
globs = map (λ p. concat p "*")

unfoldable pub rules : Option Redactor → List String
rules none = []
rules (some r) = r.exact ++ globs r.prefixes

module _ (lower : Char → Char) where
  -- sanitizeRule(strings.ToLower(strings.TrimSpace(rule)))
  unfoldable pub normal_rule : String → String
  unfolding sanitize_rule
  normal_rule rule = sanitize_rule (map_text lower (trim_space rule))

  add_rule : Redactor → String → Redactor
  unfolding normal_rule add_usable
  add_rule r raw = let rule = normal_rule raw in if rule == "" then r else add_usable r rule

  -- the loop of `New`
  add_rules : Redactor → List String → Redactor
  unfolding add_rule
  add_rules r [] = r
  add_rules r (raw ∷ rest) = add_rules (add_rule r raw) rest

  unfoldable pub new : List String → Option Redactor
  unfolding add_rules
  new raw_rules = let r = add_rules empty_redactor raw_rules in if is_empty r then none else some r

  unfoldable pub match : Option Redactor → String → Bool
  match none key = false
  match (some r) key =
      let k = map_text lower key in
      any (λ e. e == k) r.exact || any (λ p. has_prefix k p) r.prefixes

  -- The loop of `Apply`, with the number of values that it replaces.
  redact_each : Option Redactor → Fields → Fields × ℕ
  unfolding match
  redact_each r no_fields = (no_fields, 0)
  redact_each r (field_then k v m) =
      let (m', n) = redact_each r m in
      if match r k then (field_then k placeholder m', n + 1) else (field_then k v m', n)

  unfoldable pub apply : Option Redactor → Fields → Fields × ℕ
  unfolding redact_each
  apply none attrs = (attrs, 0)
  apply (some r) attrs = redact_each (some r) attrs
