-- ===== src/Redact/Applying.antt =====
-- What `Apply` does to an attribute map: which values it replaces, and what it leaves alone.
use otelstore.Base.{
  Char, String, ◌≡◌, refl, Option, none, some, List, [], ◌∷◌, arith, length, keep, if◌then◌else◌,
}
use otelstore.Value.{Value, Fields, no_fields, field_then, lookup}
use otelstore.Redact.{Redactor, placeholder, match, redact_each, apply}

-- the keys of a map
abbrev pub keys : Fields → List String
keys no_fields = []
keys (field_then k v m) = k ∷ keys m

-- what is left of a value that is there
abbrev pub withheld : Option Value → Option Value
withheld none = none
withheld (some v) = some placeholder

module _ (lower : Char → Char) (r : Option Redactor) where
  lookup-redact_each :
      (k : String) (m : Fields)
      → lookup k (redact_each lower r m).0
        ≡ (if match lower r k then withheld (lookup k m) else lookup k m)
  unfolding redact_each lookup
  lookup-redact_each k no_fields = ground arith
  lookup-redact_each k (field_then j v m) = ground (arith, lookup-redact_each k m)

  keys-redact_each : (m : Fields) → keys (redact_each lower r m).0 ≡ keys m
  unfolding redact_each
  keys-redact_each no_fields = refl
  keys-redact_each (field_then j v m) = ground (arith, keys-redact_each m)

  count-redact_each :
      (m : Fields) → (redact_each lower r m).1 ≡ length (keep (match lower r) (keys m))
  unfolding redact_each
  count-redact_each no_fields = refl
  count-redact_each (field_then j v m) = ground (arith, count-redact_each m)

module _ (lower : Char → Char) where
  -- After `Apply` a key that matches a rule has the placeholder, if it is there at all, and every
  -- other key has the value that it had.
  pub lookup-apply :
      (r : Option Redactor) (k : String) (m : Fields)
      → lookup k (apply lower r m).0
        ≡ (if match lower r k then withheld (lookup k m) else lookup k m)
  unfolding apply match
  lookup-apply none k m = refl
  lookup-apply (some r) k m = lookup-redact_each lower (some r) k m

  keys-apply : (r : Option Redactor) (m : Fields) → keys (apply lower r m).0 ≡ keys m
  unfolding apply
  keys-apply none m = refl
  keys-apply (some r) m = keys-redact_each lower (some r) m

  no_key_matches : (ks : List String) → length (keep (match lower none) ks) ≡ 0
  unfolding match
  no_key_matches [] = refl
  no_key_matches (k ∷ ks) = no_key_matches ks

  -- `Apply` keeps all keys in place, and returns the number of those that match a rule.
  pub apply_count :
      (r : Option Redactor) (m : Fields)
      → (keys (apply lower r m).0 ≡ keys m)
        × ((apply lower r m).1 ≡ length (keep (match lower r) (keys m)))
  unfolding apply
  apply_count none m = (refl, ground (arith, no_key_matches (keys m)))
  apply_count (some r) m = (keys-redact_each lower (some r) m, count-redact_each lower (some r) m)
