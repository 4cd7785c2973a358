-- ===== src/Tests/Redaction.antt =====
-- The redactor.
use text.Mathlib.TextLemmas.{cons-ne-nil}
use otelstore.Base.{
  ◌≡◌, refl, ◌≢◌, ◌↔◌, true, false, none, [], ◌∷◌, Any, All, trim_space, string_discrete,
  cut_suffix, ℕ_discrete,
}
use otelstore.Redact.{match, new, apply, rules, parse_rules}
use otelstore.Redact.Matching.{Covers, match-new}
use otelstore.Redact.Rules.{IsPrintable, rules-new-IsPrintable}
use otelstore.Tests.Fixtures.{ascii_lower, rule_list}

redaction : Unit {0}
unfolding ℕ_discrete new match apply rules parse_rules string_discrete cut_suffix trim_space
    ascii_lower
redaction = tt

matching :
    (match ascii_lower (new ascii_lower rule_list) "authorization" ≡ true)
    × (match ascii_lower (new ascii_lower rule_list) "GEN_AI.prompt.1" ≡ true)
    × (match ascii_lower (new ascii_lower rule_list) "gen_ai.model" ≡ false)
    × (new ascii_lower (" " ∷ []) ≡ none)
unfolding redaction
matching = (refl, refl, refl, refl)

match-new_example :
    (match ascii_lower (new ascii_lower rule_list) "Authorization" ≡ true)
    ↔ Any (Covers ascii_lower "Authorization") rule_list
match-new_example = match-new ascii_lower rule_list "Authorization"

rules-new-IsPrintable_example : All IsPrintable (rules (new ascii_lower rule_list))
rules-new-IsPrintable_example = rules-new-IsPrintable ascii_lower rule_list

a_list : trim_space "a,b*" ≢ ""
unfolding trim_space
a_list = cons-ne-nil "a" ",b*"
