-- ===== src/Redact/Matching.antt =====
-- When `Match` is true of the redactor that `New` builds, rule by rule.
use otelstore.Base.{
  Char, String, ◌≡◌, ◌≢◌, ◌↔◌, Bool, true, false, ◌||◌, none, some, List, [], ◌∷◌, ap, arith, any,
  any-append, Any, ◌==◌, if◌then◌else◌, map_text, cut_suffix, cut_suffix_sound, cut_suffix-append,
  has_prefix, has_prefix_sound, has_prefix-append, concat, Bool-cases, Option-cases, inl, inr,
}
use text.Mathlib.TextLemmas.{append-ne-nil_of_right_ne-nil, cons-ne-nil}
use otelstore.Redact.{
  Redactor, add_exact, add_usable, empty_redactor, is_empty, normal_rule, add_rule, add_rules, new,
  match,
}

-- A rule covers a key: it is a glob whose part before the "*" begins the key, or it is no glob, not
-- blank, and the key itself, both in lower case.
pub data Covers (lower : Char → Char) (key raw : String) : Type 0 where
  by_prefix :
      (p rest : String)
      → normal_rule lower raw ≡ concat p "*"
      → map_text lower key ≡ concat p rest
      → Covers lower key raw
  by_name :
      normal_rule lower raw ≡ map_text lower key
      → normal_rule lower raw ≢ ""
      → ((p : String) → normal_rule lower raw ≢ concat p "*")
      → Covers lower key raw

any-add_exact :
    (k rule : String) (exact : List String)
    → any (λ e. e == k) (add_exact rule exact) ≡ (any (λ e. e == k) exact || rule == k)
unfolding add_exact
any-add_exact k rule exact = elim (Bool-cases (any (λ e. e == rule) exact)) [
  | inl old ↦ rw old (already exact old)
  | inr new ↦ rw new (rw (any-append (λ e. e == k) exact (rule ∷ [])) (ground arith))
]
  where
    already :
        (es : List String)
        → any (λ e. e == rule) es ≡ true
        → any (λ e. e == k) es ≡ (any (λ e. e == k) es || rule == k)
    already [] h = cc
    already (e ∷ es) h = ground (arith, already es)

glob-ne-blank : (p : String) → concat p "*" ≢ ""
glob-ne-blank p = append-ne-nil_of_right_ne-nil p (cons-ne-nil "*" "")

module _ (lower : Char → Char) (key : String) where
  covers : String → Bool
  covers raw =
      let rule = normal_rule lower raw in
      let k = map_text lower key in
      if rule == ""
      then false
      else elim (cut_suffix rule "*") [ some p ↦ has_prefix k p | none ↦ rule == k ]

  match-add_rule :
      (r : Redactor) (raw : String)
      → match lower (some (add_rule lower r raw)) key ≡ (match lower (some r) key || covers raw)
  unfolding add_rule add_usable match covers
  match-add_rule r raw = elim (Option-cases (cut_suffix (normal_rule lower raw) "*")) [
    | inl plain ↦ ground (arith, any-add_exact (map_text lower key) (normal_rule lower raw) r.exact)
    | inr (p, glob) ↦
        ground (
          arith,
          any-append (λ (q : String). has_prefix (map_text lower key) q) r.prefixes (p ∷ []),
        )
  ]

  match-add_rules :
      (r : Redactor) (raws : List String)
      → match lower (some (add_rules lower r raws)) key
        ≡ (match lower (some r) key || any covers raws)
  unfolding add_rules
  match-add_rules r [] = ground arith
  match-add_rules r (raw ∷ raws) =
      ground (arith, match-add_rules (add_rule lower r raw) raws, match-add_rule r raw)

  match_of_is_empty : (r : Redactor) → is_empty r ≡ true → match lower (some r) key ≡ false
  unfolding match
  match_of_is_empty r h = ground arith

  match-new_lem : (raws : List String) → match lower (new lower raws) key ≡ any covers raws
  unfolding new match
  match-new_lem raws = elim (Bool-cases (is_empty (add_rules lower empty_redactor raws))) [
    | inl nothing ↦ ground (
      arith,
      match_of_is_empty (add_rules lower empty_redactor raws),
      match-add_rules empty_redactor raws,
    )
    | inr something ↦ ground (arith, match-add_rules empty_redactor raws)
  ]

  covers_sound : (raw : String) → covers raw ≡ true → Covers lower key raw
  unfolding covers
  covers_sound raw h = elim (Option-cases (cut_suffix (normal_rule lower raw) "*")) [
    | inl plain ↦
        by_name (ground arith) (ground arith)
          λ p e. cc (ap (λ rule. cut_suffix rule "*") e, cut_suffix-append p "*")
    | inr (p, glob) ↦
        let (rest, begins) = has_prefix_sound (map_text lower key) p (ground arith) in
        by_prefix p rest (cut_suffix_sound _ "*" p glob) begins
  ]

  covers_complete : (raw : String) → Covers lower key raw → covers raw ≡ true
  unfolding covers
  covers_complete raw (by_prefix p rest e k) =
      let glob : cut_suffix (normal_rule lower raw) "*" ≡ some p = rw e (cut_suffix-append p "*") in
      let begins : has_prefix (map_text lower key) p ≡ true =
        rw (k, has_prefix) (has_prefix-append p rest) in
      let full : normal_rule lower raw ≢ "" = rw e (glob-ne-blank p) in ground arith
  covers_complete raw (by_name e full plain) =
      elim (Option-cases (cut_suffix (normal_rule lower raw) "*")) [
        | inl missed ↦ ground arith
        | inr (p, glob) ↦ absurd (plain p (cut_suffix_sound _ "*" p glob))
      ]

  any_iff : (raws : List String) → (any covers raws ≡ true) ↔ Any (Covers lower key) raws
  any_iff [] = (λ h. cc, λ h. absurd h)
  any_iff (raw ∷ raws) = (
    λ h. elim (Bool-cases (covers raw)) [
      | inl here ↦ inl (covers_sound raw here)
      | inr later ↦ inr ((any_iff raws).0 (ground arith))
    ],
    λ h. elim h [
      | inl c ↦ rw (covers_complete raw c)
      | inr cs ↦ ground (arith, (any_iff raws).1 cs)
    ],
  )

-- The redactor that `New` builds matches a key exactly when one of the rules covers it; so without
-- a usable rule it matches none.
pub match-new :
    (lower : Char → Char) (raws : List String) (key : String)
    → (match lower (new lower raws) key ≡ true) ↔ Any (Covers lower key) raws
match-new lower raws key = rw (match-new_lem lower key raws) (any_iff lower key raws)
