-- ===== src/Redact/Rules.antt =====
-- The rules as texts: how the flag is split, and what the start-up line can show of them.
use text.Mathlib.TextLemmas.{nil-append, cons-append}
use text.Mathlib.TextEquality.{Char-path}
use otelstore.Base.{
  Char, code, String, ◌≤◌, ◌≡◌, refl, ◌≢◌, List, [], ◌∷◌, arith, any, All, All-append, AllChars,
  AllChars-map, AllChars-append, AllChars-left, ◌==◌, nat_eq, trim_space, cut_suffix,
  cut_suffix_sound, concat, Bool-cases, Option-cases, inl, inr,
}
use otelstore.Redact.{
  Redactor, is_control, mask_control, sanitize_rule, grow, split_comma, parse_rules, add_exact,
  add_usable, empty_redactor, is_empty, globs, rules, normal_rule, add_rule, add_rules, new,
}

-- no character below U+0020, so no line break, and no U+007F
abbrev pub IsPrintable : String → Type 0
IsPrintable = AllChars (λ c. (0x20 ≤ code c) × (code c ≢ 0x7f))

mask_control_lem : (c : Char) → (0x20 ≤ code (mask_control c)) × (code (mask_control c) ≢ 0x7f)
mask_control_lem c = elim (Bool-cases (is_control c)) [
  | inl masked ↦ rw masked (omega arith)
  | inr kept ↦ rw kept (ground arith)
]

sanitize_rule-IsPrintable : (s : String) → IsPrintable (sanitize_rule s)
unfolding sanitize_rule
sanitize_rule-IsPrintable s = AllChars-map _ mask_control s mask_control_lem

record IsSanitized (r : Redactor) : Type 0 where
  exact : All IsPrintable r.exact
  prefixes : All IsPrintable r.prefixes

add_exact-IsPrintable :
    (rule : String) (exact : List String)
    → All IsPrintable exact
    → IsPrintable rule
    → All IsPrintable (add_exact rule exact)
unfolding add_exact
add_exact-IsPrintable rule exact h k = elim (Bool-cases (any (λ e. e == rule) exact)) [
  | inl old ↦ rw old h
  | inr new ↦ rw new (All-append IsPrintable exact _ h (k, tt))
]

module _ (lower : Char → Char) where
  normal_rule-IsPrintable : (raw : String) → IsPrintable (normal_rule lower raw)
  unfolding normal_rule
  normal_rule-IsPrintable raw = sanitize_rule-IsPrintable _

  add_usable-IsSanitized :
      (r : Redactor) (rule : String)
      → IsSanitized r
      → IsPrintable rule
      → IsSanitized (add_usable r rule)
  unfolding add_usable
  add_usable-IsSanitized r rule h k = elim (Option-cases (cut_suffix rule "*")) [
    | inl plain ↦
        rw (plain, add_usable)
          (record { exact = add_exact-IsPrintable rule r.exact h.exact k; prefixes = h.prefixes })
    | inr (p, glob) ↦
        let whole : IsPrintable (concat p "*") = rw (cut_suffix_sound rule "*" p glob) at k in
        let part : IsPrintable p = AllChars-left _ p "*" whole in
        rw (glob, add_usable)
          (record {
            exact = h.exact;
            prefixes = All-append IsPrintable r.prefixes _ h.prefixes (part, tt);
          })
  ]

  add_rule-IsSanitized :
      (r : Redactor) (raw : String) → IsSanitized r → IsSanitized (add_rule lower r raw)
  unfolding add_rule
  add_rule-IsSanitized r raw h =
      let used = add_usable-IsSanitized r (normal_rule lower raw) h (normal_rule-IsPrintable raw) in
      elim (Bool-cases (normal_rule lower raw == "")) [
        | inl blank ↦ rw blank h
        | inr full ↦ rw full used
      ]

  add_rules-IsSanitized :
      (r : Redactor) (raws : List String) → IsSanitized r → IsSanitized (add_rules lower r raws)
  unfolding add_rules
  add_rules-IsSanitized r [] h = h
  add_rules-IsSanitized r (raw ∷ raws) h =
      add_rules-IsSanitized (add_rule lower r raw) raws (add_rule-IsSanitized r raw h)

globs-IsPrintable : (ps : List String) → All IsPrintable ps → All IsPrintable (globs ps)
globs-IsPrintable [] _ = tt
globs-IsPrintable (p ∷ ps) (h, hs) =
    (AllChars-append _ p "*" h (omega arith, tt), globs-IsPrintable ps hs)

-- Whatever the operator wrote, no rule that `Rules` shows has a character below U+0020 or a U+007F.
pub rules-new-IsPrintable :
    (lower : Char → Char) (raws : List String) → All IsPrintable (rules (new lower raws))
unfolding rules new
rules-new-IsPrintable lower raws =
    let r = add_rules lower empty_redactor raws in
    let h =
      add_rules-IsSanitized lower empty_redactor raws (record { exact = tt; prefixes = tt }) in
    elim (Bool-cases (is_empty r)) [
      | inl nothing ↦ rw nothing tt
      | inr something ↦
          rw something
            (All-append IsPrintable r.exact _ h.exact (globs-IsPrintable r.prefixes h.prefixes))
    ]

-- strings.Join(parts, ",")
abbrev pub join_comma : List String → String
join_comma [] = ""
join_comma (part ∷ []) = part
join_comma (part ∷ next ∷ parts) = concat part (concat "," (join_comma (next ∷ parts)))

abbrev pub NoComma : String → Type 0
NoComma = AllChars (λ c. code c ≢ b',')

join_comma-grow :
    (c : Char) (parts : List String) → join_comma (grow c parts) ≡ String.◌∷◌ c (join_comma parts)
unfolding grow
join_comma-grow c [] = refl
join_comma-grow c (part ∷ []) = refl
join_comma-grow c (part ∷ next ∷ parts) = rw cons-append

split_comma-ne-nil : (s : String) → split_comma s ≢ []
unfolding split_comma
split_comma-ne-nil String.[] = cc
split_comma-ne-nil (String.◌∷◌ c s) = ground arith

join_comma-blank :
    (parts : List String) → parts ≢ [] → join_comma ("" ∷ parts) ≡ String.◌∷◌ "," (join_comma parts)
join_comma-blank [] h = absurd (h refl)
join_comma-blank (part ∷ parts) h = rw (nil-append, cons-append, nil-append)

join_comma-split_comma : (s : String) → join_comma (split_comma s) ≡ s
unfolding split_comma
join_comma-split_comma String.[] = refl
join_comma-split_comma (String.◌∷◌ c s) = elim (Bool-cases (nat_eq (code c) b',')) [
  | inl comma ↦
      let is_comma : c ≡ "," = Char-path c "," (ground arith) in
      rw (comma, join_comma-blank _ (split_comma-ne-nil s), is_comma, join_comma-split_comma s)
  | inr other ↦ rw (other, join_comma-grow, join_comma-split_comma s)
]

grow-NoComma :
    (c : Char) (parts : List String)
    → code c ≢ b','
    → All NoComma parts
    → All NoComma (grow c parts)
unfolding grow
grow-NoComma c [] h k = ((h, tt), tt)
grow-NoComma c (part ∷ parts) h (k, ks) = ((h, k), ks)

split_comma-NoComma : (s : String) → All NoComma (split_comma s)
unfolding split_comma
split_comma-NoComma String.[] = (tt, tt)
split_comma-NoComma (String.◌∷◌ c s) = elim (Bool-cases (nat_eq (code c) b',')) [
  | inl comma ↦ rw comma (tt, split_comma-NoComma s)
  | inr other ↦ rw other (grow-NoComma c (split_comma s) (ground arith) (split_comma-NoComma s))
]

-- A flag that is not blank is split so that its parts hold no comma, and joined by commas they are
-- the flag again.
join_comma-parse_rules :
    (s : String)
    → trim_space s ≢ ""
    → All NoComma (parse_rules s) × (join_comma (parse_rules s) ≡ s)
unfolding parse_rules
join_comma-parse_rules s h = elim (Bool-cases (trim_space s == "")) [
  | inl blank ↦ absurd (ground arith)
  | inr full ↦ rw full (split_comma-NoComma s, join_comma-split_comma s)
]
