-- ===== src/Store/Identity.antt =====
-- The ids of the spans of internal/store/store.go, as bytes and as the texts of the columns.
use otelstore.Base.{
  ℕ, zero, suc, ◌+◌, ◌/◌, ◌%◌, ◌<◌, ltb, Bool, true, ◌&&◌, if◌then◌else◌, Char, code, String, ◌≡◌,
  refl, sym, ◌∙◌, ap, List, [], ◌∷◌, All, Option, ok, ok-injective, ◌==◌, ◌↔◌, arith, nat_eq,
  Bool-cases, inl, inr,
}
use otelstore.Value.Json.{is_encodable}
use otelstore.Value.{object, Resource, Scope}
use otelstore.Redact.{Redactor}
use otelstore.Sql.Rows.{SpanRow, same_key}
use otelstore.Store.RoundTrip.{attrs, makes_row, makes_none}
use otelstore.Store.Records.{Span, span_row}
use otelstore.Store.Records.Hex.{hex_digit, hex_encode}

all_below : ℕ → (ℕ → Bool) → Bool
all_below zero p = true
all_below (suc n) p = p n && all_below n p

nat_eq→≡ : (m n : ℕ) → nat_eq m n ≡ true → m ≡ n
nat_eq→≡ m n h = ground arith

all_below_lem : (n : ℕ) (p : ℕ → Bool) (m : ℕ) → all_below n p ≡ true → m < n → p m ≡ true
unfolding all_below
all_below_lem zero p m h k = absurd (omega arith)
all_below_lem (suc n) p m h k = elim (Bool-cases (nat_eq m n)) [
  | inl e ↦ rw (nat_eq→≡ m n e) (ground arith)
  | inr e ↦ all_below_lem n p m (ground arith) (ground arith)
]

-- the code of the digit
digit_code : ℕ → ℕ
digit_code n = if ltb n 10 then 48 + n else 87 + n

hex_digits : all_below 16 (λ n. nat_eq (code (hex_digit n)) (digit_code n)) ≡ true
unfolding all_below hex_digit digit_code
hex_digits = refl

hex_digit-injective : (m n : ℕ) → m < 16 → n < 16 → hex_digit m ≡ hex_digit n → m ≡ n
unfolding digit_code
hex_digit-injective m n h k e =
    let a = all_below_lem 16 _ m hex_digits h in
    let b = all_below_lem 16 _ n hex_digits k in
    let same : digit_code m ≡ digit_code n = sym (nat_eq→≡ _ _ a) ∙ ap code e ∙ nat_eq→≡ _ _ b in
    ground arith

-- bytes
abbrev pub IsByte : ℕ → Type 0
IsByte b = b < 256

pub hex_encode-injective :
    (bs cs : List ℕ) → All IsByte bs → All IsByte cs → hex_encode bs ≡ hex_encode cs → bs ≡ cs
unfolding hex_encode
hex_encode-injective [] [] _ _ e = refl
hex_encode-injective [] (c ∷ cs) _ _ e = cc
hex_encode-injective (b ∷ bs) [] _ _ e = cc
hex_encode-injective (b ∷ bs) (c ∷ cs) (h, hs) (k, ks) e =
    let same_high : hex_digit (b / 16) ≡ hex_digit (c / 16) = cc in
    let same_low : hex_digit (b % 16) ≡ hex_digit (c % 16) = cc in
    let high = hex_digit-injective (b / 16) (c / 16) (omega arith) (omega arith) same_high in
    let low = hex_digit-injective (b % 16) (c % 16) (omega arith) (omega arith) same_low in
    let same : b ≡ c = omega arith in let rest : bs ≡ cs = hex_encode-injective bs cs hs ks cc in cc

same_hex :
    (bs cs : List ℕ) (x y : String)
    → All IsByte bs
    → All IsByte cs
    → x ≡ hex_encode bs
    → y ≡ hex_encode cs
    → ((x == y) ≡ true) ↔ (bs ≡ cs)
same_hex bs cs x y h k e e' = (
  λ same. let texts : x ≡ y = ground arith in hex_encode-injective bs cs h k (sym e ∙ texts ∙ e'),
  λ same. let texts : x ≡ y = e ∙ ap hex_encode same ∙ sym e' in ground arith,
)

module _ (lower : Char → Char) (redactor : Option Redactor) (resource : Option Resource)
    (scope : Option Scope) where
  row_ids :
      (span : Span) (row : SpanRow)
      → span_row lower redactor resource scope span ≡ ok row
      → (row.trace_id ≡ hex_encode span.trace_id) × (row.span_id ≡ hex_encode span.span_id)
  row_ids span row h =
      elim (Bool-cases (is_encodable (object (attrs lower redactor resource scope span)))) [
        | inl good ↦
            let made = makes_row lower redactor resource scope span good in
            let same = ok-injective _ _ (sym made ∙ h) in
            (ap (λ r. r.trace_id) (sym same), ap (λ r. r.span_id) (sym same))
        | inr bad ↦ let (e, fails) = makes_none lower redactor resource scope span bad in cc
      ]

-- OTLP ids are bytes.
abbrev pub HasByteIds : Span → Type 0
HasByteIds span = All IsByte span.trace_id × All IsByte span.span_id

module _ (lower : Char → Char) (redactor redactor' : Option Redactor)
    (resource resource' : Option Resource) (scope scope' : Option Scope) where
  -- Of two spans whose ids are bytes and that InsertSpans has made into rows, with whatever
  -- resources, scopes and rules: the rows conflict exactly if the spans have the same trace id and
  -- the same span id, and a lookup by the trace id of the one has the row of the other exactly if
  -- they are of one trace.
  pub ids_lem :
      (a b : Span) (row row' : SpanRow)
      → HasByteIds a
      → HasByteIds b
      → span_row lower redactor resource scope a ≡ ok row
      → span_row lower redactor' resource' scope' b ≡ ok row'
      → ((same_key row row' ≡ true) ↔ ((a.trace_id ≡ b.trace_id) × (a.span_id ≡ b.span_id)))
        × (((row'.trace_id == hex_encode a.trace_id) ≡ true) ↔ (a.trace_id ≡ b.trace_id))
  ids_lem a b row row' (h, k) (h', k') made made' =
      let (t, s) = row_ids lower redactor resource scope a row made in
      let (t', s') = row_ids lower redactor' resource' scope' b row' made' in
      let traces = same_hex _ _ row.trace_id row'.trace_id h h' t t' in
      let spans = same_hex _ _ row.span_id row'.span_id k k' s s' in
      let lookup = same_hex _ _ row'.trace_id (hex_encode a.trace_id) h' h t' refl in
      (
        (
          λ same. (traces.0 (ground arith), spans.0 (ground arith)),
          λ (e, e'). let l = traces.1 e in let r = spans.1 e' in ground arith,
        ),
        (λ same. sym (lookup.0 same), λ e. lookup.1 (sym e)),
      )
