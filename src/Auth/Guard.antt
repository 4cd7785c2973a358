-- ===== src/Auth/Guard.antt =====
-- Who passes the authentication of internal/auth/auth.go, and what a rejection shows.
use otelstore.Base.{
  Char, code, ◌≤◌, String, ◌≡◌, ◌≢◌, refl, ◌∙◌, ap, true, [], ◌∷◌, arith, AllChars, AllChars-map,
  AllChars-append, ◌==◌, cut_prefix, cut_prefix_sound, cut_prefix-append, concat, Bool-cases,
  Option-cases, ◌⊎◌, inl, inr, ◌↔◌,
}
use otelstore.Http.{Request, Reply, http_error, Handler}
use otelstore.Auth.{
  token_valid, is_control, mask, sanitize_for_log, reject_reason, rejected_line, middleware,
}

-- A header is valid exactly if it is the prefix and the token.
pub token_valid_iff :
    (auth_header expected : String)
    → (token_valid auth_header expected ≡ true) ↔ (auth_header ≡ concat "Bearer " expected)
unfolding token_valid
token_valid_iff auth_header expected = (
  (λ h. elim (Option-cases (cut_prefix auth_header "Bearer ")) [
    | inl missing ↦ absurd (ground (arith, missing))
    | inr (rest, found) ↦
        let same : rest ≡ expected = ground (arith, found) in
        cut_prefix_sound auth_header "Bearer " rest found ∙ ap (concat "Bearer ") same
  ]),
  (λ h. rw (h, token_valid, cut_prefix-append "Bearer " expected) (ground arith)),
)

-- no character below U+0020, so no line break, and no U+007F
abbrev pub IsOneLine : String → Type 0
IsOneLine = AllChars (λ c. (0x20 ≤ code c) × (code c ≢ 0x7f))

mask_lem : (c : Char) → (0x20 ≤ code (mask c)) × (code (mask c) ≢ 0x7f)
mask_lem c = elim (Bool-cases (is_control c)) [
  | inl masked ↦ rw masked (omega arith)
  | inr kept ↦ rw kept (ground arith)
]

sanitize_for_log-IsOneLine : (s : String) → IsOneLine (sanitize_for_log s)
unfolding sanitize_for_log
sanitize_for_log-IsOneLine s = AllChars-map _ mask s mask_lem

reject_reason-IsOneLine : (auth_header : String) → IsOneLine (reject_reason auth_header)
reject_reason-IsOneLine auth_header = elim (Bool-cases (auth_header == "")) [
  | inl missing ↦ rw missing (ground arith)
  | inr invalid ↦ rw invalid (ground arith)
]

append-IsOneLine : (s t : String) → IsOneLine s → IsOneLine t → IsOneLine (concat s t)
append-IsOneLine = AllChars-append _

rejected_line-IsOneLine : (r : Request) → IsOneLine (rejected_line r)
unfolding rejected_line
rejected_line-IsOneLine r = append-IsOneLine _ _ (ground arith) (
    append-IsOneLine _ _ (sanitize_for_log-IsOneLine r.method) (
      append-IsOneLine _ _ (ground arith) (
        append-IsOneLine _ _ (sanitize_for_log-IsOneLine r.path) (
          append-IsOneLine _ _ (ground arith) (
            append-IsOneLine _ _ (sanitize_for_log-IsOneLine r.remote_addr) (
              append-IsOneLine _ _ (ground arith)
                (append-IsOneLine _ _ (reject_reason-IsOneLine _) (ground arith))))))))

-- who may pass
abbrev pub IsAdmitted : String → Request → Type 0
IsAdmitted auth_token r =
    (auth_token ≡ "")
    ⊎ ((r.path ≡ "/healthz")
        ⊎ ((r.path ≡ "/readyz") ⊎ (r.header "Authorization" ≡ concat "Bearer " auth_token)))

-- what a rejection does
pub record IsRejected {S : Type 0} (s : S) (reply : Reply × S) : Type 0 where
  pub unauthorized : reply.0.response ≡ http_error "unauthorized" 401
  pub untouched : reply.1 ≡ s
  pub logged : (line : String) × (reply.0.lines ≡ line ∷ []) × IsOneLine line

module _ {S : Type 0} (auth_token : String) (next : Handler S) (r : Request) (s : S) where
  middleware_admits : IsAdmitted auth_token r → middleware auth_token next r s ≡ next r s
  unfolding middleware
  middleware_admits (inl open_door) = rw open_door (ground arith)
  middleware_admits (inr (inl health)) = ground arith
  middleware_admits (inr (inr (inl ready))) = ground arith
  middleware_admits (inr (inr (inr valid))) =
      let v = (token_valid_iff (r.header "Authorization") auth_token).1 valid in ground (arith, v)

  pub middleware_rejects_as :
      ¬ IsAdmitted auth_token r
      → middleware auth_token next r s
        ≡ (record { lines = rejected_line r ∷ []; response = http_error "unauthorized" 401 }, s)
  unfolding middleware
  middleware_rejects_as h =
      let a : auth_token ≢ "" = λ e. h (inl e) in
      let b : r.path ≢ "/healthz" = λ e. h (inr (inl e)) in
      let c : r.path ≢ "/readyz" = λ e. h (inr (inr (inl e))) in
      let d : token_valid (r.header "Authorization") auth_token ≢ true =
        λ e. h (inr (inr (inr ((token_valid_iff _ _).0 e)))) in
      ground arith

  middleware_rejects : ¬ IsAdmitted auth_token r → IsRejected s (middleware auth_token next r s)
  middleware_rejects h = rw (middleware_rejects_as h) (record {
    unauthorized = refl;
    untouched = refl;
    logged = (_, refl, rejected_line-IsOneLine r);
  })

  -- A request passes to the handler behind the middleware exactly as it came, if no token is set, the
  -- path is that of a probe, or the header is "Bearer " and the token. Any other gets 401, changes
  -- nothing, and leaves one line in the log, which has no character below U+0020 and no U+007F.
  pub middleware_lem :
      (IsAdmitted auth_token r → middleware auth_token next r s ≡ next r s)
      × (¬ IsAdmitted auth_token r → IsRejected s (middleware auth_token next r s))
  middleware_lem = (middleware_admits, middleware_rejects)

-- A rejection does not depend on the token, nor on the value of the Authorization header beyond
-- whether there is one: two rejected requests that agree in method, path and address get the same
-- response and the same line in the log.
pub middleware_hides :
    {S : Type 0} (token token' : String) (next : Handler S) (r : Request)
    (header' : String → String) (s : S)
    → ¬ IsAdmitted token r
    → ¬ IsAdmitted token' (record r { header = header' })
    → (r.header "Authorization" == "") ≡ (header' "Authorization" == "")
    → middleware token next r s ≡ middleware token' next (record r { header = header' }) s
unfolding rejected_line
middleware_hides token token' next r header' s h h' same =
    let r' = record r { header = header' } in
    rw (middleware_rejects_as token next r s h, middleware_rejects_as token' next r' s h', same)
      refl
