-- ===== src/Server/Guarded.antt =====
-- What cmd/otelstore/main.go makes of the configuration.
use otelstore.Base.{
  String, ◌≡◌, ◌≢◌, refl, ◌∙◌, ◌⊎◌, inl, inr, List, [], ◌∷◌, ◌++◌, All, ok, err, Error, wrap, ◌==◌,
  Outcome-cases, if◌then◌else◌, string_discrete, trim_space, arith,
}
use otelstore.Http.{Request, Handler}
use otelstore.Auth.{middleware}
use otelstore.Auth.Guard.{IsAdmitted, IsRejected, middleware_lem}
use otelstore.Server.Config.{
  Flags, Environment, getenv, token_given, token_file, resolve_token, with_auth,
}

pub with_auth-middleware :
    {S : Type 0} (auth_token : String) (handler : Handler S) (r : Request) (s : S)
    → with_auth auth_token handler r s ≡ middleware auth_token handler r s
unfolding with_auth middleware
with_auth-middleware auth_token handler r s = elim (string_discrete auth_token "") [
  | yes e ↦ ground arith
  | no n ↦ ground arith
]

-- Each HTTP server that main builds hands a request to its handler exactly as it came if no token is
-- configured, the path is that of a probe, or the request carries the token; and else answers 401,
-- changes nothing and logs one line.
pub with_auth_lem :
    {S : Type 0} (auth_token : String) (handler : Handler S) (r : Request) (s : S)
    → (IsAdmitted auth_token r → with_auth auth_token handler r s ≡ handler r s)
      × (¬ IsAdmitted auth_token r → IsRejected s (with_auth auth_token handler r s))
with_auth_lem auth_token handler r s =
    let (admits, rejects) = middleware_lem auth_token handler r s in
    (
      (λ h. with_auth-middleware auth_token handler r s ∙ admits h),
      (λ h. rw (with_auth-middleware auth_token handler r s) (rejects h)),
    )

-- The first text of a list that is not empty, and the empty text if there is none.
abbrev pub IsFirstGiven : List String → String → Type 0
IsFirstGiven texts t =
    ((t ≡ "") × All (λ u. u ≡ "") texts)
    ⊎ ((t ≢ "")
        × ((before : List String) × (after : List String) × (texts ≡ before ++ t ∷ after)
            × All (λ u. u ≡ "") before))

first_of_two :
    (a b : String) → (t : String) × ((if a == "" then b else a) ≡ t) × IsFirstGiven (a ∷ b ∷ []) t
first_of_two a b = elim (string_discrete a "") [
  | no given ↦ (a, ground arith, inr (given, ([], b ∷ [], refl, tt)))
  | yes blank ↦ elim (string_discrete b "") [
    | no given ↦ (b, ground arith, inr (given, (a ∷ [], [], refl, (blank, tt))))
    | yes empty ↦ (b, ground arith, inl (empty, (blank, (empty, tt))))
  ]
]

module _ (env : Environment) (flags : Flags) where
  -- What the token is if neither the flag nor the environment gives it: that of a file, if one is
  -- named.
  abbrev pub IsFromFile : String → Type 0
  IsFromFile path =
      ((path ≡ "") × (resolve_token env flags ≡ ok ""))
      ⊎ ((path ≢ "")
          × (((content : String) × (env.read_file (env.clean path) ≡ ok content)
                × (resolve_token env flags ≡ ok (trim_space content)))
              ⊎ ((e : Error) × (env.read_file (env.clean path) ≡ err e)
                  × (resolve_token env flags ≡ err (wrap "failed to read auth token file: " e)))))

  from_file :
      token_given env flags ≡ "" → (path : String) → token_file env flags ≡ path → IsFromFile path
  unfolding resolve_token
  from_file h path same = elim (string_discrete path "") [
    | yes blank ↦ inl (blank, rw (h, same, blank, resolve_token) (ground arith))
    | no given ↦ elim (Outcome-cases (env.read_file (env.clean path))) [
      | inl (content, read) ↦ inr (given, inl (content, read, ground (arith, h, same, read)))
      | inr (e, failed) ↦ inr (given, inr (e, failed, ground (arith, h, same, failed)))
    ]
  ]

  token_of :
      (token : String)
      → token_given env flags ≡ token
      → token ≢ ""
      → resolve_token env flags ≡ ok token
  unfolding resolve_token
  token_of token h n = ground (arith, h)

  -- The token is the first that is not empty of the flag and the variable OTELSTORE_AUTH_TOKEN. If
  -- there is none, it is the trimmed content of a file, whose error ends main: of the first that is
  -- named of the flag for it and the variable OTELSTORE_AUTH_TOKEN_FILE. If none is named, it is empty.
  pub resolve_token_lem :
      (token : String) × IsFirstGiven
        (flags.auth_token ∷ getenv env "OTELSTORE_AUTH_TOKEN" ∷ [])
        token
      × (((token ≢ "") × (resolve_token env flags ≡ ok token))
          ⊎ ((token ≡ "")
              × ((path : String) × IsFirstGiven
                    (flags.auth_token_file ∷ getenv env "OTELSTORE_AUTH_TOKEN_FILE" ∷ [])
                    path
                  × IsFromFile path)))
  unfolding token_given token_file
  resolve_token_lem =
      let (token, given, first) =
        first_of_two flags.auth_token (getenv env "OTELSTORE_AUTH_TOKEN") in
      let (path, named, first_path) =
        first_of_two flags.auth_token_file (getenv env "OTELSTORE_AUTH_TOKEN_FILE") in
      elim (string_discrete token "") [
        | yes blank ↦
            (token, first, inr (blank, (path, first_path, from_file (given ∙ blank) path named)))
        | no some_token ↦ (token, first, inl (some_token, token_of token given some_token))
      ]
