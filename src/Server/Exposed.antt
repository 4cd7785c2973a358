-- ===== src/Server/Exposed.antt =====
-- When main of cmd/otelstore/main.go warns that telemetry is exposed.
use otelstore.Base.{
  length, ◌≤◌, String, ◌≡◌, ◌≢◌, refl, true, Bool-cases, Outcome-cases, some, List, [], ◌∷◌, ok,
  ◌⊎◌, inl, inr, ◌↔◌, Any, string_discrete, arith,
}
use otelstore.Server.Config.{Flags, Environment, is_non_loopback}
use otelstore.Server.Start.{warn_exposed, warning}

module _ (env : Environment) where
  -- The address has a host; it is none of the names of the own machine, and no loopback address.
  abbrev pub IsExposed : String → Type 0
  IsExposed addr =
      (host : String) × (env.split_host addr ≡ ok host)
      × (host ≢ "127.0.0.1")
      × (host ≢ "::1")
      × (host ≢ "localhost")
      × ((host ≡ "") ⊎ (env.parse_ip host ≢ some true))

  module _ (addr host : String) (found : env.split_host addr ≡ ok host) where
    exposed_host :
        is_non_loopback env addr ≡ true
        → (host ≢ "127.0.0.1")
          × (host ≢ "::1")
          × (host ≢ "localhost")
          × ((host ≡ "") ⊎ (env.parse_ip host ≢ some true))
    unfolding is_non_loopback
    exposed_host h = (
      (λ e. ground arith),
      (λ e. ground arith),
      (λ e. ground arith),
      (elim (string_discrete host "") [ yes e ↦ inl e | no n ↦ inr (λ loopback. ground arith) ]),
    )

    host_exposed :
        host ≢ "127.0.0.1"
        → host ≢ "::1"
        → host ≢ "localhost"
        → (host ≡ "") ⊎ (env.parse_ip host ≢ some true)
        → is_non_loopback env addr ≡ true
    unfolding is_non_loopback
    host_exposed a b c why = ground arith

  is_non_loopback_iff : (addr : String) → (is_non_loopback env addr ≡ true) ↔ IsExposed addr
  unfolding is_non_loopback
  is_non_loopback_iff addr = (
    (λ h. elim (Outcome-cases (env.split_host addr)) [
      | inl (host, found) ↦
          let (a, b, c, why) = exposed_host addr host found h in (host, found, a, b, c, why)
      | inr (e, failed) ↦ absurd (ground (arith, failed))
    ]),
    (λ (host, found, a, b, c, why). host_exposed addr host found a b c why),
  )

  warn_exposed_iff :
      (quote : String → String) (addrs : List String)
      → (warn_exposed quote env addrs ≡ []) ↔ (¬ Any IsExposed addrs)
  unfolding warn_exposed
  warn_exposed_iff quote [] = ((λ h k. k), (λ h. refl))
  warn_exposed_iff quote (addr ∷ addrs) =
      let (to, from) = warn_exposed_iff quote addrs in
      elim (Bool-cases (is_non_loopback env addr)) [
        | inl exposed ↦
            rw (exposed, warn_exposed)
              ((λ h. cc), (λ h. absurd (h (inl ((is_non_loopback_iff addr).0 exposed)))))
        | inr safe ↦
            rw (safe, warn_exposed)
              (
                (λ h a. elim a [
                  | inl e ↦
                      let x : is_non_loopback env addr ≡ true = (is_non_loopback_iff addr).1 e in cc
                  | inr more ↦ to h more
                ]),
                (λ h. from (λ more. h (inr more))),
              )
      ]

  warn_exposed_short :
      (quote : String → String) (addrs : List String) → length (warn_exposed quote env addrs) ≤ 1
  unfolding warn_exposed
  warn_exposed_short quote [] = omega arith
  warn_exposed_short quote (addr ∷ addrs) = ground (arith, warn_exposed_short quote addrs)

  -- main logs no warning exactly if a token is set, or none of the four addresses is exposed: an
  -- address is exposed if net finds a host in it that is none of 127.0.0.1, ::1 and localhost, and
  -- is empty or not read as a loopback address. There is at most one warning.
  pub warning_iff :
      (quote : String → String) (flags : Flags) (auth_token : String)
      → ((warning quote env flags auth_token ≡ []) ↔ (
          (auth_token ≢ "")
          ⊎ (¬ Any IsExposed
              (flags.grpc_port ∷ flags.ingest_port ∷ flags.query_port ∷ flags.mcp_addr ∷ []))))
        × (length (warning quote env flags auth_token) ≤ 1)
  unfolding warning
  warning_iff quote flags auth_token =
      let addrs : List String =
        flags.grpc_port ∷ flags.ingest_port ∷ flags.query_port ∷ flags.mcp_addr ∷ [] in
      let (to, from) = warn_exposed_iff quote addrs in
      elim (string_discrete auth_token "") [
        | yes e ↦
            let same : warning quote env flags auth_token ≡ warn_exposed quote env addrs =
              ground arith in
            rw same (
              ((λ h. inr (to h)), (λ h. elim h [ inl n ↦ absurd (n e) | inr safe ↦ from safe ])),
              warn_exposed_short quote addrs,
            )
        | no n ↦
            let same : warning quote env flags auth_token ≡ [] = ground arith in
            rw same (((λ h. inl n), (λ h. refl)), omega arith)
      ]
