-- ===== src/Server/Started.antt =====
-- How main of cmd/otelstore/main.go starts, and how it fails to.
use mathlib.Core.List.{append-nil}
use otelstore.Base.{
  Outcome, String, ◌≡◌, refl, ◌++◌, Option-cases, Outcome-cases, none, some, List, [], ◌∷◌, ok, err,
  Error, wrap, concat, ◌⊎◌, inl, inr,
}
use otelstore.Sql.{Engine}
use otelstore.Store.Inserts.{Store, set_redactor}
use otelstore.Store.Opening.{open_store}
use otelstore.Store.Schema.{init_schema}
use otelstore.Server.Config.{Flags, resolve_token, configured_redactor}
use otelstore.Server.Start.{
  World, Start, goes, ends, Running, warning, redaction_lines, running, open_database, start,
}

module _ (E : Engine) (W : World E) (flags : Flags) where
  -- the line of the version
  abbrev pub hello : List String
  hello = concat "otelstore " W.version ∷ []

  abbrev pub opening_lines : String → List String
  opening_lines auth_token = hello ++ warning W.quote W.env flags auth_token

  abbrev pub all_lines : String → List String
  all_lines auth_token =
      opening_lines auth_token
      ++ redaction_lines W.decimal (configured_redactor W.env flags W.lower)

  -- the store over a database, with the redactor of the flags
  abbrev pub configured : E.Db → Store E
  configured d = record { db = d; redactor = configured_redactor W.env flags W.lower }

  abbrev opened : E.Db
  opened = (init_schema E (W.opened flags.db_path)).1

  -- what Open returns, and InitSchema
  abbrev pub opening : Outcome (Unit {0})
  opening = (open_store W.driver W.lower W.env.clean flags.db_path).1

  abbrev pub creating : Outcome (Unit {0})
  creating = (init_schema E (W.opened flags.db_path)).0

  unopened :
      (e : Error)
      → opening ≡ err e
      → open_database E W flags ≡ ends [] (wrap "failed to open store: " e)
  unfolding open_database
  unopened e h = rw (h, open_database) refl

  uncreated :
      (e : Error)
      → opening ≡ ok tt
      → creating ≡ err e
      → open_database E W flags ≡ ends [] (wrap "failed to init schema: " e)
  unfolding open_database
  uncreated e h k = rw (h, k, open_database) refl

  created : opening ≡ ok tt → creating ≡ ok tt → open_database E W flags ≡ goes [] opened
  unfolding open_database
  created h k = rw (h, k, open_database) refl

  not_authenticated :
      (e : Error) → resolve_token W.env flags ≡ err e → start E W flags ≡ ends hello e
  unfolding start
  not_authenticated e h = rw (h, start) refl

  module _ (auth_token : String) (resolved : resolve_token W.env flags ≡ ok auth_token) where
    not_opened :
        (e : Error)
        → open_database E W flags ≡ ends [] e
        → start E W flags ≡ ends (opening_lines auth_token) e
    unfolding start
    not_opened e h = rw (resolved, h, start) (rw append-nil refl)

    module _ (ready : open_database E W flags ≡ goes [] opened) where
      not_listening :
          (e : Error)
          → W.listen_error flags.grpc_port ≡ some e
          → start E W flags ≡ ends (all_lines auth_token) (wrap "failed to listen on gRPC port: " e)
      unfolding start
      not_listening e h = rw (resolved, ready, h, start) (rw append-nil refl)

      serving :
          W.listen_error flags.grpc_port ≡ none
          → start E W flags
            ≡ goes (all_lines auth_token) (running E W flags auth_token (configured opened))
      unfolding start set_redactor
      serving h = rw (resolved, ready, h, start) (rw append-nil refl)

  -- How a start may end: the first step that fails ends it, with the lines that were logged before;
  -- or all have succeeded.
  abbrev pub IsReason : List String → Error → Type 0
  IsReason lines e =
      ((resolve_token W.env flags ≡ err e) × (lines ≡ hello))
      ⊎ ((auth_token : String) × (resolve_token W.env flags ≡ ok auth_token)
          × (((lines ≡ opening_lines auth_token)
                × (((cause : Error) × (opening ≡ err cause)
                      × (e ≡ wrap "failed to open store: " cause))
                    ⊎ ((cause : Error) × (opening ≡ ok tt)
                        × (creating ≡ err cause)
                        × (e ≡ wrap "failed to init schema: " cause))))
              ⊎ ((lines ≡ all_lines auth_token)
                  × (opening ≡ ok tt)
                  × (creating ≡ ok tt)
                  × ((cause : Error) × (W.listen_error flags.grpc_port ≡ some cause)
                      × (e ≡ wrap "failed to listen on gRPC port: " cause)))))

  abbrev pub IsServing : List String → Running E → Type 0
  IsServing lines R =
      (auth_token : String) × (resolve_token W.env flags ≡ ok auth_token)
      × (opening ≡ ok tt)
      × (creating ≡ ok tt)
      × (W.listen_error flags.grpc_port ≡ none)
      × (lines ≡ all_lines auth_token)
      × (R ≡ running E W flags auth_token (configured opened))

  abbrev pub IsStart : Start (Running E) → Type 0
  IsStart (ends lines e) = IsReason lines e
  IsStart (goes lines R) = IsServing lines R

  -- How main starts. The first of these that fails ends the process, with its error behind a text
  -- that names the step, and with the lines that were logged before it and no others: resolving the
  -- token, opening the store, creating the tables, listening for gRPC. If none fails, the servers
  -- run over the opened database with the redactor of the flags, and with the token, and the lines
  -- logged are the version, the warning and the rules.
  pub start_lem : IsStart (start E W flags)
  start_lem = elim (Outcome-cases (resolve_token W.env flags)) [
    | inr (e, failed) ↦ rw (not_authenticated e failed) (inl (failed, refl))
    | inl (auth_token, resolved) ↦ elim (Outcome-cases opening) [
      | inr (e, failed) ↦
          rw (not_opened auth_token resolved _ (unopened e failed))
            (inr (auth_token, resolved, inl (refl, inl (e, failed, refl))))
      | inl (_, fine) ↦ elim (Outcome-cases creating) [
        | inr (e, failed) ↦
            rw (not_opened auth_token resolved _ (uncreated e fine failed))
              (inr (auth_token, resolved, inl (refl, inr (e, fine, failed, refl))))
        | inl (_, good) ↦ elim (Option-cases (W.listen_error flags.grpc_port)) [
          | inr (e, failed) ↦
              rw (not_listening auth_token resolved (created fine good) e failed)
                (inr (auth_token, resolved, inr (refl, fine, good, (e, failed, refl))))
          | inl listens ↦
              rw (serving auth_token resolved (created fine good) listens)
                (auth_token, resolved, fine, good, listens, refl, refl)
        ]
      ]
    ]
  ]
