-- ===== src/Store/Closing.antt =====
-- What Open of internal/store/store.go leaves open, and at which paths.
use otelstore.Base.{
  Char, String, ◌≡◌, ◌≢◌, refl, ap, true, false, Bool, Bool-cases, inl, inr, ◌⊎◌, none, some,
  Option-cases, List, [], ◌∷◌, ok, err, Error, Outcome-cases, ◌==◌, string_discrete, has_prefix,
  contains_char, map_text, arith, if◌then◌else◌, wrap,
}
use otelstore.Store.Opening.{
  memory_path, validate_db_path, Driver, DriverCall, open_db, open_failed, ping_db,
  set_max_open_conns_1, exec_db, close_db, pragmas, Run, then_call, set_pragmas, configure,
  open_store,
}

-- How many databases a run leaves open.
abbrev pub opens : List DriverCall → Bool → Bool
opens [] b = b
opens (open_db p ∷ cs) b = opens cs true
opens (open_failed p ∷ cs) b = opens cs b
opens (ping_db ∷ cs) b = opens cs b
opens (set_max_open_conns_1 ∷ cs) b = opens cs b
opens (exec_db p ∷ cs) b = opens cs b
opens (close_db ∷ cs) b = opens cs false

-- the pragmas that were executed
abbrev pub executed : List DriverCall → List String
executed [] = []
executed (exec_db p ∷ cs) = p ∷ executed cs
executed (open_db p ∷ cs) = executed cs
executed (open_failed p ∷ cs) = executed cs
executed (ping_db ∷ cs) = executed cs
executed (set_max_open_conns_1 ∷ cs) = executed cs
executed (close_db ∷ cs) = executed cs

-- a plain path, or the one of the database in memory
abbrev pub IsPlain : (Char → Char) → String → Type 0
IsPlain lower path =
    (path ≡ memory_path)
    ⊎ ((path ≢ "")
        × (has_prefix (map_text lower path) "file:" ≡ false)
        × (contains_char 0x3f path ≡ false))

-- A path is refused exactly if it is empty, has the prefix of a URI in any case, or has a question
-- mark; else it is ":memory:" or cleaned.
validate_db_path-IsPlain :
    (lower : Char → Char) (clean : String → String) (path checked : String)
    → validate_db_path lower clean path ≡ ok checked
    → IsPlain lower path
unfolding validate_db_path
validate_db_path-IsPlain lower clean path checked h = elim (string_discrete path memory_path) [
  | yes e ↦ inl e
  | no n ↦ inr (ground arith)
]

module _ (driver : Driver) where
  set_pragmas_closes :
      (ps : List String)
      → ((set_pragmas driver ps).1 ≡ ok tt
          → (opens (set_pragmas driver ps).0 true ≡ true)
            × (executed (set_pragmas driver ps).0 ≡ ps))
        × ((e : Error)
            → (set_pragmas driver ps).1 ≡ err e
            → opens (set_pragmas driver ps).0 true ≡ false)
  unfolding set_pragmas
  set_pragmas_closes [] = ((λ h. (refl, refl)), (λ e h. cc))
  set_pragmas_closes (p ∷ ps) =
      let (a, b) = set_pragmas_closes ps in
      elim (Option-cases (driver.exec_error p)) [
        | inl fine ↦ rw (fine, set_pragmas) ((λ h. let (x, y) = a h in (x, ap (◌∷◌ p) y)), b)
        | inr (e, failed) ↦ rw (failed, set_pragmas) ((λ h. cc), (λ e' h. refl))
      ]

  -- What a run leaves: on success an open database, set up for files or for memory; else none.
  abbrev pub IsSetUp : String → Run → Type 0
  IsSetUp path run =
      (run.1 ≡ ok tt
        → (opens run.0 false ≡ true)
          × (executed run.0 ≡ (if path == memory_path then [] else pragmas)))
      × ((e : Error) → run.1 ≡ err e → opens run.0 false ≡ false)

  opened :
      (path : String)
      → IsSetUp path (then_call (open_db path) (then_call ping_db (configure driver path)))
  unfolding configure
  opened path = elim (Bool-cases (path == memory_path)) [
    | inl memory ↦ rw (memory, configure) ((λ h. (refl, refl)), (λ e h. cc))
    | inr file ↦ rw (file, configure) (set_pragmas_closes pragmas)
  ]

  module _ (lower : Char → Char) (clean : String → String) (given : String) where
    abbrev run : Run
    run = open_store driver lower clean given

    not_validated : (e : Error) → validate_db_path lower clean given ≡ err e → run ≡ ([], err e)
    unfolding open_store
    not_validated e h = rw (h, open_store) refl

    module _ (path : String) (checked : validate_db_path lower clean given ≡ ok path) where
      not_opened :
          (e : Error)
          → driver.open_error path ≡ some e
          → run ≡ (open_failed path ∷ [], err (wrap "failed to open database: " e))
      unfolding open_store
      not_opened e h = rw (checked, open_store, h) refl

      not_pinged :
          (e : Error)
          → driver.open_error path ≡ none
          → driver.ping_error ≡ some e
          → run ≡ (open_db path ∷ ping_db ∷ close_db ∷ [], err (wrap "failed to ping database: " e))
      unfolding open_store
      not_pinged e h k = rw (checked, open_store, h, k) refl

      was_opened :
          driver.open_error path ≡ none
          → driver.ping_error ≡ none
          → run ≡ then_call (open_db path) (then_call ping_db (configure driver path))
      unfolding open_store
      was_opened h k = rw (checked, open_store, h, k) refl

    -- If Open succeeds, the path is ":memory:", or is not empty, has not the prefix of a URI in any
    -- case and no question mark; the database is open; and the three pragmas have been set, unless
    -- the cleaned path is ":memory:". If it fails, no database is open.
    pub open_store_lem :
        (run.1 ≡ ok tt
          → IsPlain lower given
            × (opens run.0 false ≡ true)
            × ((path : String) × (validate_db_path lower clean given ≡ ok path)
                × (executed run.0 ≡ (if path == memory_path then [] else pragmas))))
        × ((e : Error) → run.1 ≡ err e → opens run.0 false ≡ false)
    open_store_lem = elim (Outcome-cases (validate_db_path lower clean given)) [
      | inr (e, bad) ↦ rw (not_validated e bad) ((λ h. cc), (λ e' h. refl))
      | inl (path, checked) ↦
          let plain = validate_db_path-IsPlain lower clean given path checked in
          elim (Option-cases (driver.open_error path)) [
            | inr (e, failed) ↦ rw (not_opened path checked e failed) ((λ h. cc), (λ e' h. refl))
            | inl fine ↦ elim (Option-cases driver.ping_error) [
              | inr (e, failed) ↦
                  rw (not_pinged path checked e fine failed) ((λ h. cc), (λ e' h. refl))
              | inl good ↦
                  let all = opened path in
                  rw (was_opened path checked fine good) (
                    (λ h. let (open_now, set) = all.0 h in (plain, open_now, (path, checked, set))),
                    (λ e' h. all.1 e' h),
                  )
            ]
          ]
    ]
