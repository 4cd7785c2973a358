-- ===== src/Store/Opening.antt =====
-- validateDBPath and Open of internal/store/store.go. The driver is a parameter:
-- what it answers to each call; a run is the calls that were made.
use otelstore.Base.{
  Char, String, ◌||◌, Option, none, some, List, [], ◌∷◌, Outcome, ok, err, Error, wrap, ◌==◌,
  has_prefix, contains_char, map_text, concat, if◌then◌else◌,
}

abbrev pub memory_path : String
memory_path = ":memory:"

abbrev pub err_db_path_uri : Error
err_db_path_uri = "db path must be a plain file path or :memory:, not a URI"

-- `clean` is filepath.Clean, `lower` is unicode.ToLower
unfoldable pub validate_db_path : (Char → Char) → (String → String) → String → Outcome String
validate_db_path lower clean path =
    if path == memory_path
    then ok path
    else if path == ""
    then err "db path is empty"
    else if has_prefix (map_text lower path) "file:" || contains_char 0x3f path
    then err err_db_path_uri
    else ok (clean path)

-- What the driver answers: an error, or none.
pub record Driver : Type 0 where
  pub open_error : String → Option Error
  pub ping_error : Option Error
  pub exec_error : String → Option Error
  pub quote : String → String

-- a call of the driver; a failed one of sql.Open gives no database
pub data DriverCall : Type 0 where
  open_db : String → DriverCall
  open_failed : String → DriverCall
  ping_db : DriverCall
  set_max_open_conns_1 : DriverCall
  exec_db : String → DriverCall
  close_db : DriverCall

abbrev pub pragmas : List String
pragmas = "PRAGMA journal_mode=WAL" ∷ "PRAGMA synchronous=NORMAL" ∷ "PRAGMA busy_timeout=5000" ∷ []

-- the calls and the result
abbrev pub Run : Type 0
Run = List DriverCall × Outcome (Unit {0})

abbrev pub then_call : DriverCall → Run → Run
then_call c (cs, r) = (c ∷ cs, r)

module _ (driver : Driver) where
  -- the loop over the pragmas; the first error closes the database
  unfoldable pub set_pragmas : List String → Run
  set_pragmas [] = ([], ok tt)
  set_pragmas (p ∷ ps) =
      let rest = then_call (exec_db p) (set_pragmas ps) in
      elim (driver.exec_error p) [
        | some e ↦ (
          exec_db p ∷ close_db ∷ [],
          err (concat "failed to set " (concat (driver.quote p) (wrap ": " e))),
        )
        | none ↦ rest
      ]

  unfoldable pub configure : String → Run
  unfolding set_pragmas
  configure path =
      if path == memory_path then (set_max_open_conns_1 ∷ [], ok tt) else set_pragmas pragmas

  -- Open
  unfoldable pub open_store : (Char → Char) → (String → String) → String → Run
  unfolding validate_db_path configure
  open_store lower clean given = elim (validate_db_path lower clean given) [
    | err e ↦ ([], err e)
    | ok path ↦ elim (driver.open_error path) [
      | some e ↦ (open_failed path ∷ [], err (wrap "failed to open database: " e))
      | none ↦ elim driver.ping_error [
        | some e ↦
            (open_db path ∷ ping_db ∷ close_db ∷ [], err (wrap "failed to ping database: " e))
        | none ↦ then_call (open_db path) (then_call ping_db (configure path))
      ]
    ]
  ]
