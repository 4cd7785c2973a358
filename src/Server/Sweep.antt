-- ===== src/Server/Sweep.antt =====
-- The retention sweep of cmd/otelstore/main.go. Durations are nanoseconds.
use otelstore.Base.{
  ℕ, zero, suc, ◌-◌, ◌/◌, String, Bool, ◌||◌, Option, none, some, List, [], ◌∷◌, ◌++◌, concat, ltb,
  leb, if◌then◌else◌,
}
use otelstore.Base.Int.{ℤ, pos, negsuc, lt_int}
use otelstore.Sql.{Engine}
use otelstore.Store.Retention.{Deleted, delete_before, enforce_max_size}

abbrev pub minute : ℕ
minute = 60000000000

abbrev pub hour : ℕ
hour = 3600000000000

unfoldable pub min_duration : ℕ → ℕ → ℕ
min_duration a b = if ltb a b then a else b

-- whether the sweeper is started
unfoldable pub sweeps : ℤ → ℤ → Bool
sweeps retention max_size = lt_int (pos 0) retention || lt_int (pos 0) max_size

-- the period of its ticker
unfoldable pub sweep_interval : ℤ → ℕ
unfolding min_duration
sweep_interval (pos zero) = minute
sweep_interval (pos (suc n)) = min_duration (suc n / 10) hour
sweep_interval (negsuc n) = minute

-- now - retention, which stays in the range of int64
unfoldable pub cutoff : ℕ → ℕ → ℤ
cutoff now retention =
    if leb retention now then pos (now - retention) else negsuc (retention - now - 1)

-- What a run of either guard logs; `decimal` is %d.
abbrev pub report : (ℕ → String) → String → String → Deleted → List String
report decimal failed did (n, some e) = concat failed e ∷ []
report decimal failed did (zero, none) = []
report decimal failed did (suc n, none) = concat did (concat (decimal (suc n)) " rows") ∷ []

module _ (E : Engine) (decimal : ℕ → String) where
  unfoldable pub sweep_age : ℤ → ℕ → E.Db → List String × E.Db
  sweep_age (pos zero) now d = ([], d)
  sweep_age (negsuc n) now d = ([], d)
  sweep_age (pos (suc n)) now d =
      let (r, d') = delete_before E (cutoff now (suc n)) d in
      (report decimal "Retention (age) error: " "Retention (age): deleted " r, d')

  unfoldable pub sweep_size : ℤ → E.Db → Option (List String × E.Db)
  sweep_size (pos zero) d = some ([], d)
  sweep_size (negsuc n) d = some ([], d)
  sweep_size (pos (suc n)) d = elim (enforce_max_size E (pos (suc n)) d) [
    | none ↦ none
    | some (r, d') ↦
        some (report decimal "Retention (size) error: " "Retention (size): evicted " r, d')
  ]

  -- One tick at the time `now`; `none` would be a tick that does not end.
  unfoldable pub sweep : ℤ → ℤ → ℕ → E.Db → Option (List String × E.Db)
  unfolding sweep_age sweep_size
  sweep retention max_size now d =
      let (lines, d') = sweep_age retention now d in
      elim (sweep_size max_size d') [ none ↦ none | some (more, d'') ↦ some (lines ++ more, d'') ]
