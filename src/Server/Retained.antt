-- ===== src/Server/Retained.antt =====
-- Which events leave a stored span of the server of cmd/otelstore/main.go where it is.
use mathlib.Core.List.{Mem, mem-append_left}
use otelstore.Base.{
  ℕ, zero, suc, ◌+◌, ◌≤◌, ◌≡◌, refl, ap, not, false, some, List, [], ◌∷◌, All, inl, inr, none,
  Option, Bool-cases, String, arith,
}
use otelstore.Base.Int.{ℤ, pos, negsuc}
use otelstore.Sql.{Engine, IsLawful}
use otelstore.Sql.Rows.{SpanRow, spans}
use otelstore.Store.Inserts.{Store}
use otelstore.Store.Retention.{is_expired}
use otelstore.Store.Steps.{Grown}
use otelstore.Store.Growth.{Grown-Extends}
use otelstore.Store.Found.{Mem-keep}
use otelstore.Server.Config.{Flags}
use otelstore.Server.Sweep.{cutoff, sweeps}
use otelstore.Server.Sweeping.{IsAged, IsSized, sweep_lem}
use otelstore.Server.Start.{World, Sweeper, start_sweeper, running}
use otelstore.Server.System.{
  Event, ingests, queries, tools, exports, ticks, Answer, swept, on_tick, handle, handle_all,
}
use otelstore.Server.Handled.{handle_lem}

-- no guard of the size
abbrev pub IsUnlimited : ℤ → Type 0
IsUnlimited (pos zero) = Unit
IsUnlimited (negsuc n) = Unit
IsUnlimited (pos (suc n)) = ⊥

-- not older than the retention, if there is one
abbrev pub IsYoung : ℤ → ℕ → SpanRow → Type 0
IsYoung (pos zero) now row = Unit
IsYoung (negsuc n) now row = Unit
IsYoung (pos (suc n)) now row = now ≤ row.start_ns + suc n

abbrev pub Spares : Flags → SpanRow → Event → Type 0
Spares flags row (ticks now) = IsUnlimited flags.max_size × IsYoung flags.retention now row
Spares flags row (ingests r) = Unit
Spares flags row (queries r) = Unit
Spares flags row (tools r) = Unit
Spares flags row (exports req call) = Unit

young_kept :
    (n now : ℕ) (row : SpanRow)
    → now ≤ row.start_ns + suc n
    → is_expired (cutoff now (suc n)) spans row ≡ false
unfolding cutoff
young_kept n now row h = ground arith

module _ (E : Engine) (decimal : ℕ → String) (row : SpanRow) where
  aged_kept :
      (retention : ℤ) (now : ℕ) (d : E.Db) (lines : List String) (d' : E.Db)
      → IsYoung retention now row
      → IsAged E decimal retention now d lines d'
      → Mem row (E.tables d).span_rows
      → Mem row (E.tables d').span_rows
  aged_kept (pos zero) now d lines d' young (_, same) m = rw same m
  aged_kept (negsuc n) now d lines d' young (_, same) m = rw same m
  aged_kept (pos (suc n)) now d lines d' young guard m = elim (guard.partly spans) [
    | inl same ↦ rw same m
    | inr left ↦ rw left (
        Mem-keep (λ r. not (is_expired (cutoff now (suc n)) spans r)) row _
          (ap not (young_kept n now row young)) m)
  ]

  sized_kept :
      (max_size : ℤ) (d : E.Db) (lines : List String) (d' : E.Db)
      → IsUnlimited max_size
      → IsSized E decimal max_size d lines d'
      → d' ≡ d
  sized_kept (pos zero) d lines d' unlimited (_, same) = same
  sized_kept (negsuc n) d lines d' unlimited (_, same) = same
  sized_kept (pos (suc n)) d lines d' unlimited same = absurd unlimited

  -- what a tick needs of the sweeper that runs
  abbrev SparesTick : Option Sweeper → ℕ → Type 0
  SparesTick none now = Unit
  SparesTick (some w) now = IsUnlimited w.max_size × IsYoung w.retention now row

  start_sweeper-SparesTick :
      (flags : Flags) (now : ℕ)
      → IsUnlimited flags.max_size
      → IsYoung flags.retention now row
      → SparesTick (start_sweeper flags) now
  unfolding start_sweeper
  start_sweeper-SparesTick flags now unlimited young =
      elim (Bool-cases (sweeps flags.retention flags.max_size)) [
        | inl runs ↦ rw (runs, start_sweeper) (unlimited, young)
        | inr idle ↦ rw (idle, start_sweeper) tt
      ]

module _ (E : Engine) (law : IsLawful E) (decimal : ℕ → String) (row : SpanRow) where
  on_tick_kept :
      (sweeper : Option Sweeper) (now : ℕ) (s : Store E)
      → SparesTick E decimal row sweeper now
      → Mem row (E.tables s.db).span_rows
      → (a : Answer) × (u : Store E) × (on_tick E decimal sweeper now s ≡ some (a, u))
        × Mem row (E.tables u.db).span_rows
  unfolding on_tick
  on_tick_kept none now s spares m = (_, s, refl, m)
  on_tick_kept (some w) now s (unlimited, young) m =
      let ((lines, d), (aged_lines, aged), more, ends, _, is_aged, sized) =
        sweep_lem E law decimal w.retention w.max_size now s.db in
      let same = sized_kept E decimal row w.max_size aged more d unlimited sized in
      (
        swept lines,
        record s { db = d },
        rw (ends, on_tick) refl,
        rw same (aged_kept E decimal row w.retention now s.db aged_lines aged young is_aged m),
      )

module _ (E : Engine) (law : IsLawful E) (W : World E) (flags : Flags) (auth_token : String)
    (first : Store E) (row : SpanRow) where
  abbrev StaysAfter : Event → Store E → Type 0
  StaysAfter e s =
      (a : Answer) × (u : Store E) × (handle E W.decimal (running E W flags auth_token first) e s
        ≡ some (a, u))
      × Mem row (E.tables u.db).span_rows

  grown_kept :
      (s u : Store E)
      → Grown E W.lower s u
      → Mem row (E.tables s.db).span_rows
      → Mem row (E.tables u.db).span_rows
  grown_kept s u grown m =
      let (more, rows) = Grown-Extends E W.lower law grown spans in rw rows (mem-append_left more m)

  handle_kept :
      (e : Event) (s : Store E)
      → Spares flags row e
      → Mem row (E.tables s.db).span_rows
      → StaysAfter e s
  unfolding handle running
  handle_kept (ingests r) s spares m =
      let (a, u, ends, grown) = handle_lem E law W flags auth_token first (ingests r) s in
      (a, u, ends, grown_kept s u grown m)
  handle_kept (queries r) s spares m =
      let (a, u, ends, same) = handle_lem E law W flags auth_token first (queries r) s in
      (a, u, ends, rw same m)
  handle_kept (tools r) s spares m =
      let (a, u, ends, same) = handle_lem E law W flags auth_token first (tools r) s in
      (a, u, ends, rw same m)
  handle_kept (exports req call) s spares m =
      let (a, u, ends, grown) = handle_lem E law W flags auth_token first (exports req call) s in
      (a, u, ends, grown_kept s u grown m)
  handle_kept (ticks now) s (unlimited, young) m =
      on_tick_kept E law W.decimal row (start_sweeper flags) now s
        (start_sweeper-SparesTick E W.decimal row flags now unlimited young) m

  -- Events that spare a stored span are handled to their end, and it is stored still.
  pub handle_all_kept :
      (es : List Event) (s : Store E)
      → All (Spares flags row) es
      → Mem row (E.tables s.db).span_rows
      → (answers : List Answer) × (u : Store E) × (handle_all E W.decimal
            (running E W flags auth_token first)
            es
            s
          ≡ some (answers, u))
        × Mem row (E.tables u.db).span_rows
  unfolding handle_all
  handle_all_kept [] s spares m = ([], s, refl, m)
  handle_all_kept (e ∷ es) s (spare, spares) m =
      let (a, u, ends, kept) = handle_kept e s spare m in
      let (answers, w, all_end, kept') = handle_all_kept es u spares kept in
      (a ∷ answers, w, rw (ends, handle_all, all_end) refl, kept')
