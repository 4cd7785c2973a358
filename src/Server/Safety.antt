-- ===== src/Server/Safety.antt =====
-- The server of cmd/otelstore/main.go from its start on, whatever reaches it.
use otelstore.Base.{◌≡◌, refl, some, List, [], ◌∷◌, All, String}
use otelstore.Sql.{Engine, IsLawful}
use otelstore.Store.Inserts.{Store}
use otelstore.Store.Batches.{IsKeyed}
use otelstore.Store.Privacy.{IsRedactedRow}
use otelstore.Store.Keeping.{Extends}
use otelstore.Store.Steps.{Grown, grown_none, Reach, here}
use otelstore.Store.Growth.{Grown-Reach, Grown-trans, Reach-trans, Grown-Extends}
use otelstore.Store.Prepared.{init_schema_keeps}
use otelstore.Store.Invariant.{Everywhere, IsKept, Reach-IsKept}
use otelstore.Server.Config.{Flags, configured_redactor}
use otelstore.Server.Start.{World, goes, Running, running, start}
use otelstore.Server.Started.{configured, IsStart, start_lem}
use otelstore.Server.System.{
  Event, ingests, queries, tools, exports, ticks, Answer, handle, handle_all,
}
use otelstore.Server.Handled.{Changes, handle_lem}

-- anything but a tick of the sweeper
abbrev pub IsRequest : Event → Type 0
IsRequest (ticks now) = ⊥
IsRequest _ = Unit

module _ (E : Engine) (law : IsLawful E) (W : World E) (flags : Flags) where
  Changes-Reach :
      (e : Event) (s u : Store E) → Changes E W.lower law W.decimal e s u → Reach E W.lower s u
  Changes-Reach (ingests r) s u g = Grown-Reach E W.lower g
  Changes-Reach (queries r) s u same = rw same here
  Changes-Reach (tools r) s u same = rw same here
  Changes-Reach (exports req call) s u g = Grown-Reach E W.lower g
  Changes-Reach (ticks now) s u r = r

  Changes-Grown :
      (e : Event) (s u : Store E)
      → IsRequest e
      → Changes E W.lower law W.decimal e s u
      → Grown E W.lower s u
  Changes-Grown (ingests r) s u _ g = g
  Changes-Grown (queries r) s u _ same = rw same grown_none
  Changes-Grown (tools r) s u _ same = rw same grown_none
  Changes-Grown (exports req call) s u _ g = g
  Changes-Grown (ticks now) s u h _ = absurd h

  -- the part of the start that the store depends on
  starts_kept :
      (lines : List String) (R : Running E)
      → start E W flags ≡ goes lines R
      → (auth_token : String) × (d : E.Db) × (E.tables d ≡ E.tables (W.opened flags.db_path))
        × (R ≡ running E W flags auth_token (configured E W flags d))
  starts_kept lines R h =
      let serving : IsStart E W flags (goes lines R) = rw h at (start_lem E W flags) in
      let (auth_token, _, _, _, _, _, same) = serving in
      (auth_token, _, init_schema_keeps E law (W.opened flags.db_path), same)

  module _ (auth_token : String) (first : Store E) where
    abbrev pub R : Running E
    R = running E W flags auth_token first

    handled :
        (e : Event) (es : List Event) (s u : Store E) (a : Answer) (w : Store E)
        (answers : List Answer)
        → handle E W.decimal R e s ≡ some (a, u)
        → handle_all E W.decimal R es u ≡ some (answers, w)
        → handle_all E W.decimal R (e ∷ es) s ≡ some (a ∷ answers, w)
    unfolding handle_all
    handled e es s u a w answers h k = rw (h, handle_all, k) refl

    pub handle_all_lem :
        (es : List Event) (s : Store E)
        → (answers : List Answer) × (u : Store E) × (handle_all E W.decimal R es s
            ≡ some (answers, u))
          × Reach E W.lower s u
          × (All IsRequest es → Grown E W.lower s u)
    handle_all_lem [] s = ([], s, (unfold handle_all in refl), here, (λ _. grown_none))
    handle_all_lem (e ∷ es) s =
        let (a, u, ends, changes) = handle_lem E law W flags auth_token first e s in
        let (answers, w, all_end, reach, grown) = handle_all_lem es u in
        (
          a ∷ answers,
          w,
          handled e es s u a w answers ends all_end,
          Reach-trans E W.lower (Changes-Reach e s u changes) reach,
          (λ (h, hs). Grown-trans E W.lower (Changes-Grown e s u h changes) (grown hs)),
        )

  -- On a lawful engine: Let main have started to serve over a database in which no two spans share
  -- trace id and span id, and no row shows a value that a rule of the flags covers. Then it handles
  -- every sequence of requests, calls and ticks to its end, each of them; the store has the
  -- redactor of the flags throughout, no two spans share their ids, and no row shows a value that a
  -- rule covers.
  pub start-IsKept :
      (lines : List String) (server : Running E)
      → start E W flags ≡ goes lines server
      → IsKeyed (E.tables (W.opened flags.db_path)).span_rows
      → Everywhere
          (IsRedactedRow W.lower (configured_redactor W.env flags W.lower))
          (E.tables (W.opened flags.db_path))
      → (es : List Event)
      → (answers : List Answer) × (u : Store E) × (handle_all E W.decimal server es server.store
          ≡ some (answers, u))
        × IsKept E W.lower (configured_redactor W.env flags W.lower) u
  unfolding running
  start-IsKept lines server h keyed withheld es =
      let (auth_token, d, same, is) = starts_kept lines server h in
      let first = configured E W flags d in
      let (answers, u, ends, reach, _) = handle_all_lem auth_token first es first in
      rw is (
        answers,
        u,
        ends,
        Reach-IsKept E law W.lower (configured_redactor W.env flags W.lower) reach
            (record { configured = refl; keyed = rw same keyed; withheld = rw same withheld }),
      )

  -- On a lawful engine: What a started server has stored stays until the sweeper ticks: any
  -- requests and calls, in any number and order, admitted or not, are handled to their end, and the
  -- rows that a table had before them stand in front of those that it has, in their order.
  pub start-Extends :
      (lines : List String) (server : Running E)
      → start E W flags ≡ goes lines server
      → (es : List Event) (s : Store E) → All IsRequest es
      → (answers : List Answer) × (u : Store E) × (handle_all E W.decimal server es s
          ≡ some (answers, u))
        × Extends (E.tables s.db) (E.tables u.db)
  start-Extends lines server h es s requests =
      let (auth_token, d, same, is) = starts_kept lines server h in
      let (answers, u, ends, _, grown) = handle_all_lem auth_token (configured E W flags d) es s in
      rw is (answers, u, ends, Grown-Extends E W.lower law (grown requests))
