-- ===== src/Server/System.antt =====
-- The server that main of cmd/otelstore/main.go has started: the events that reach it, and what it
-- does on each.
use otelstore.Base.{ℕ, String, Option, none, some, List, [], ◌∷◌}
use otelstore.Http.{Request, Reply}
use otelstore.Sql.{Engine}
use otelstore.Store.Inserts.{Store}
use otelstore.Grpc.{Call, Rpc, Export}
use otelstore.Server.Sweep.{sweep}
use otelstore.Server.Start.{Sweeper, Running}

-- a request to one of the HTTP servers, a call of the gRPC server, a tick of the sweeper's ticker
pub data Event : Type 0 where
  ingests : Request → Event
  queries : Request → Event
  tools : Request → Event
  exports : Export → Call → Event
  ticks : ℕ → Event

-- with the lines that were logged
pub data Answer : Type 0 where
  replied : Reply → Answer
  returned : Rpc → List String → Answer
  swept : List String → Answer

module _ (E : Engine) (decimal : ℕ → String) where
  -- the select of the sweeper's loop on a tick; there are no ticks without a sweeper
  unfoldable pub on_tick : Option Sweeper → ℕ → Store E → Option (Answer × Store E)
  on_tick none now s = some (swept [], s)
  on_tick (some w) now s = elim (sweep E decimal w.retention w.max_size now s.db) [
    | none ↦ none
    | some (lines, d) ↦ some (swept lines, record s { db = d })
  ]

module _ (E : Engine) (decimal : ℕ → String) (running : Running E) where
  -- `none` would be an event that is handled forever
  unfoldable pub handle : Event → Store E → Option (Answer × Store E)
  handle (ingests r) s = let (reply, s') = running.ingest.handler r s in some (replied reply, s')
  handle (queries r) s = let (reply, s') = running.query.handler r s in some (replied reply, s')
  handle (tools r) s = let (reply, s') = running.mcp.handler r s in some (replied reply, s')
  handle (exports req call) s =
      let (rpc, lines, s') = running.grpc req call s in some (returned rpc lines, s')
  handle (ticks now) s = on_tick E decimal running.sweeper now s

  -- some events in their order, with the answers
  unfoldable pub handle_all : List Event → Store E → Option (List Answer × Store E)
  handle_all [] s = some ([], s)
  handle_all (e ∷ es) s = elim (handle e s) [
    | none ↦ none
    | some (answer, s') ↦ elim (handle_all es s') [
      | none ↦ none
      | some (answers, s'') ↦ some (answer ∷ answers, s'')
    ]
  ]
