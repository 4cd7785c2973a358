-- ===== src/Server/Shutdown.antt =====
-- The end of main of cmd/otelstore/main.go, from the signal on: its calls in their order, whether or
-- not an earlier one fails.
use otelstore.Base.{String, Option, none, some, List, [], ◌∷◌, ◌++◌, Error, concat}
use otelstore.Sql.{Engine}
use otelstore.Server.Start.{Running, Sweeper}

-- the HTTP servers
pub data Part : Type 0 where
  ingest_part query_part mcp_part : Part

-- a line in the log, or a call; `shuts_down` has the error that Shutdown returned
pub data Act : Type 0 where
  logs : String → Act
  stops_sweeper : Act
  stops_grpc : Act
  shuts_down : Part → Option Error → Act
  closes_store : Act

abbrev pub failure_text : Part → String
failure_text ingest_part = "Ingest server shutdown error: "
failure_text query_part = "Query server shutdown error: "
failure_text mcp_part = "MCP server shutdown error: "

-- a call of Shutdown, whose error is logged
abbrev pub shut_down : Part → Option Error → List Act
shut_down part none = shuts_down part none ∷ []
shut_down part (some e) = shuts_down part (some e) ∷ logs (concat (failure_text part) e) ∷ []

abbrev pub stop_sweeper : Option Sweeper → List Act
stop_sweeper none = []
stop_sweeper (some w) = stops_sweeper ∷ []

-- the deferred Close comes last
unfoldable pub shutdown : {E : Engine} → (Part → Option Error) → Running E → List Act
shutdown error running =
    logs "Shutting down..."
    ∷ (stop_sweeper running.sweeper
        ++ (stops_grpc
            ∷ (shut_down ingest_part (error ingest_part)
                ++ (shut_down query_part (error query_part)
                    ++ (shut_down mcp_part (error mcp_part)
                        ++ (logs "Shutdown complete" ∷ closes_store ∷ []))))))
