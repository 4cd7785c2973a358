-- ===== src/Lib.antt =====
-- otelstore receives OpenTelemetry traces, logs and metrics over gRPC and HTTP, keeps them in one
-- SQLite database, and answers queries over REST and MCP. This library models the Go program and
-- proves what its parts promise.
--
-- The parts, and the files that model them:
--   Value, Value/*       attribute values and their merging: convertAnyValue and mergeAttributes of
--                        internal/store/store.go, and the JSON columns (Value/Json)
--   Float, Float/*       float64 values, as the numbers that their 64 bits are
--   Redact, Redact/*     internal/redact/redact.go
--   Sql, Sql/*           the tables of InitSchema (Sql/Rows) and the database engine: a parameter
--                        with its laws (Sql), and an instance of it in memory (Sql/Memory)
--   Store/*              internal/store/store.go: Opening (validateDBPath, Open), Schema (InitSchema),
--                        Records (the row of each record), Inserts (InsertSpans, InsertLogs,
--                        InsertMetrics), Queries (QueryByKey, GetTrace, QueryMetrics, QueryLogs, the
--                        scanners, ErrorSpans) and Retention (DeleteBefore, DBSize, EnforceMaxSize);
--                        Steps has the operations as a step relation and what they reach, Bags the
--                        view of a database that forgets the order of its rows; the other files of the
--                        folder hold proofs: Invariant of what every step keeps, Growth of steps that
--                        only insert, Answers, RoundTrip, LogTrip, MetricTrip, Numbers, NotANumber,
--                        Identity, Success and Atomicity of the operations
--   Http                 the requests and responses of net/http that the handlers read and write
--   Auth, Auth/*         internal/auth/auth.go
--   Ingest, Ingest/*     the walk over an export request, which both receivers share
--   Grpc, Grpc/*         internal/grpcreceiver/grpcreceiver.go
--   Receiver, Receiver/* internal/receiver/receiver.go
--   Query, Query/*       internal/query/query.go, with strconv.Atoi in Query/Numbers
--   Mcp, Mcp/*           internal/mcpserver/mcpserver.go
--   Server/*             cmd/otelstore/main.go: the flags and what they resolve to (Config), the
--                        sweeper (Sweep), main up to the running servers (Start), what these do on
--                        requests, calls and ticks (System), and the shutdown (Shutdown); Safety,
--                        Denied, Visible, Started and Exposed hold the proofs on the whole
--   Emit, Emit/*         emit/emit.go
--   Base, Base/*         what the others share; Tests/* runs the model and applies the theorems
--
-- How they interact. A receiver authenticates a request (Auth), decodes it, and walks its resources
-- and scopes (Ingest); each scope is one call of an insert of the store, in one transaction. The
-- insert merges the attributes of resource, scope and record (Value), redacts them (Redact), makes a
-- row (Store/Records) and hands it to the engine (Sql). The queries select rows and turn each into an
-- entry, a map from column names to values. The sweeper calls DeleteBefore and EnforceMaxSize. main
-- wraps the handlers in the authentication and hands each its listener; a started server then maps an
-- event and the store to an answer and the store (Server/System), and each event is some steps of
-- Store/Steps, through which what the store keeps carries over to the whole program.
--
-- State and errors. The state of the store is the engine's database and the redactor; an operation
-- takes it and returns it. A Go pair of a value and an error is an Outcome; an error is its message.
-- A handler takes a request and the state to a reply, which has the lines that were logged.
--
-- Parameters. The engine (modernc.org/sqlite behind database/sql) may refuse any statement; the laws
-- in Sql.IsLawful say what one that it ran has done, and "a lawful engine" in a comment is an engine
-- that meets them. Store/Emptied adds, as KeepsPages, what SQLite documents of a database without
-- auto_vacuum. Where a theorem says that an engine runs every query, or every write that it can take,
-- that is Sql.IsReading and Sql.IsWriting. The mapping of a character to lower case, the protobuf codecs,
-- mime.ParseMediaType, category Cf of Unicode, filepath.Clean, the environment, the files, net's view
-- of an address, the answers of the SQL driver, whether a port can be listened on, and what the MCP SDK
-- answers from the tools that it is given stand as arguments: Server/Start collects them in World.
--
-- Bounds. Numbers are natural numbers or integers within the range of their Go types: a timestamp
-- above 2^63 - 1 is a statement that the engine refuses (Sql.IsWriting asks for none of them), a NaN in
-- a metric breaks the NOT NULL of its column, since SQLite stores it as NULL, the size of a database is below 2^63 bytes,
-- and a clock minus a retention does not leave int64. A text is a sequence of code points, as valid
-- UTF-8 is. A double is the number of its bits; that SQLite drops the sign of a zero is left out. EnforceMaxSize loops on fuel, one pass more than there
-- are rows, which is enough since each pass that goes on deletes a row.
--
-- Concurrency. The handlers and the sweeper run at the same time, but share only the database, which
-- runs a transaction, or a statement outside one, as a whole. A sequence of steps of Store/Steps, each
-- of them one transaction or one statement, is therefore one order in which they have taken effect;
-- Server/System is coarser, and puts one event behind the other; Server/Schedule has the interleavings of
-- the inserts of export requests, and Server/Concurrent compares the two.
--
-- Not modelled: the parsing of flags, sockets and signals of main, and what is logged when a server
-- ends by itself; timeouts, contexts and their cancellation; the panic of time.NewTicker; the time
-- that a comparison of tokens takes; how grpc-go enforces the limits that it is given; the Rust copy of
-- the span helpers; the tests.
mod Base
pub mod Float
pub mod Value
pub mod Redact
pub mod Sql
pub mod Store
pub mod Http
pub mod Auth
pub mod Ingest
pub mod Grpc
pub mod Receiver
pub mod Query
pub mod Mcp
pub mod Server
pub mod Emit
mod Tests
