-- ===== src/Lib.antt =====
-- bipa-nodes: a service that imports the Lightning node ranking of mempool.space into PostgreSQL and
-- serves it as JSON. This library models the service and proves what its parts promise.
--
-- The program. The importer (src/importer.rs) runs a loop in a task: at each tick it asks a source
-- (src/source/) for the ranking and hands the nodes to a repository (src/storage/), which replaces the
-- stored snapshot in one transaction. The HTTP API (src/http/) reads the snapshot from the repository
-- and never asks the source. The configuration (src/config.rs) comes from environment variables. At
-- the start src/app.rs connects to the database, with exponential backoff, and migrates it.
--
-- The files, and the code that each models:
--   Common     shared types: texts as lists of code points, `Result` with `?` as bind, `Call` for code
--              that may panic, machine integers as their values with the checked conversions
--   Std        what the code uses of Rust's standard library: printing and parsing of decimal numbers
--   Domain     src/domain/: `Node`, `format_btc`, `timestamp_from_unix`, `format_timestamp`
--   Source     src/source/: Source/Dto is dto.rs (`try_from`, `parse_records`), Source/Mempool is
--              mempool.rs (`new`, `fetch_nodes`); `NodeSource` is the trait of mod.rs
--   Storage    src/storage/: `NodeRepository` is the trait of mod.rs, with its contract in
--              `RepositoryLaws`; Storage/Connect has `connect` and `migrate`; Storage/Postgres is
--              postgres.rs and migrations/0001_create_nodes.sql
--   Importer   src/importer.rs: `run_once`, `run`, `log_result`; Importer/Timing has the instants at
--              which the imports of `run` start
--   Http       src/http/: Http/Router is mod.rs, Http/Handlers is handlers.rs, Http/Response is
--              response.rs and error.rs; Http/Json has the names of the fields in the bodies
--   Config     src/config.rs: `from_lookup` and its helpers, `redact_database_url`, `Debug`
--   App        src/app.rs: `backoff_delay`, `retry`, `connect_with_retry`, `migrate_with_retry`;
--              App/Service has `serve`, `run` and the `main` of src/main.rs, App/Signals its
--              `cancel_on_shutdown_signal`
--   Telemetry  src/telemetry.rs: `init`
--   EndToEnd   the parts as `serve` of src/app.rs puts them together
--   TestSupport  src/test_support.rs: the fake source and the fake repository
--   UnitTests  the unit tests in the files under src/: what each asserts, about the model
--   IntegrationTests  the tests of tests/, over servers that stand in for those that they run against
--   Tests      concrete functions for all the parameters, and runs of the theorems at them
-- The files below these prove: Domain/Format/RoundTrip, Source/Dto/Validation and Records,
-- Source/Mempool/Fetch, Storage/Postgres/Encode, Decode, Replace, Snapshot, Progress, Repository and
-- Isolation, Importer/RunOnce, Loop and Pace, Http/Router/Layers, Sent and Safety, Http/Json/Client and
-- Schema, Config/Load, Errors and Redact, App/Backoff, Retry, Cancelled, Ended and Shutdown,
-- EndToEnd/Import, Served, History, Underway and Concurrent, and EndToEnd/Running/Ends, Held, Explains,
-- Ordered, Complete, Imports, Publishes, Serve and Process.
-- Storage/Postgres/Interleaving writes `replace_all` as a machine that goes one await at a time, between
-- whose turns other tasks list the nodes; what the commit writes is seen from the turn in which the server
-- processes it, and its await returns in a later one. EndToEnd/Task does so for one import of the importer's task,
-- and EndToEnd/Running for the whole of `serve` from the spawn of the importer to its return: the
-- importer's loop, the server, the token and the shutdown are steps that may follow each other in any
-- order that the code allows. A request is one step, since its handler has one await that matters, the
-- listing; a server that has ended answers no more requests. EndToEnd/Running/Serve relates the code of
-- `serve` in App/Service to these steps, by what tokio, axum and sqlx document (`Schedules`).
--
-- How state and effects are written. The traits `NodeSource` and `NodeRepository` are records of
-- functions over a state that is threaded through every call. A call returns or panics. An `async`
-- function is a function of the state in which it runs; what tokio decides (whether the token is
-- cancelled, whether a tick is due, how long something takes) is an argument: a list of `Wake`s for
-- the importer, a list of `Round`s for a retry, a number of seconds for a request. A theorem over all
-- such lists is a theorem over all schedules. The log is kept where the code's behaviour shows only
-- there.
--
-- Code outside the repository is a parameter, with what its documentation says as named laws: chrono
-- (`Chrono`, `ChronoLaws`), serde_json (`SerdeJson`, `SerdeJsonLaws`), reqwest (`Reqwest`),
-- PostgreSQL through sqlx (`Postgres`, `PostgresLaws`), sqlx's pool (`Sqlx`), axum and tower-http
-- (`Axum`, `TowerHttp`), tokio and the server of axum (`Runtime`, `RuntimeLaws`,
-- `Schedules`), tokio's timer
-- (`TokioTime`, `TokioTimeLaws`), tracing_subscriber (`Tracing`), serde_json's writer (`SerdeWriter`),
-- the parsers of addresses and URLs (`Net`, `UrlLaws`). PostgreSQL keeps the rows of a table in no
-- order, so equality of tables is up to permutation, and a commit that fails may have taken effect. The
-- contract of `NodeRepository` therefore names where an implementation may lose the outcome of a
-- replacement (`Lost` of `RepositoryLaws`); elsewhere an error leaves the previous snapshot. Of a response
-- to HEAD axum sends no body (`sent` of `Axum`).
--
-- Bounds. Numbers are unbounded and each checked conversion of the code is a test against 2 ^ 63 or
-- 2 ^ 31, as is the overflow of `u64` parsing and of the shift of the backoff. The loops run over the
-- list of what wakes them and need no fuel. Only printing a number runs on fuel: `n + 1` rounds for
-- `n`, enough because each round divides by ten, as the round trips show for every number.
--
-- Not modelled: `imported_at`, which the code never reads, and the scheduler's latency; and of tests/ the
-- test of the table's columns in the catalogue, the one against the real mempool.space, and the limits
-- on the time that a test may take.
pub mod Common
pub mod Std
pub mod Domain
pub mod Source
pub mod Storage
pub mod Importer
pub mod Http
pub mod Config
pub mod App
pub mod Telemetry
pub mod EndToEnd
pub mod TestSupport
pub mod Tests
pub mod UnitTests
pub mod IntegrationTests
