-- ===== src/EndToEnd/Running.antt =====
-- src/app.rs, `serve`: the server's task, the importer's task and the token, from the spawn of the
-- importer to the return. A step is what one task does between two awaits; any order of steps that the
-- tasks allow may happen.
pub mod Ends
pub mod Held
pub mod Imports
pub mod Publishes
pub mod Process
pub mod Serve
pub mod Explains
pub mod Ordered
pub mod Complete
use bipa_coding_challenge.Common.{
  ℕ, Bool, true, false, Text, List, [], ◌∷◌, Result, ok, err, map_err, Call,
}
use bipa_coding_challenge.Domain.Time.{Chrono}
use bipa_coding_challenge.Source.Dto.{SerdeJson}
use bipa_coding_challenge.Source.Mempool.{Reqwest, MempoolClient}
use bipa_coding_challenge.Storage.Postgres.{Postgres}
use bipa_coding_challenge.App.Service.{AppError, serve_failed}
use bipa_coding_challenge.Http.Response.{HttpResponse}
use bipa_coding_challenge.Http.Router.{Request, Axum, TowerHttp, respond}
use bipa_coding_challenge.EndToEnd.{node_repository, Outside, answer}
use bipa_coding_challenge.EndToEnd.Task.{Importing, idle, replacing, take_turn}

-- Where `serve` stands: at the server, which has not stopped, at `importer_task.await`, at
-- `pool.close().await`, or returned. The server's result waits for the end.
pub data Stage : Type 0 where
  serving : Stage
  joining closing : Result (Unit {0}) Text → Stage
  returned_with : Result (Unit {0}) AppError → Stage

-- What a step shows: a turn of the importer inside an import, a request with its answer, the signal
-- that cancels the token, the end of the server with its result, or nothing.
pub data Label : Type 0 where
  import_turn quiet signalled : Label
  server_ended : Result (Unit {0}) Text → Label
  request_label : Request → ℕ → Call HttpResponse → Label

module _ (c : Chrono) (s : SerdeJson) (r : Reqwest) (p : Postgres c.Instant)
    (client : MempoolClient r) where
  -- The importer's task: it waits for a tick or the token, runs an import, or has ended.
  pub data Task : Type 0 where
    waiting ended : Task
    running : Importing c s r p client → Task

  -- After a turn of an import: an import that is over goes back to the loop.
  abbrev pub back_to_loop : Importing c s r p client → Task
  back_to_loop idle = waiting
  back_to_loop (replacing nodes phase) = running (replacing nodes phase)

  pub record State : Type 0 where
    pub task : Task
    pub stage : Stage
    pub cancelled : Bool
    pub outside : Outside c s r p client

  abbrev pub at : Task → Stage → Bool → Outside c s r p client → State
  at task stage cancelled outside = record {
    task = task;
    stage = stage;
    cancelled = cancelled;
    outside = outside;
  }

  -- The importer has just been spawned.
  abbrev pub spawned : Outside c s r p client → State
  spawned w = at waiting serving false w

  module _ (axum : Axum) (tower : TowerHttp) where
    -- What a request leaves of the network and the database.
    abbrev pub after_request : Request → ℕ → Outside c s r p client → Outside c s r p client
    after_request request seconds w = record w {
      store = (respond axum tower c (node_repository c s r p client) request seconds w.store).1;
    }

    pub data Step : State → Label → State → Type 0 where
      -- The loop's `select!` is biased: a tick is taken only while the token is not cancelled.
      tick :
          {stage : Stage} {w : Outside c s r p client}
          → Step (at waiting stage false w) quiet (at (running idle) stage false w)
      turn :
          {stage : Stage} {cancelled : Bool} {w : Outside c s r p client}
          (importing : Importing c s r p client)
          → Step (at (running importing) stage cancelled w) import_turn (
              at
                (back_to_loop (take_turn c s r p client importing w).importing)
                stage
                cancelled
                (take_turn c s r p client importing w).outside)
      stop :
          {stage : Stage} {w : Outside c s r p client}
          → Step (at waiting stage true w) quiet (at ended stage true w)
      -- `cancel_on_shutdown_signal`
      signal :
          {task : Task} {stage : Stage} {cancelled : Bool} {w : Outside c s r p client}
          → Step (at task stage cancelled w) signalled (at task stage true w)
      serve_request :
          {task : Task} {cancelled : Bool} {w : Outside c s r p client} (request : Request)
          (seconds : ℕ)
          → Step
              (at task serving cancelled w)
              (request_label request seconds (answer c s r p client axum tower request seconds w))
              (at task serving cancelled (after_request request seconds w))
      -- The server has drained its connections after the cancellation, or fails. Then the token is
      -- cancelled in any case.
      drained :
          {task : Task} {w : Outside c s r p client}
          → Step (at task serving true w) (server_ended (ok tt)) (at task (joining (ok tt)) true w)
      server_failed :
          {task : Task} {cancelled : Bool} {w : Outside c s r p client} (m : Text)
          → Step
              (at task serving cancelled w)
              (server_ended (err m))
              (at task (joining (err m)) true w)
      joined :
          {served : Result (Unit {0}) Text} {cancelled : Bool} {w : Outside c s r p client}
          → Step
              (at ended (joining served) cancelled w)
              quiet
              (at ended (closing served) cancelled w)
      closed :
          {task : Task} {served : Result (Unit {0}) Text} {cancelled : Bool}
          {w : Outside c s r p client}
          → Step
              (at task (closing served) cancelled w)
              quiet
              (at task (returned_with (map_err serve_failed served)) cancelled w)

    pub data Steps : State → List Label → State → Type 0 where
      here : {t : State} → Steps t [] t
      go :
          {t u v : State} {label : Label} {labels : List Label}
          → Step t label u
          → Steps u labels v
          → Steps t (label ∷ labels) v
