-- ===== src/Tests/Keeper.antt =====
-- A runtime that keeps what the tasks of `serve` have come to: its server lets the importer import once,
-- answers a request, and stops by a signal.
use bipa_coding_challenge.Domain.Time.{Chrono}
use bipa_coding_challenge.Source.Dto.{SerdeJson}
use bipa_coding_challenge.Source.Mempool.{Reqwest}
use bipa_coding_challenge.Storage.Postgres.{Postgres}
use bipa_coding_challenge.Http.Router.{Axum, TowerHttp}
use bipa_coding_challenge.Config.{Net}
use bipa_coding_challenge.Common.{◌≡◌, refl, Bool, true, false, Text, [], Result, ok}
use bipa_coding_challenge.Source.Mempool.{MempoolClient}
use bipa_coding_challenge.Storage.Connect.{Sqlx}
use bipa_coding_challenge.App.Service.{Runtime}
use bipa_coding_challenge.EndToEnd.{Outside, import_once}
use bipa_coding_challenge.EndToEnd.Served.{get_nodes}
use bipa_coding_challenge.EndToEnd.Running.{
  Stage, serving, joining, Task, waiting, ended, State, at, spawned, after_request, stop, signal,
  serve_request, here, go,
}
use bipa_coding_challenge.EndToEnd.Running.Imports.{serve-import_once, Steps-append}
use bipa_coding_challenge.EndToEnd.Running.Serve.{Leads, Schedules}
use bipa_coding_challenge.Tests.Service.{quiet_tracing}

module _ (c : Chrono) (s : SerdeJson) (r : Reqwest) (p : Postgres c.Instant)
    (client : MempoolClient r) (axum : Axum) (tower : TowerHttp) (net : Net)
    (as_url : net.Url → r.Url) where
  abbrev pub World : Type 0
  World = Outside c s r p client

  -- Whether the importer has ended, whether the token is cancelled, and what is outside.
  abbrev pub Service : Type 0
  Service = Bool × Bool × World

  abbrev pub imported : World → World
  imported w = (import_once c s r p client w).1

  abbrev pub asked : World → World
  asked w = after_request c s r p client axum tower get_nodes 0 w

  abbrev pub served : Service → Service
  served (false, false, w) = (false, true, asked (imported w))
  served (true, false, w) = (true, true, w)
  served (over, true, w) = (over, true, w)

  abbrev pub service_sqlx : Sqlx
  service_sqlx = record {
    World = Service;
    Pool = Text;
    open_pool = λ connections timeout url w. (ok url, w);
    run_migrations = λ pool w. (ok tt, w);
    close = λ pool w. w;
  }

  abbrev pub service_runtime : Runtime net r service_sqlx
  service_runtime = record {
    as_url = as_url;
    Listener = net.SocketAddr;
    tracing = quiet_tracing;
    bind = λ addr w. (ok addr, w);
    spawn_importer = λ client pool interval w. (false, w.1, w.2);
    serve_http = λ listener pool w. (ok tt, served w);
    cancel = λ w. (w.0, true, w.2);
    join_importer = λ w. (ok tt, (w.1, w.1, w.2));
  }

  abbrev pub task_of : Bool → Task c s r p client
  task_of true = ended
  task_of false = waiting

  abbrev pub state : Stage → Service → State c s r p client
  state stage w = at c s r p client (task_of w.0) stage w.1 w.2

  abbrev pub LeadsTo : Stage → Service → Service → Type 0
  LeadsTo stage w later = Leads c s r p client axum tower (state stage w) (state stage later)

  pub spawns :
      (w : Service)
      → Leads c s r p client axum tower
          (spawned c s r p client w.2)
          (state serving (false, w.1, w.2))
  spawns (over, false, w) = ([], here)
  spawns (over, true, w) = (_, go signal here)

  pub serves : (w : Service) → LeadsTo serving w (served w)
  serves (false, false, w) =
      let (labels, _, steps) = serve-import_once c s r p client axum tower serving w in
      let asks : LeadsTo serving (false, false, imported w) (false, true, asked (imported w)) =
        (_, go (serve_request {w = imported w} get_nodes 0) (go signal here)) in
      (_, Steps-append c s r p client axum tower _ _ _ _ _ steps asks.1)
  serves (true, false, w) = (_, go signal here)
  serves (false, true, w) = ([], here)
  serves (true, true, w) = ([], here)

  pub tells : (w : Service) → (served w).1 ≡ true
  tells (false, false, w) = refl
  tells (true, false, w) = refl
  tells (false, true, w) = refl
  tells (true, true, w) = refl

  pub joins :
      (kept : Result (Unit {0}) Text) (w : Service)
      → w.1 ≡ true
      → LeadsTo (joining kept) w (w.1, w.1, w.2)
  joins kept (over, false, w) e = absurd (cc)
  joins kept (false, true, w) e = (_, go stop here)
  joins kept (true, true, w) e = ([], here)

  abbrev pub service_schedules : Schedules c s r p client axum tower service_runtime
  service_schedules = record {
    task = λ w. task_of w.0;
    cancelled = λ w. w.1;
    outside = λ w. w.2;
    behind = λ pool w. w.2;
    spawn-Leads = λ pool interval w. spawns w;
    serve-Leads = λ listener pool w. serves w;
    serve-cancelled = λ listener pool w e. tells w;
    cancel-task = λ w. refl;
    cancel-cancelled = λ w. refl;
    cancel-outside = λ w. refl;
    join-Leads = joins;
    join-ended = λ w e. rw e refl;
    close-Leads = λ kept pool w e. ([], here);
  }
