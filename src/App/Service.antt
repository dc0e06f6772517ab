-- ===== src/App/Service.antt =====
-- src/app.rs and src/main.rs: the service from its start to its end. tokio's runtime, axum's server and
-- the listener are parameters; what happens to them is in the world, which every step passes on.
use bipa_coding_challenge.Common.{ℕ, Option, none, some, Text, List, Result, ok, err, map_err}
use bipa_coding_challenge.Source.{SourceError}
use bipa_coding_challenge.Source.Mempool.{Reqwest, MempoolClient, new}
use bipa_coding_challenge.Storage.{StorageError}
use bipa_coding_challenge.Storage.Connect.{Sqlx}
use bipa_coding_challenge.Config.{Net, Config, from_env}
use bipa_coding_challenge.Telemetry.{Tracing, init}
use bipa_coding_challenge.App.{Round, Retried, connect_with_retry, migrate_with_retry}

pub data AppError : Type 0 where
  storage : StorageError → AppError
  source : SourceError → AppError
  serve_failed : Text → AppError

pub data ExitCode : Type 0 where
  success failure : ExitCode

-- `World` is that of sqlx; `as_url` says that the configuration's URLs are the client's.
pub record Runtime (net : Net) (r : Reqwest) (x : Sqlx) : Type 1 where
  pub as_url : net.Url → r.Url
  pub Listener : Type 0
  pub tracing : Tracing x.World
  -- `TcpListener::bind(addr)`
  pub bind : net.SocketAddr → x.World → Result Listener Text × x.World
  -- `tokio::spawn(importer.run(interval, token))`
  pub spawn_importer : MempoolClient r → x.Pool → ℕ → x.World → x.World
  -- `axum::serve(listener, router).with_graceful_shutdown(…)`, until the token is cancelled or it fails
  pub serve_http : Listener → x.Pool → x.World → Result (Unit {0}) Text × x.World
  -- `token.cancel()`
  pub cancel : x.World → x.World
  -- `importer_task.await`; an error is only logged
  pub join_importer : x.World → Result (Unit {0}) Text × x.World

module _ {net : Net} {r : Reqwest} {x : Sqlx} (rt : Runtime net r x) where
  -- What follows when the server has stopped, for whatever reason.
  unfoldable pub shut_down : x.Pool → x.World → x.World
  shut_down pool w = x.close pool (rt.join_importer (rt.cancel w)).1

  unfoldable pub serve :
      Config net → x.Pool → rt.Listener → x.World → Result (Unit {0}) AppError × x.World
  unfolding new shut_down
  serve config pool listener w =
      elim (new r (rt.as_url config.mempool_url) config.http_client_timeout) [
        | err e ↦ (err (source e), w)
        | ok client ↦
            let served =
              rt.serve_http listener pool
                (rt.spawn_importer client pool config.import_interval w) in
            (map_err serve_failed served.0, shut_down pool served.1)
      ]

  -- What the code after the migration does with its result; `none` while it is still being retried.
  unfoldable pub after_migration :
      Config net
      → x.Pool
      → rt.Listener
      → Retried x.World (Unit {0}) StorageError
      → Option (Result (Unit {0}) AppError) × x.World
  unfolding serve
  after_migration config pool listener migrated = elim migrated.result [
    | none ↦ (none, migrated.world)
    | some (err e) ↦ (some (err (storage e)), migrated.world)
    | some (ok none) ↦ (some (ok tt), x.close pool migrated.world)
    | some (ok (some _)) ↦
        let served = serve config pool listener migrated.world in (some served.0, served.1)
  ]

  -- The rounds are those of the two retries.
  unfoldable pub run :
      Config net
      → rt.Listener
      → List (Round x.World)
      → List (Round x.World)
      → x.World
      → Option (Result (Unit {0}) AppError) × x.World
  unfolding connect_with_retry migrate_with_retry after_migration
  run config listener connecting migrating w =
      let connected = connect_with_retry x config.database_url connecting w in
      elim connected.result [
        | none ↦ (none, connected.world)
        | some (err e) ↦ (some (err (storage e)), connected.world)
        | some (ok none) ↦ (some (ok tt), connected.world)
        | some (ok (some pool)) ↦
            after_migration config pool listener
              (migrate_with_retry x pool migrating connected.world)
      ]

  abbrev pub exit_code : Result (Unit {0}) AppError → ExitCode
  exit_code (ok _) = success
  exit_code (err _) = failure

  abbrev pub code_of : Option (Result (Unit {0}) AppError) × x.World → Option ExitCode × x.World
  code_of (none, w) = (none, w)
  code_of (some result, w) = (some (exit_code result), w)

  -- `main` where `std::env::var` is `env_var`: the exit code, or `none` while the start is still being retried.
  unfoldable pub main :
      {E : Type 0}
      → (Text → Result Text E)
      → List (Round x.World)
      → List (Round x.World)
      → x.World
      → Option ExitCode × x.World
  unfolding from_env init run
  main env_var connecting migrating w =
      let logging = init rt.tracing w in
      elim logging.0 [
        | err _ ↦ (some failure, logging.1)
        | ok _ ↦ elim (from_env net env_var) [
          | err _ ↦ (some failure, logging.1)
          | ok config ↦
              let bound = rt.bind config.bind_addr logging.1 in
              elim bound.0 [
                | err _ ↦ (some failure, bound.1)
                | ok listener ↦ code_of (run config listener connecting migrating bound.1)
              ]
        ]
      ]
