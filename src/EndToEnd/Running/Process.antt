-- ===== src/EndToEnd/Running/Process.antt =====
-- The process, `main` of src/main.rs, and the steps of `serve`.
use bipa_coding_challenge.Common.{◌≡◌, ◌⊎◌, inl, inr, true, some, Text, List, Result, ok}
use bipa_coding_challenge.Domain.Time.{Chrono}
use bipa_coding_challenge.Source.Dto.{SerdeJson}
use bipa_coding_challenge.Source.Mempool.{Reqwest, MempoolClient, new}
use bipa_coding_challenge.Storage.Postgres.{Postgres}
use bipa_coding_challenge.Storage.Connect.{Sqlx}
use bipa_coding_challenge.Config.{Net, Config, from_env}
use bipa_coding_challenge.App.{Round}
use bipa_coding_challenge.Telemetry.{init}
use bipa_coding_challenge.App.Retry.{cancels}
use bipa_coding_challenge.App.Ended.{
  connected, migrated, Ended, never_connected, never_migrated, served, run-Ended,
}
use bipa_coding_challenge.App.Service.{success, Runtime, main}
use bipa_coding_challenge.App.Shutdown.{main-success}
use bipa_coding_challenge.Http.Router.{Axum, TowerHttp}
use bipa_coding_challenge.EndToEnd.Running.{returned_with, Label, spawned, Steps}
use bipa_coding_challenge.EndToEnd.Running.Serve.{moment, Schedules, serve-Steps}

module _ (c : Chrono) (s : SerdeJson) (r : Reqwest) (p : Postgres c.Instant)
    (client : MempoolClient r) where
  module _ (axum : Axum) (tower : TowerHttp) where
    module _ {net : Net} {x : Sqlx} (rt : Runtime net r x)
        (schedules : Schedules c s r p client axum tower rt) where
      open schedules use {task, cancelled, outside, behind}

      -- The connection and the migration of the database succeeded, and from there `serve` went by steps
      -- from the spawn of the importer to a return without an error.
      abbrev pub ServedTo :
          Config net → List (Round x.World) → List (Round x.World) → x.World → x.World → Type 0
      ServedTo config connecting migrating w last =
          (pool : x.Pool) × (labels : List Label) × ((connected rt config connecting w).result
            ≡ some (ok (some pool)))
          × ((migrated rt config connecting migrating w pool).result ≡ some (ok (some tt)))
          × Steps c s r p client axum tower
              (spawned c s r p client
                (behind pool (migrated rt config connecting migrating w pool).world))
              labels
              (moment c s r p client axum tower rt task cancelled outside (returned_with (ok tt))
                last)

      -- The ways in which a process exits with success.
      abbrev pub EndsIn :
          Config net → List (Round x.World) → List (Round x.World) → x.World → x.World → Type 0
      EndsIn config connecting migrating w last =
          (cancels connecting ≡ true)
          ⊎ (cancels migrating ≡ true)
          ⊎ ServedTo config connecting migrating w last

      Ended-EndsIn :
          (config : Config net) (listener : rt.Listener)
          (connecting migrating : List (Round x.World)) (w last : x.World)
          → new r (rt.as_url config.mempool_url) config.http_client_timeout ≡ ok client
          → Ended rt config listener connecting migrating w last
          → EndsIn config connecting migrating w last
      Ended-EndsIn config listener connecting migrating w last built (never_connected e) = inl e
      Ended-EndsIn config listener connecting migrating w last built (never_migrated e) =
          inr (inl e)
      Ended-EndsIn config listener connecting migrating w last built
            (served pool opened applied e) =
          let before = (migrated rt config connecting migrating w pool).world in
          let (labels, steps) =
            serve-Steps c s r p client axum tower rt schedules config pool listener before built in
          inr (inr (pool, labels, opened, applied, rw e at steps))

      -- Where the calls of tokio, axum and sqlx do what `Schedules` says: if the process, with a
      -- configuration in its environment of which the client can be built, exits with success, then its
      -- listener was bound to the configured address, and from the world after that the token was
      -- cancelled while it connected to the database or while it migrated it, or else both succeeded and
      -- it served: by steps of the importer, the server and the token, from the spawn of the importer on
      -- what is behind the pool to a return without an error.
      pub main_serves :
          {E : Type 0} (env_var : Text → Result Text E) (config : Config net)
          (connecting migrating : List (Round x.World)) (w : x.World)
          → from_env net env_var ≡ ok config
          → new r (rt.as_url config.mempool_url) config.http_client_timeout ≡ ok client
          → (main rt env_var connecting migrating w).0 ≡ some success
          → let bound = rt.bind config.bind_addr (init rt.tracing w).1 in
            (listener : rt.Listener) × (bound.0 ≡ ok listener)
            × EndsIn config connecting migrating bound.1 (main rt env_var connecting migrating w).1
      main_serves env_var config connecting migrating w loaded built h =
          let (listener, taken, ran, left) =
            main-success rt env_var config connecting migrating w loaded h in
          let bound = rt.bind config.bind_addr (init rt.tracing w).1 in
          (
            listener,
            taken,
            rw left (
                Ended-EndsIn config listener connecting migrating bound.1 _ built
                  (run-Ended rt config listener connecting migrating bound.1 ran)),
          )
