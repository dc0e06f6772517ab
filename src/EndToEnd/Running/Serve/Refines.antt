-- ===== src/EndToEnd/Running/Serve/Refines.antt =====
-- What holds of the code of `serve`, from the spawn of the importer to its return.
use bipa_coding_challenge.Common.{◌≡◌, refl, inl, true, List, ok}
use bipa_coding_challenge.Domain.{Node}
use bipa_coding_challenge.Domain.Time.{Chrono}
use bipa_coding_challenge.Source.Dto.{SerdeJson}
use bipa_coding_challenge.Source.Mempool.{Reqwest, MempoolClient, new}
use bipa_coding_challenge.Storage.Postgres.{Postgres, PostgresLaws}
use bipa_coding_challenge.Storage.Postgres.Repository.{Holds}
use bipa_coding_challenge.Storage.Connect.{Sqlx}
use bipa_coding_challenge.Config.{Net, Config}
use bipa_coding_challenge.App.Service.{Runtime, serve}
use bipa_coding_challenge.Http.Router.{Axum, TowerHttp}
use bipa_coding_challenge.EndToEnd.History.{Explained}
use bipa_coding_challenge.EndToEnd.Running.{returned_with, Label, ended, spawned, Steps}
use bipa_coding_challenge.EndToEnd.Running.Held.{Held-Holds}
use bipa_coding_challenge.EndToEnd.Running.Explains.{events_of, answers_of, serve-Explained}
use bipa_coding_challenge.EndToEnd.Running.Complete.{IsWhole, Steps-HeldWhole}
use bipa_coding_challenge.EndToEnd.Running.Ordered.{Steps-Ordered}
use bipa_coding_challenge.EndToEnd.Running.Serve.{moment, Schedules, serve-Steps}

module _ (c : Chrono) (s : SerdeJson) (r : Reqwest) (p : Postgres c.Instant)
    (client : MempoolClient r) where
  module _ (axum : Axum) (tower : TowerHttp) (eq : Discrete c.Instant) (laws : PostgresLaws p) where
    module _ {net : Net} {x : Sqlx} (rt : Runtime net r x)
        (schedules : Schedules c s r p client axum tower rt) where
      open schedules use {task, cancelled, outside, behind}

      -- Where the calls of tokio, axum and sqlx do what `Schedules` says: once the client is built, if
      -- the database behind the pool holds a snapshot, then running `serve` of src/app.rs to its return
      -- is a path of steps of the importer, the server and the token, which ends with the result that
      -- `serve` gives. The answers on the way are explained by a register that holds one snapshot. In
      -- the end the token is cancelled, the importer has ended, and the table holds the first snapshot
      -- or, whole, one that the network delivered.
      pub serve_refines :
          (config : Config net) (pool : x.Pool) (listener : rt.Listener) (w : x.World)
          (initial : List (Node c.Instant))
          → new r (rt.as_url config.mempool_url) config.http_client_timeout ≡ ok client
          → Holds eq p laws (behind pool w).store initial
          → let result = serve rt config pool listener w in
            (labels : List Label) × Steps c s r p client axum tower
              (spawned c s r p client (behind pool w))
              labels
              (moment c s r p client axum tower rt task cancelled outside
                (returned_with result.0)
                result.1)
            × Explained c s r p client initial (events_of labels) (answers_of labels)
            × (cancelled result.1 ≡ true)
            × (task result.1 ≡ ended)
            × ((snapshot : List (Node c.Instant)) × IsWhole c s r p client axum tower eq laws
                  initial snapshot
                × Holds eq p laws (outside result.1).store snapshot)
      serve_refines config pool listener w initial built held =
          let result = serve rt config pool listener w in
          let start = spawned c s r p client (behind pool w) in
          let last =
            moment c s r p client axum tower rt task cancelled outside (returned_with result.0)
              result.1 in
          let (labels, steps) =
            serve-Steps c s r p client axum tower rt schedules config pool listener w built in
          let (_, (stopped, over)) =
            Steps-Ordered c s r p client axum tower start last labels steps (tt, tt) in
          let (snapshot, whole, kept) =
            Steps-HeldWhole c s r p client axum tower eq laws initial start last labels steps
              (initial, inl refl, held) in
          (
            labels,
            steps,
            serve-Explained c s r p client axum tower eq laws initial (behind pool w) last labels
                held steps,
            stopped,
            over,
            (snapshot, whole, Held-Holds c s r p client eq laws snapshot last kept),
          )
