-- ===== src/EndToEnd/Running/Serve.antt =====
-- The code of `serve` in src/app.rs, whose calls of tokio and axum do what they document, and the steps.
pub mod Refines
use bipa_coding_challenge.Common.{
  ℕ, ◌≡◌, refl, Bool, true, Text, List, ◌++◌, Result, ok, err, map_err,
}
use bipa_coding_challenge.Domain.Time.{Chrono}
use bipa_coding_challenge.Source.Dto.{SerdeJson}
use bipa_coding_challenge.Source.Mempool.{Reqwest, MempoolClient, new}
use bipa_coding_challenge.Storage.Postgres.{Postgres}
use bipa_coding_challenge.Storage.Connect.{Sqlx}
use bipa_coding_challenge.Config.{Net, Config}
use bipa_coding_challenge.App.Service.{serve_failed, Runtime, shut_down, serve}
use bipa_coding_challenge.Http.Router.{Axum, TowerHttp}
use bipa_coding_challenge.EndToEnd.{Outside}
use bipa_coding_challenge.EndToEnd.Running.{
  Stage, serving, joining, closing, returned_with, Label, Task, ended, State, at, spawned, drained,
  server_failed, joined, closed, Steps, here, go,
}
use bipa_coding_challenge.EndToEnd.Running.Imports.{Steps-append}

module _ (c : Chrono) (s : SerdeJson) (r : Reqwest) (p : Postgres c.Instant)
    (client : MempoolClient r) where
  module _ (axum : Axum) (tower : TowerHttp) where
    abbrev pub Leads : State c s r p client → State c s r p client → Type 0
    Leads t u = (labels : List Label) × Steps c s r p client axum tower t labels u

    Leads-append : (t u v : State c s r p client) → Leads t u → Leads u v → Leads t v
    Leads-append t u v (labels, first) (more, steps) =
        (labels ++ more, Steps-append c s r p client axum tower t u v labels more first steps)

    module _ {net : Net} {x : Sqlx} (rt : Runtime net r x) where
      -- A moment of the world, where `serve` stands at a stage.
      abbrev pub moment :
          (x.World → Task c s r p client)
          → (x.World → Bool)
          → (x.World → Outside c s r p client)
          → Stage
          → x.World
          → State c s r p client
      moment task cancelled outside stage w =
          at c s r p client (task w) stage (cancelled w) (outside w)

      -- What tokio, axum and sqlx document, in terms of the two tasks and the token: while a call is
      -- awaited the other tasks go on. A server that ends without an error has been told to by the
      -- token; a join handle is ready when its task has ended.
      pub record Schedules : Type 0 where
        pub task : x.World → Task c s r p client
        pub cancelled : x.World → Bool
        pub outside : x.World → Outside c s r p client
        -- the network and the database behind a pool
        pub behind : x.Pool → x.World → Outside c s r p client
        pub spawn-Leads :
            (pool : x.Pool) (interval : ℕ) (w : x.World)
            → Leads
                (spawned c s r p client (behind pool w))
                (moment task cancelled outside serving (rt.spawn_importer client pool interval w))
        pub serve-Leads :
            (listener : rt.Listener) (pool : x.Pool) (w : x.World)
            → Leads
                (moment task cancelled outside serving w)
                (moment task cancelled outside serving (rt.serve_http listener pool w).1)
        pub serve-cancelled :
            (listener : rt.Listener) (pool : x.Pool) (w : x.World)
            → (rt.serve_http listener pool w).0 ≡ ok tt
            → cancelled (rt.serve_http listener pool w).1 ≡ true
        pub cancel-task : (w : x.World) → task (rt.cancel w) ≡ task w
        pub cancel-cancelled : (w : x.World) → cancelled (rt.cancel w) ≡ true
        pub cancel-outside : (w : x.World) → outside (rt.cancel w) ≡ outside w
        pub join-Leads :
            (served : Result (Unit {0}) Text) (w : x.World)
            → cancelled w ≡ true
            → Leads
                (moment task cancelled outside (joining served) w)
                (moment task cancelled outside (joining served) (rt.join_importer w).1)
        pub join-ended : (w : x.World) → cancelled w ≡ true → task (rt.join_importer w).1 ≡ ended
        pub close-Leads :
            (served : Result (Unit {0}) Text) (pool : x.Pool) (w : x.World)
            → task w ≡ ended
            → Leads
                (moment task cancelled outside (closing served) w)
                (moment task cancelled outside (closing served) (x.close pool w))

      stop-Leads :
          (task : Task c s r p client) (cancelled : Bool) (w : Outside c s r p client)
          (served : Result (Unit {0}) Text)
          → (served ≡ ok tt → cancelled ≡ true)
          → Leads
              (at c s r p client task serving cancelled w)
              (at c s r p client task (joining served) true w)
      stop-Leads task cancelled w (ok tt) told = rw (told refl) (_, go drained here)
      stop-Leads task cancelled w (err m) told = (_, go (server_failed m) here)

      module _ (laws : Schedules) where
        open laws use {
          task, cancelled, outside, behind, spawn-Leads, serve-Leads, serve-cancelled, cancel-task,
          cancel-cancelled, cancel-outside, join-Leads, join-ended, close-Leads,
        }

        abbrev now : Stage → x.World → State c s r p client
        now stage w = moment task cancelled outside stage w

        shut_down-Leads :
            (pool : x.Pool) (served : Result (Unit {0}) Text) (w : x.World)
            → (served ≡ ok tt → cancelled w ≡ true)
            → Leads
                (now serving w)
                (now (returned_with (map_err serve_failed served)) (shut_down rt pool w))
        unfolding shut_down
        shut_down-Leads pool served w told =
            let w1 = rt.cancel w in
            let w2 = (rt.join_importer w1).1 in
            let w3 = x.close pool w2 in
            let over = join-ended w1 (cancel-cancelled w) in
            let stops : Leads (now serving w) (now (joining served) w1) =
              rw (cancel-task w, cancel-cancelled w, cancel-outside w)
                (stop-Leads (task w) (cancelled w) (outside w) served told) in
            let joins : Leads (now (joining served) w2) (now (closing served) w2) =
              rw over (_, go joined here) in
            let closes : Leads (now (closing served) w3)
                (now (returned_with (map_err serve_failed served)) w3) =
              (_, go closed here) in
            Leads-append _ _ _ stops (
              Leads-append _ _ _ (join-Leads served w1 (cancel-cancelled w)) (
                Leads-append _ _ _ joins
                  (Leads-append _ _ _ (close-Leads served pool w2 over) closes)))

        -- Once the client is built, running `serve` to its return is a path of steps, from the spawn of
        -- the importer on what is behind the pool to the return with the result that `serve` gives. So
        -- what holds of all paths holds of `serve`.
        pub serve-Steps :
            (config : Config net) (pool : x.Pool) (listener : rt.Listener) (w : x.World)
            → new r (rt.as_url config.mempool_url) config.http_client_timeout ≡ ok client
            → (labels : List Label) × Steps c s r p client axum tower
                (spawned c s r p client (behind pool w))
                labels
                (moment task cancelled outside
                  (returned_with (serve rt config pool listener w).0)
                  (serve rt config pool listener w).1)
        unfolding serve
        serve-Steps config pool listener w built =
            let w1 = rt.spawn_importer client pool config.import_interval w in
            let served = rt.serve_http listener pool w1 in
            rw (built, serve)
              (Leads-append _ _ _ (spawn-Leads pool config.import_interval w) (
                Leads-append _ _ _ (serve-Leads listener pool w1)
                  (shut_down-Leads pool served.0 served.1 (serve-cancelled listener pool w1))))
