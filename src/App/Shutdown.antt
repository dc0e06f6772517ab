-- ===== src/App/Shutdown.antt =====
-- How the service ends: the order of its shutdown, and what a success of the process means.
use bipa_coding_challenge.Common.{
  ◌≡◌, refl, inl, inr, Bool, true, Option, none, some, Text, List, Result, ok, err, Result-cases,
  map_err,
}
use bipa_coding_challenge.Source.Mempool.{Reqwest, MempoolClient, new}
use bipa_coding_challenge.Storage.Connect.{Sqlx}
use bipa_coding_challenge.Config.{Net, Config, from_env}
use bipa_coding_challenge.Telemetry.{init}
use bipa_coding_challenge.App.{Round}
use bipa_coding_challenge.App.Retry.{cancels}
use bipa_coding_challenge.App.Ended.{
  migrated, Ended, never_connected, never_migrated, served, run-Ended,
}
use bipa_coding_challenge.App.Service.{
  AppError, serve_failed, success, Runtime, shut_down, serve, run, code_of, main,
}

module _ {net : Net} {r : Reqwest} {x : Sqlx} (rt : Runtime net r x) where
  -- What tokio and sqlx document of a shutdown: the importer ends once the token is cancelled, and a
  -- pool that is closed while no import runs loses no work.
  pub record RuntimeLaws : Type 0 where
    pub cancelled : x.World → Bool
    pub idle : x.World → Bool
    -- closed while the importer was idle
    pub closed_idle : x.Pool → x.World → Bool
    pub cancel-cancelled : (w : x.World) → cancelled (rt.cancel w) ≡ true
    pub join-idle : (w : x.World) → cancelled w ≡ true → idle (rt.join_importer w).1 ≡ true
    pub join-cancelled :
        (w : x.World) → cancelled w ≡ true → cancelled (rt.join_importer w).1 ≡ true
    pub close-closed :
        (p : x.Pool) (w : x.World) → idle w ≡ true → closed_idle p (x.close p w) ≡ true
    pub close-cancelled :
        (p : x.Pool) (w : x.World) → cancelled w ≡ true → cancelled (x.close p w) ≡ true

  module _ (laws : RuntimeLaws) where
    open laws use {
      cancelled, closed_idle, cancel-cancelled, join-idle, join-cancelled, close-closed,
      close-cancelled,
    }

    shut_down-closed :
        (pool : x.Pool) (w : x.World)
        → (closed_idle pool (shut_down rt pool w) ≡ true) × (cancelled (shut_down rt pool w) ≡ true)
    unfolding shut_down
    shut_down-closed pool w =
        let c = cancel-cancelled w in
        (
          close-closed pool _ (join-idle (rt.cancel w) c),
          close-cancelled pool _ (join-cancelled (rt.cancel w) c),
        )

    -- Once the client is built, however the server ends, with an error too, serving returns with the
    -- token cancelled and with the pool closed after the importer had ended; the result is the server's.
    pub serve-closed :
        (config : Config net) (pool : x.Pool) (listener : rt.Listener) (w : x.World)
        (client : MempoolClient r)
        → new r (rt.as_url config.mempool_url) config.http_client_timeout ≡ ok client
        → (closed_idle pool (serve rt config pool listener w).1 ≡ true)
          × (cancelled (serve rt config pool listener w).1 ≡ true)
          × ((serve rt config pool listener w).0
              ≡ map_err serve_failed
                  (rt.serve_http listener pool
                    (rt.spawn_importer client pool config.import_interval w)).0)
    unfolding serve
    serve-closed config pool listener w client built =
        let served =
          rt.serve_http listener pool (rt.spawn_importer client pool config.import_interval w) in
        let (closed, stopped) = shut_down-closed pool served.1 in
        rw (built, serve) (closed, stopped, refl)

    serve-ok :
        (config : Config net) (pool : x.Pool) (listener : rt.Listener) (w : x.World)
        → (serve rt config pool listener w).0 ≡ ok tt
        → (started : x.World) × ((rt.serve_http listener pool started).0 ≡ ok tt)
          × (closed_idle pool (serve rt config pool listener w).1 ≡ true)
    unfolding serve
    serve-ok config pool listener w h =
        elim (Result-cases (new r (rt.as_url config.mempool_url) config.http_client_timeout)) [
          | inr (e, failed) ↦ absurd (cc (rw (failed, serve) at h))
          | inl (client, built) ↦
              let started = rt.spawn_importer client pool config.import_interval w in
              elim (Result-cases (rt.serve_http listener pool started).0) [
                | inl (done, e) ↦ (
                  started,
                  e,
                  rw (built, serve)
                      (shut_down-closed pool (rt.serve_http listener pool started).1).0,
                )
                | inr (m, e) ↦ absurd (cc (rw (built, serve, e) at h))
              ]
        ]

    -- The ends of the service that are no failure.
    pub data EndsWell (listener : rt.Listener) (connecting migrating : List (Round x.World))
        (w : x.World) : Type 0 where
      stopped_connecting : cancels connecting ≡ true → EndsWell listener connecting migrating w
      stopped_migrating : cancels migrating ≡ true → EndsWell listener connecting migrating w
      served_well :
          (pool : x.Pool) (started : x.World)
          → (rt.serve_http listener pool started).0 ≡ ok tt
          → closed_idle pool w ≡ true
          → EndsWell listener connecting migrating w

    Ended-EndsWell :
        (config : Config net) (listener : rt.Listener) (connecting migrating : List (Round x.World))
        (w last : x.World)
        → Ended rt config listener connecting migrating w last
        → EndsWell listener connecting migrating last
    Ended-EndsWell config listener connecting migrating w last (never_connected e) =
        stopped_connecting e
    Ended-EndsWell config listener connecting migrating w last (never_migrated e) =
        stopped_migrating e
    Ended-EndsWell config listener connecting migrating w last (served pool _ _ e) =
        let (started, good, closed) =
          serve-ok config pool listener (migrated rt config connecting migrating w pool).world e in
        served_well pool started good closed

    -- If running the service returns without an error, then the token was cancelled during the
    -- connection or during the migration, or else the server ended well, and then the pool was closed
    -- after the importer had ended.
    pub run-EndsWell :
        (config : Config net) (listener : rt.Listener) (connecting migrating : List (Round x.World))
        (w : x.World)
        → (run rt config listener connecting migrating w).0 ≡ some (ok tt)
        → EndsWell listener connecting migrating (run rt config listener connecting migrating w).1
    run-EndsWell config listener connecting migrating w h =
        Ended-EndsWell config listener connecting migrating w
          (run rt config listener connecting migrating w).1
          (run-Ended rt config listener connecting migrating w h)

  code_of-success :
      (ended : Option (Result (Unit {0}) AppError) × x.World)
      → (code_of rt ended).0 ≡ some success
      → ended.0 ≡ some (ok tt)
  code_of-success (none, w) h = absurd (cc)
  code_of-success (some (ok _), w) h = refl
  code_of-success (some (err e), w) h = absurd (cc)

  code_of-world :
      (ended : Option (Result (Unit {0}) AppError) × x.World) → (code_of rt ended).1 ≡ ended.1
  code_of-world (none, w) = refl
  code_of-world (some result, w) = refl

  -- If the process exits with success under a configuration, then the listener was bound to the
  -- configured address, the service ran to its end without an error, and what it left is left by the
  -- process.
  pub main-success :
      {E : Type 0} (env_var : Text → Result Text E) (config : Config net)
      (connecting migrating : List (Round x.World)) (w : x.World)
      → from_env net env_var ≡ ok config
      → (main rt env_var connecting migrating w).0 ≡ some success
      → let bound = rt.bind config.bind_addr (init rt.tracing w).1 in
        (listener : rt.Listener) × (bound.0 ≡ ok listener)
        × ((run rt config listener connecting migrating bound.1).0 ≡ some (ok tt))
        × ((main rt env_var connecting migrating w).1
            ≡ (run rt config listener connecting migrating bound.1).1)
  unfolding main
  main-success env_var config connecting migrating w loaded h =
      let logging = init rt.tracing w in
      elim (Result-cases logging.0) [
        | inr (m, failed) ↦ absurd (cc (rw (failed, main) at h))
        | inl (_, installed) ↦ elim (Result-cases (rt.bind config.bind_addr logging.1).0) [
          | inr (e, failed) ↦ absurd (cc (rw (installed, main, loaded, failed) at h))
          | inl (listener, bound) ↦ (
            listener,
            bound,
            code_of-success _ (rw (installed, main, loaded, bound) at h),
            rw (installed, main, loaded, bound) (code_of-world _),
          )
        ]
      ]
