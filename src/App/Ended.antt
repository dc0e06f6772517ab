-- ===== src/App/Ended.antt =====
-- The ways in which `run` of src/app.rs ends without an error.
use bipa_coding_challenge.Common.{
  ◌≡◌, ap, ◌∙◌, inl, inr, true, Option-cases, none, some, Text, List, ok, Result-cases,
}
use bipa_coding_challenge.Source.Mempool.{Reqwest}
use bipa_coding_challenge.Storage.Connect.{Sqlx, connect, migrate}
use bipa_coding_challenge.Storage.{StorageError}
use bipa_coding_challenge.Config.{Net, Config}
use bipa_coding_challenge.App.{
  Retried, Round, connect_with_retry, migrate_with_retry, is_transient_connect_error,
  is_transient_migrate_error,
}
use bipa_coding_challenge.App.Retry.{cancels, retry-cases}
use bipa_coding_challenge.App.Service.{Runtime, serve, after_migration, run}

module _ {net : Net} {r : Reqwest} {x : Sqlx} (rt : Runtime net r x) where
  abbrev pub connected :
      Config net → List (Round x.World) → x.World → Retried x.World x.Pool StorageError
  connected config connecting w = connect_with_retry x config.database_url connecting w

  -- After the migration, on the pool that was connected.
  abbrev pub migrated :
      Config net
      → List (Round x.World)
      → List (Round x.World)
      → x.World
      → x.Pool
      → Retried x.World (Unit {0}) StorageError
  migrated config connecting migrating w pool =
      migrate_with_retry x pool migrating (connected config connecting w).world

  -- How `run` ends without an error, and the world it leaves.
  pub data Ended (config : Config net) (listener : rt.Listener)
      (connecting migrating : List (Round x.World)) (w : x.World) : x.World → Type 0 where
    never_connected :
        {last : x.World}
        → cancels connecting ≡ true
        → Ended config listener connecting migrating w last
    never_migrated :
        {last : x.World}
        → cancels migrating ≡ true
        → Ended config listener connecting migrating w last
    served :
        (pool : x.Pool)
        → (connected config connecting w).result ≡ some (ok (some pool))
        → (migrated config connecting migrating w pool).result ≡ some (ok (some tt))
        → (serve rt config pool listener (migrated config connecting migrating w pool).world).0
          ≡ ok tt
        → Ended config listener connecting migrating w
            (serve rt config pool listener (migrated config connecting migrating w pool).world).1

  connect-cancels :
      (url : Text) (rounds : List (Round x.World)) (w : x.World)
      → (connect_with_retry x url rounds w).result ≡ some (ok none)
      → cancels rounds ≡ true
  unfolding connect_with_retry
  connect-cancels url rounds w h =
      elim (retry-cases is_transient_connect_error (connect x url) rounds w (ok none) h) [
        | inl (w', t, found, same) ↦ absurd (cc)
        | inr (inl (w', e, failed, final, same)) ↦ absurd (cc)
        | inr (inr (stopped, same)) ↦ stopped
      ]

  migrate-cancels :
      (pool : x.Pool) (rounds : List (Round x.World)) (w : x.World)
      → (migrate_with_retry x pool rounds w).result ≡ some (ok none)
      → cancels rounds ≡ true
  unfolding migrate_with_retry
  migrate-cancels pool rounds w h =
      elim (retry-cases is_transient_migrate_error (migrate x pool) rounds w (ok none) h) [
        | inl (w', t, found, same) ↦ absurd (cc)
        | inr (inl (w', e, failed, final, same)) ↦ absurd (cc)
        | inr (inr (stopped, same)) ↦ stopped
      ]

  after_migration-Ended :
      (config : Config net) (pool : x.Pool) (listener : rt.Listener)
      (connecting migrating : List (Round x.World)) (w : x.World)
      → (connected config connecting w).result ≡ some (ok (some pool))
      → (after_migration rt config pool listener (migrated config connecting migrating w pool)).0
        ≡ some (ok tt)
      → Ended config listener connecting migrating w
          (after_migration rt config pool listener (migrated config connecting migrating w pool)).1
  unfolding after_migration
  after_migration-Ended config pool listener connecting migrating w opened h =
      let last = migrated config connecting migrating w pool in
      elim (Option-cases last.result) [
        | inl waiting ↦ absurd (cc (rw waiting at h))
        | inr (v, e) ↦ elim (Result-cases v) [
          | inr (f, failed) ↦ absurd (cc (rw (e ∙ ap some failed) at h))
          | inl (o, done) ↦ elim (Option-cases o) [
            | inl stop ↦ never_migrated (
                migrate-cancels pool migrating (connected config connecting w).world
                  (e ∙ ap some (done ∙ ap ok stop)))
            | inr (u, applied) ↦
                let all = e ∙ ap some (done ∙ ap ok applied) in
                rw (all, after_migration) (served pool opened all (cc (rw all at h)))
          ]
        ]
      ]

  -- `run` without an error: the token is cancelled while it connects or migrates, or it serves.
  pub run-Ended :
      (config : Config net) (listener : rt.Listener) (connecting migrating : List (Round x.World))
      (w : x.World)
      → (run rt config listener connecting migrating w).0 ≡ some (ok tt)
      → Ended config listener connecting migrating w
          (run rt config listener connecting migrating w).1
  unfolding run
  run-Ended config listener connecting migrating w h =
      let opening = connected config connecting w in
      elim (Option-cases opening.result) [
        | inl waiting ↦ absurd (cc (rw (waiting, run) at h))
        | inr (v, e) ↦ elim (Result-cases v) [
          | inr (f, failed) ↦ absurd (cc (rw (e ∙ ap some failed, run) at h))
          | inl (o, done) ↦ elim (Option-cases o) [
            | inl stop ↦
                never_connected (
                  connect-cancels config.database_url connecting w
                    (e ∙ ap some (done ∙ ap ok stop)))
            | inr (pool, open_now) ↦
                let all = e ∙ ap some (done ∙ ap ok open_now) in
                rw (all, run)
                  (after_migration-Ended config pool listener connecting migrating w all
                    (rw (all, run) at h))
          ]
        ]
      ]
