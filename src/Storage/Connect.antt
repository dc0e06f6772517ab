-- ===== src/Storage/Connect.antt =====
-- src/storage/mod.rs: `connect` and `migrate`. sqlx's pool and migrator are parameters.
use bipa_coding_challenge.Common.{ℕ, Text, Result, map_err}
use bipa_coding_challenge.Storage.{SqlxError, MigrateError, StorageError, database, migration}

abbrev pub max_connections : ℕ
max_connections = 5

-- in seconds
abbrev pub acquire_timeout : ℕ
acquire_timeout = 5

-- `World` is all that the outside can change between two calls.
pub record Sqlx : Type 1 where
  pub World : Type 0
  pub Pool : Type 0
  -- `PgPoolOptions::new().max_connections(m).acquire_timeout(t).connect(url)`
  pub open_pool : ℕ → ℕ → Text → World → Result Pool SqlxError × World
  -- `sqlx::migrate!().run(pool)`
  pub run_migrations : Pool → World → Result (Unit {0}) MigrateError × World
  -- `pool.close()`
  pub close : Pool → World → World

module _ (x : Sqlx) where
  unfoldable pub connect : Text → x.World → Result x.Pool StorageError × x.World
  connect database_url w =
      let opened = x.open_pool max_connections acquire_timeout database_url w in
      (map_err database opened.0, opened.1)

  unfoldable pub migrate : x.Pool → x.World → Result (Unit {0}) StorageError × x.World
  migrate pool w = let ran = x.run_migrations pool w in (map_err migration ran.0, ran.1)
