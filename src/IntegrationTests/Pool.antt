-- ===== src/IntegrationTests/Pool.antt =====
-- A database behind a pool that can be closed: from then on nothing is acquired from it.
use bipa_coding_challenge.Common.{Bool, true, false, Result, err}
use bipa_coding_challenge.Storage.{SqlxError, pool_closed}
use bipa_coding_challenge.Storage.Postgres.{Postgres}

module _ {Instant : Type 0} (p : Postgres Instant) where
  pub record Pool : Type 0 where
    pub db : p.Db
    pub closed : Bool

  -- `pool.close().await`
  abbrev pub close : Pool → Pool
  close pool = record { db = pool.db; closed = true }

  abbrev pub fresh_pool : p.Db → Pool
  fresh_pool db = record { db = db; closed = false }

  abbrev through : {A : Type 0} → Bool → Result A SqlxError × p.Db → Result A SqlxError × Pool
  through closed (result, db) = (result, record { db = db; closed = closed })

  -- A statement that takes a connection from the pool.
  abbrev acquired :
      {A : Type 0} → (p.Db → Result A SqlxError × p.Db) → Pool → Result A SqlxError × Pool
  acquired statement pool = elim pool.closed [
    | true ↦ (err pool_closed, pool)
    | false ↦ through false (statement pool.db)
  ]

  abbrev pub pooled : Postgres Instant
  pooled = record {
    Db = Pool;
    Tx = p.Tx;
    begin = acquired p.begin;
    delete_nodes = λ tx pool. through pool.closed (p.delete_nodes tx pool.db);
    insert_nodes = λ columns tx pool. through pool.closed (p.insert_nodes columns tx pool.db);
    commit = λ tx pool. through pool.closed (p.commit tx pool.db);
    rollback = λ tx pool. record { db = p.rollback tx pool.db; closed = pool.closed };
    select_by_rank = acquired p.select_by_rank;
  }
