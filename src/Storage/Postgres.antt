-- ===== src/Storage/Postgres.antt =====
-- src/storage/postgres.rs and migrations/0001_create_nodes.sql: the repository over PostgreSQL. The
-- database is a parameter: `Postgres` has the statements that the source runs, `PostgresLaws` what
-- PostgreSQL documents of transactions, UNNEST, ORDER BY and the constraints of the table.
pub mod Encode
pub mod Decode
pub mod Replace
pub mod Snapshot
pub mod Repository
pub mod Interleaving
pub mod Isolation
pub mod Progress
use mathlib.Core.List.{Perm}
use bipa_coding_challenge.Common.{
  ℕ, suc, ◌≡◌, ◌≢◌, ◌⊎◌, Text, List, [], ◌∷◌, ◌++◌, map, codes, length, All, Result, ok, err, ◌>>=◌,
  ok_or, map_err, returned,
}
use bipa_coding_challenge.Common.Int.{ℤ, pos, negsuc, u64_from_i64, i64_from_u64, i32_from_usize}
use bipa_coding_challenge.Common.Ranked.{IsSorted}
use bipa_coding_challenge.Std.Decimal.{decimal}
use bipa_coding_challenge.Domain.{Node}
use bipa_coding_challenge.Storage.{SqlxError, StorageError, database, out_of_range, NodeRepository}

pub record NodeRow (Instant : Type 0) : Type 0 where
  pub public_key : Text
  pub alias : Text
  pub capacity_sats : ℤ  -- i64, BIGINT
  pub first_seen : Instant

-- A row of the table `nodes`, `imported_at` left out: the source never reads it. TIMESTAMPTZ keeps
-- microseconds, and the instants that the program writes are whole seconds, so they are kept as they are.
pub record StoredRow (Instant : Type 0) : Type 0 where
  pub row : NodeRow Instant
  pub rank : ℕ  -- i32, INTEGER; the source writes no negative rank

-- The five arrays that are bound to the INSERT.
pub record Columns (Instant : Type 0) : Type 0 where
  pub public_keys : List Text
  pub aliases : List Text
  pub capacities : List ℤ
  pub first_seens : List Instant
  pub ranks : List ℕ

unfoldable pub capacity_to_db : ℕ → Result ℤ StorageError
capacity_to_db sats =
    ok_or (out_of_range (codes "capacity_sats") (decimal sats)) (i64_from_u64 sats)

-- `to_string` of an `i64`
unfoldable pub signed_decimal : ℤ → Text
signed_decimal (pos n) = decimal n
signed_decimal (negsuc n) = b'-' ∷ decimal (suc n)

unfoldable pub capacity_from_db : ℤ → Result ℕ StorageError
capacity_from_db sats =
    ok_or (out_of_range (codes "capacity_sats") (signed_decimal sats)) (u64_from_i64 sats)

unfoldable pub rank_to_db : ℕ → Result ℕ StorageError
rank_to_db index = ok_or (out_of_range (codes "rank") (decimal index)) (i32_from_usize index)

module _ {Instant : Type 0} where
  -- `impl TryFrom<NodeRow> for Node`
  unfoldable pub try_from : NodeRow Instant → Result (Node Instant) StorageError
  unfolding capacity_from_db
  try_from row = do
    capacity_sats ← capacity_from_db row.capacity_sats
    ok (record {
      public_key = row.public_key;
      alias = row.alias;
      capacity_sats = capacity_sats;
      first_seen = row.first_seen;
    })

  -- `rows.into_iter().map(Node::try_from).collect()`
  unfoldable pub collect_nodes : List (NodeRow Instant) → Result (List (Node Instant)) StorageError
  collect_nodes [] = ok []
  collect_nodes (row ∷ rows) = do node ← try_from row; nodes ← collect_nodes rows; ok (node ∷ nodes)

  -- The five pushes of one round.
  abbrev pub push_all : Columns Instant → Node Instant → ℤ → ℕ → Columns Instant
  push_all columns node capacity rank = record {
    public_keys = columns.public_keys ++ node.public_key ∷ [];
    aliases = columns.aliases ++ node.alias ∷ [];
    capacities = columns.capacities ++ capacity ∷ [];
    first_seens = columns.first_seens ++ node.first_seen ∷ [];
    ranks = columns.ranks ++ rank ∷ [];
  }

  -- The loop of `replace_all`, over the five vectors.
  pub collect_from :
      ℕ → List (Node Instant) → Columns Instant → Result (Columns Instant) StorageError
  collect_from index [] columns = ok columns
  collect_from index (node ∷ nodes) columns = do
    capacity ← capacity_to_db node.capacity_sats
    rank ← rank_to_db index
    collect_from (suc index) nodes (push_all columns node capacity rank)

  unfoldable pub collect_columns : List (Node Instant) → Result (Columns Instant) StorageError
  unfolding collect_from capacity_to_db rank_to_db
  collect_columns nodes =
      collect_from 0 nodes
        (record { public_keys = []; aliases = []; capacities = []; first_seens = []; ranks = [] })

  -- SELECT * FROM UNNEST($1, $2, $3, $4, $5), for arrays of one length.
  pub zip_rows : List Text → List Text → List ℤ → List Instant → List ℕ → List (StoredRow Instant)
  zip_rows (k ∷ ks) (a ∷ as') (c ∷ cs) (t ∷ ts) (r ∷ rs) =
      record {
        row = record { public_key = k; alias = a; capacity_sats = c; first_seen = t };
        rank = r;
      }
      ∷ zip_rows ks as' cs ts rs
  zip_rows _ _ _ _ _ = []

  unfoldable pub unnest : Columns Instant → List (StoredRow Instant)
  unfolding zip_rows
  unnest c = zip_rows c.public_keys c.aliases c.capacities c.first_seens c.ranks

  -- PRIMARY KEY
  abbrev pub KeysDistinct : List (StoredRow Instant) → Type 0
  KeysDistinct [] = Unit
  KeysDistinct (r ∷ rs) = All (λ q. r.row.public_key ≢ q.row.public_key) rs × KeysDistinct rs

-- `Db` is the database with all that decides whether a statement succeeds, `Tx` an open transaction.
pub record Postgres (Instant : Type 0) : Type 1 where
  pub Db : Type 0
  pub Tx : Type 0
  pub begin : Db → Result Tx SqlxError × Db
  -- DELETE FROM nodes
  pub delete_nodes : Tx → Db → Result Tx SqlxError × Db
  -- INSERT INTO nodes (…) SELECT * FROM UNNEST(…)
  pub insert_nodes : Columns Instant → Tx → Db → Result Tx SqlxError × Db
  pub commit : Tx → Db → Result (Unit {0}) SqlxError × Db
  -- a transaction that is dropped
  pub rollback : Tx → Db → Db
  -- SELECT public_key, alias, capacity_sats, first_seen FROM nodes ORDER BY rank
  pub select_by_rank : Db → Result (List (NodeRow Instant)) SqlxError × Db

-- `rows` is the committed table and `view` the table as a transaction sees it; a table has no order.
-- Nothing but the service writes to the table. A commit whose answer is lost may have taken effect, at the
-- latest when its error is returned.
pub record PostgresLaws {Instant : Type 0} (p : Postgres Instant) : Type 0 where
  pub rows : p.Db → List (StoredRow Instant)
  pub view : p.Tx → List (StoredRow Instant)
  pub rows-begin : (db : p.Db) → rows (p.begin db).1 ≡ rows db
  pub rows-delete : (tx : p.Tx) (db : p.Db) → rows (p.delete_nodes tx db).1 ≡ rows db
  pub view-delete : (tx tx' : p.Tx) (db : p.Db) → (p.delete_nodes tx db).0 ≡ ok tx' → view tx' ≡ []
  pub rows-insert :
      (c : Columns Instant) (tx : p.Tx) (db : p.Db) → rows (p.insert_nodes c tx db).1 ≡ rows db
  pub view-insert :
      (c : Columns Instant) (tx tx' : p.Tx) (db : p.Db)
      → (p.insert_nodes c tx db).0 ≡ ok tx'
      → Perm (view tx') (view tx ++ unnest c) × KeysDistinct (unnest c)
  pub rows-commit :
      (tx : p.Tx) (db : p.Db)
      → (p.commit tx db).0 ≡ ok tt
      → Perm (rows (p.commit tx db).1) (view tx)
  pub rows-commit_failed :
      (tx : p.Tx) (db : p.Db) (e : SqlxError)
      → (p.commit tx db).0 ≡ err e
      → Perm (rows (p.commit tx db).1) (rows db) ⊎ Perm (rows (p.commit tx db).1) (view tx)
  pub rows-rollback : (tx : p.Tx) (db : p.Db) → rows (p.rollback tx db) ≡ rows db
  pub rows-select : (db : p.Db) → rows (p.select_by_rank db).1 ≡ rows db
  pub ordered :
      (db : p.Db) (found : List (NodeRow Instant))
      → (p.select_by_rank db).0 ≡ ok found
      → (sorted : List (StoredRow Instant)) × Perm sorted (rows db)
        × IsSorted (λ r. r.rank) sorted
        × (found ≡ map (λ r. r.row) sorted)

module _ {Instant : Type 0} (p : Postgres Instant) where
  -- The code between two `.await?`: a result and the next state of the database.
  abbrev pub Action : Type 0 → Type 0
  Action A = p.Db → Result A StorageError × p.Db

  abbrev pub and_then :
      {A B : Type 0} → Result A StorageError × p.Db → (A → Action B) → Result B StorageError × p.Db
  and_then (ok a, db) f = f a db
  and_then (err e, db) f = (err e, db)

  -- `?` on a statement
  abbrev pub run : {A : Type 0} → (p.Db → Result A SqlxError × p.Db) → Action A
  run statement db = (map_err database (statement db).0, (statement db).1)

  -- An error while the transaction is open drops it.
  abbrev pub or_rollback :
      {A : Type 0} → p.Tx → Result A StorageError × p.Db → Result A StorageError × p.Db
  or_rollback tx (ok a, db) = (ok a, db)
  or_rollback tx (err e, db) = (err e, p.rollback tx db)

  unfoldable pub write_columns : Columns Instant → Action (Unit {0})
  write_columns columns db = and_then (run p.begin db) λ tx db1.
      and_then (or_rollback tx (run (p.delete_nodes tx) db1)) λ tx2 db2.
        and_then (or_rollback tx2 (run (p.insert_nodes columns tx2) db2))
          λ tx3 db3. run (p.commit tx3) db3

  unfoldable pub replace_all : List (Node Instant) → Action ℕ
  unfolding write_columns
  replace_all nodes db = elim (collect_columns nodes) [
    | err e ↦ (err e, db)
    | ok columns ↦ and_then (write_columns columns db) λ _ later. (ok (length nodes), later)
  ]

  unfoldable pub list_nodes : Action (List (Node Instant))
  list_nodes db = and_then (run p.select_by_rank db) λ rows later. (collect_nodes rows, later)

  -- `impl NodeRepository for PgNodeRepository`: no code of it panics.
  abbrev pub pg_repository : NodeRepository Instant
  pg_repository = record {
    State = p.Db;
    replace_all = λ nodes db. let done = replace_all nodes db in (returned done.0, done.1);
    list_nodes = λ db. let listed = list_nodes db in (returned listed.0, listed.1);
  }
