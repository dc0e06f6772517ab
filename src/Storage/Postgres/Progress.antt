-- ===== src/Storage/Postgres/Progress.antt =====
-- When a replacement succeeds: every statement of it is then run, once and in order.
use bipa_coding_challenge.Common.{
  ℕ, suc, ◌+◌, ◌^◌, ◌≤◌, ◌<◌, ◌≡◌, refl, List, [], ◌∷◌, length, All, Result, ok, err, arith,
}
use bipa_coding_challenge.Domain.{Node}
use bipa_coding_challenge.Storage.{StorageError}
use bipa_coding_challenge.Storage.Postgres.{and_then, Columns, Postgres, write_columns, replace_all}
use bipa_coding_challenge.Storage.Postgres.Encode.{
  AllFit, columns_of, rows_from, collect_columns-columns_of,
}

module _ {Instant : Type 0} (p : Postgres Instant) where
  -- The database runs the four statements of a replacement, one after the other.
  pub record Runs (columns : Columns Instant) (db : p.Db) : Type 0 where
    pub begun : p.Tx
    pub emptied : p.Tx
    pub filled : p.Tx
    pub begins : (p.begin db).0 ≡ ok begun
    pub deletes : (p.delete_nodes begun (p.begin db).1).0 ≡ ok emptied
    pub inserts :
        (p.insert_nodes columns emptied (p.delete_nodes begun (p.begin db).1).1).0 ≡ ok filled
    pub commits :
        (p.commit filled
          (p.insert_nodes columns emptied (p.delete_nodes begun (p.begin db).1).1).1).0
        ≡ ok tt

  write_columns-Runs :
      (columns : Columns Instant) (db : p.Db)
      → Runs columns db
      → (write_columns p columns db).0 ≡ ok tt
  unfolding write_columns
  write_columns-Runs columns db r = rw (r.begins, r.deletes, r.inserts, r.commits)

  count-ok :
      (n : ℕ) (r : Result (Unit {0}) StorageError × p.Db)
      → r.0 ≡ ok tt
      → (and_then p r λ _ later. (ok n, later)).0 ≡ ok n
  count-ok n (ok _, db) h = refl
  count-ok n (err e, db) h = absurd (cc)

  -- If every capacity fits BIGINT and every place INTEGER, and the database runs the four statements
  -- with one row for each node in the arrays, then the replacement succeeds and returns the number of
  -- the nodes.
  pub replace_all-Runs :
      (nodes : List (Node Instant)) (db : p.Db)
      → AllFit 0 nodes
      → Runs (columns_of (rows_from 0 nodes)) db
      → (replace_all p nodes db).0 ≡ ok (length nodes)
  unfolding replace_all
  replace_all-Runs nodes db fit runs =
      rw (collect_columns-columns_of nodes fit, replace_all)
        (count-ok (length nodes) _ (write_columns-Runs _ db runs))

module _ {Instant : Type 0} where
  -- Nodes whose capacities fit, fewer than the places that INTEGER counts.
  pub AllFit-All :
      (index : ℕ) (nodes : List (Node Instant))
      → index + length nodes ≤ 2 ^ 31
      → All (λ n. n.capacity_sats < 2 ^ 63) nodes
      → AllFit index nodes
  AllFit-All index [] few h = tt
  AllFit-All index (node ∷ nodes) few (c, h) =
      ((c, omega arith), AllFit-All (suc index) nodes (omega arith) h)
