-- ===== src/Tests/Storage.antt =====
-- The repository over the database in memory.
use mathlib.Core.List.{Perm}
use mathlib.Core.List.Perm
use bipa_coding_challenge.Common.{
  ◌^◌, ◌≡◌, refl, ◌⊎◌, inl, inr, [], ◌∷◌, codes, false, ok, err, arith,
}
use bipa_coding_challenge.Std.Decimal.{decimal}
use bipa_coding_challenge.Storage.{
  SqlxError, database, out_of_range, pool_timed_out, RepositoryLaws,
}
use bipa_coding_challenge.Storage.Postgres.{
  KeysDistinct, collect_columns, replace_all, list_nodes, collect_nodes, unnest,
}
use bipa_coding_challenge.Storage.Postgres.Encode.{rows_from}
use bipa_coding_challenge.Storage.Postgres.Snapshot.{
  CommitFails, replace_all-atomic, replace_all-err, replace_all-refused,
}
use bipa_coding_challenge.Storage.Postgres.Repository.{
  ℤ-discrete, list_nodes-replace_all, pg_repository-laws,
}
use bipa_coding_challenge.Storage.Postgres.Interleaving.{
  converting, answering, advance, Steps, here, next, turn, listing,
}
use bipa_coding_challenge.Storage.Postgres.Isolation.{list_nodes-Steps}
use bipa_coding_challenge.Tests.Database.{Db, memory, memory_laws}
use bipa_coding_challenge.Tests.Nodes.{
  acinq, river, giant, ranking, river_db, losing_db, memory_repository, Stores,
}

-- A commit whose answer is lost.
replace_all-atomic_example :
    Perm (replace_all memory ranking losing_db).1.0 losing_db.0
    ⊎ Perm (replace_all memory ranking losing_db).1.0 (rows_from 0 ranking)
replace_all-atomic_example = replace_all-atomic memory memory_laws ranking losing_db

replace_all-err_example :
    ((replace_all memory ranking losing_db).1.0 ≡ losing_db.0)
    ⊎ ((tx : memory.Tx) × (last : Db) × (cause : SqlxError) × ((memory.commit tx last).0
          ≡ err cause)
        × (database pool_timed_out ≡ database cause))
unfolding replace_all collect_columns unnest
replace_all-err_example =
    replace_all-err memory memory_laws ranking losing_db (database pool_timed_out) refl

twice : ¬ KeysDistinct (rows_from 0 (acinq ∷ acinq ∷ []))
twice (distinct, _) = distinct.0 refl

replace_all-refused_example :
    replace_all memory (acinq ∷ giant ∷ []) river_db
    ≡ (err (out_of_range (codes "capacity_sats") (decimal (2 ^ 63))), river_db)
replace_all-refused_example =
    replace_all-refused memory memory_laws (acinq ∷ giant ∷ []) river_db
      (out_of_range (codes "capacity_sats") (decimal (2 ^ 63)))
      (inr (inr (omega arith, omega arith, inl (omega arith, refl))))

list_nodes-replace_all_example : ranking ≡ ranking
unfolding replace_all collect_columns unnest list_nodes collect_nodes
    bipa_coding_challenge.Storage.Postgres.try_from
list_nodes-replace_all_example =
    list_nodes-replace_all ℤ-discrete memory memory_laws ranking river_db 2 ranking refl refl

pg_repository-laws_example :
    RepositoryLaws memory_repository Stores (CommitFails memory memory_laws)
pg_repository-laws_example = pg_repository-laws ℤ-discrete memory memory_laws

-- A listing comes after the delete, and the server has processed the commit, whose answer is on the way.
underway :
    Steps memory ranking (converting, river_db) (answering (ok tt), (rows_from 0 ranking, false))
unfolding advance collect_columns unnest list_nodes collect_nodes
    bipa_coding_challenge.Storage.Postgres.try_from
underway = next (next (next (next (next (next here turn) turn) turn) listing) turn) turn

list_nodes-Steps_example : ranking ≡ ranking
unfolding list_nodes collect_nodes bipa_coding_challenge.Storage.Postgres.try_from
list_nodes-Steps_example =
    list_nodes-Steps ℤ-discrete memory memory_laws ranking (river ∷ []) river_db
      (answering (ok tt), (rows_from 0 ranking, false)) ranking
      (Perm.refl (rows_from 0 (river ∷ []))) underway refl
