-- ===== src/Storage/Postgres/Repository.antt =====
-- What the repository promises its clients: reading gives back what was written, in ranking order,
-- and the contract of `NodeRepository` holds.
use mathlib.Core.List.{Perm}
use mathlib.Core.List.Perm
use mathlib.Core.HLevel.{hedberg}
use native.Mathlib.Decide.{ℕ_discrete}
use bipa_coding_challenge.Common.{ℕ, ◌≡◌, ◌∙◌, ap, ◌⊎◌, inl, inr, List, map, ok, err, Result-cases}
use bipa_coding_challenge.Common.Int.{ℤ}
use bipa_coding_challenge.Common.Ranked.{sorted_unique}
use bipa_coding_challenge.Domain.{Node}
use bipa_coding_challenge.Storage.{SqlxError, StorageError, RepositoryLaws, database}
use bipa_coding_challenge.Storage.Postgres.{
  NodeRow, StoredRow, Postgres, PostgresLaws, replace_all, list_nodes, pg_repository,
}
use bipa_coding_challenge.Storage.Postgres.Encode.{rows_from, rows_from-IsIncreasing}
use bipa_coding_challenge.Storage.Postgres.Decode.{collect_nodes-rows_from}
use bipa_coding_challenge.Storage.Postgres.Snapshot.{
  CommitFails, replace_all-ok, replace_all-failed,
}

pub ℤ-discrete : Discrete ℤ
ℤ-discrete = hlevel ℕ_discrete

module _ {Instant : Type 0} (eq : Discrete Instant) where
  StoredRow-discrete : Discrete (StoredRow Instant)
  StoredRow-discrete = hlevel (eq, ℕ_discrete, ℤ-discrete)

  module _ (p : Postgres Instant) (laws : PostgresLaws p) where
    open laws use {rows, rows-select, ordered}

    -- The table holds a ranking: one row for each node, ranked by its place, in whatever order.
    abbrev pub Holds : p.Db → List (Node Instant) → Type 0
    Holds db nodes = Perm (rows db) (rows_from 0 nodes)

    found_are :
        (db : p.Db) (nodes : List (Node Instant)) (found : List (NodeRow Instant))
        → Holds db nodes
        → (p.select_by_rank db).0 ≡ ok found
        → found ≡ map (λ r. r.row) (rows_from 0 nodes)
    found_are db nodes found held e =
        let (sorted, same, in_order, projected) = ordered db found e in
        projected
        ∙ ap (map (λ r. r.row)) (
            sorted_unique (λ r. r.rank) (hedberg StoredRow-discrete) sorted (rows_from 0 nodes)
              (Perm.trans same held) in_order (rows_from-IsIncreasing 0 nodes))

    list_nodes-cases :
        (db : p.Db) (nodes : List (Node Instant))
        → Holds db nodes
        → ((list_nodes p db).0 ≡ ok nodes) ⊎ ((e : StorageError) × ((list_nodes p db).0 ≡ err e))
    unfolding list_nodes
    list_nodes-cases db nodes held = elim (Result-cases (p.select_by_rank db).0) [
      | inl (found, e) ↦
          inl (rw (e, found_are db nodes found held e) (collect_nodes-rows_from 0 nodes))
      | inr (e, failed) ↦ inr (database e, rw failed)
    ]

    pub rows-list_nodes : (db : p.Db) → rows (list_nodes p db).1 ≡ rows db
    unfolding list_nodes
    rows-list_nodes db = elim (Result-cases (p.select_by_rank db).0) [
      | inl (found, e) ↦ rw e (rows-select db)
      | inr (e, failed) ↦ rw failed (rows-select db)
    ]

    pub snapshot_is :
        (db : p.Db) (old nodes : List (Node Instant))
        → Holds db old
        → (list_nodes p db).0 ≡ ok nodes
        → nodes ≡ old
    snapshot_is db old nodes held e = elim (list_nodes-cases db old held) [
      | inl same ↦ cc
      | inr (f, failed) ↦ absurd (cc)
    ]

    -- After a replacement that succeeded, a listing that succeeds returns exactly the given nodes, in
    -- the given order, in whatever order the database keeps its rows.
    pub list_nodes-replace_all :
        (nodes : List (Node Instant)) (db : p.Db) (n : ℕ) (listed : List (Node Instant))
        → (replace_all p nodes db).0 ≡ ok n
        → (list_nodes p (replace_all p nodes db).1).0 ≡ ok listed
        → listed ≡ nodes
    list_nodes-replace_all nodes db n listed done e =
        let (_, held, _) = replace_all-ok p laws nodes db n done in
        snapshot_is (replace_all p nodes db).1 nodes listed held e

    -- The PostgreSQL repository keeps the contract of `NodeRepository`, where a snapshot is held if the
    -- table has one row for each node, ranked by its place: a replacement that succeeds holds the new
    -- nodes and returns their number; one that fails or panics leaves the old nodes, but where its own
    -- commit has failed and it returns that error, and then it leaves the old or the new ones. A
    -- listing changes nothing, and one that succeeds returns the held nodes in order.
    pub pg_repository-laws : RepositoryLaws (pg_repository p) Holds (CommitFails p laws)
    pg_repository-laws = record {
      replaced = λ nodes db n done.
          let (counted, held, _) = replace_all-ok p laws nodes db n (cc) in (held, counted);
      failed = λ nodes old db e held done. elim (replace_all-failed p laws nodes db e (cc)) [
        | inl same ↦ inl (Perm.trans same held)
        | inr lost ↦ inr lost
      ];
      interrupted = λ nodes old db m held done. absurd (cc);
      listed = λ old nodes db held e. snapshot_is db old nodes held (cc);
      read_only = λ old db held. rw (rows-list_nodes db) held;
    }

    -- A commit that fails has not taken effect.
    abbrev pub CommitsKnown : Type 0
    CommitsKnown =
        (tx : p.Tx) (last : p.Db) (e : SqlxError)
        → (p.commit tx last).0 ≡ err e
        → Perm (rows (p.commit tx last).1) (rows last)
