-- ===== src/Tests/Contract.antt =====
-- The contract of the repository on a database in memory whose commit may fail, and then does nothing.
use mathlib.Core.List.{Perm}
use mathlib.Core.List.Perm
use bipa_coding_challenge.Common.{◌≡◌, refl, sym, inl, true, false, List, Result, ok, err}
use bipa_coding_challenge.Common.Int.{ℤ}
use bipa_coding_challenge.Storage.{SqlxError, pool_timed_out}
use bipa_coding_challenge.Storage.Postgres.{Postgres, PostgresLaws}
use bipa_coding_challenge.Tests.Database.{
  Row, Db, memory, sort, sort-Perm, sort-IsSorted, insert-rows, insert-view,
}

-- The next commit fails where the flag says so.
abbrev refuse : List Row → Db → Result (Unit {0}) SqlxError × Db
refuse tx (table, true) = (err pool_timed_out, (table, true))
refuse tx (table, false) = (ok tt, (tx, false))

abbrev refusing : Postgres ℤ
refusing = record memory { commit = refuse }

refuse-rows : (tx : List Row) (db : Db) → (refuse tx db).0 ≡ ok tt → Perm (refuse tx db).1.0 tx
refuse-rows tx (table, true) h = absurd (cc)
refuse-rows tx (table, false) h = Perm.refl tx

refuse-kept :
    (tx : List Row) (db : Db) (e : SqlxError)
    → (refuse tx db).0 ≡ err e
    → Perm (refuse tx db).1.0 db.0
refuse-kept tx (table, true) e h = Perm.refl table
refuse-kept tx (table, false) e h = absurd (cc)

abbrev refusing_laws : PostgresLaws refusing
refusing_laws = record {
  rows = λ db. db.0;
  view = λ tx. tx;
  rows-begin = λ db. refl;
  rows-delete = λ tx db. refl;
  view-delete = λ tx tx' db h. sym (cc);
  rows-insert = insert-rows;
  view-insert = insert-view;
  rows-commit = refuse-rows;
  rows-commit_failed = λ tx db e h. inl (refuse-kept tx db e h);
  rows-rollback = λ tx db. refl;
  rows-select = λ db. refl;
  ordered = λ db found h. (sort db.0, sort-Perm db.0, sort-IsSorted db.0, sym (cc));
}
