-- ===== src/Storage/Postgres/Snapshot.antt =====
-- `replace_all` as a whole: all or nothing, and what makes it refuse.
use mathlib.Core.List.{Perm}
use mathlib.Core.List.Perm
use bipa_coding_challenge.Common.{
  ℕ, ◌≡◌, refl, subst, ap, ◌⊎◌, inl, inr, List, length, Result, ok, err,
}
use bipa_coding_challenge.Domain.{Node}
use bipa_coding_challenge.Storage.{SqlxError, StorageError, database}
use bipa_coding_challenge.Storage.Postgres.{
  KeysDistinct, Postgres, PostgresLaws, and_then, write_columns, replace_all,
}
use bipa_coding_challenge.Storage.Postgres.Encode.{
  Unfit, rows_from, collect_columns-ok, collect_columns-Unfit, fit_cases,
}
use bipa_coding_challenge.Storage.Postgres.Replace.{
  Written, written, kept, unsure, write_columns-Written,
}

module _ {Instant : Type 0} (p : Postgres Instant) (laws : PostgresLaws p) where
  open laws use {rows, view}

  -- How a replacement can end.
  pub data Replaced (nodes : List (Node Instant)) (db : p.Db) (r : Result ℕ StorageError × p.Db)
      : Type 0 where
    -- a value is out of range: no statement runs
    refused : (e : StorageError) → Unfit 0 nodes e → r ≡ (err e, db) → Replaced nodes db r
    stored :
        r.0 ≡ ok (length nodes)
        → Perm (rows r.1) (rows_from 0 nodes)
        → KeysDistinct (rows_from 0 nodes)
        → Replaced nodes db r
    -- a statement failed, and the transaction was dropped
    undone : (e : StorageError) → r.0 ≡ err e → rows r.1 ≡ rows db → Replaced nodes db r
    -- the commit failed, and may have taken effect
    in_doubt :
        (e : SqlxError) (tx : p.Tx) (last : p.Db)
        → (p.commit tx last).0 ≡ err e
        → r ≡ (err (database e), (p.commit tx last).1)
        → rows last ≡ rows db
        → Perm (view tx) (rows_from 0 nodes)
        → Perm (rows r.1) (rows db) ⊎ Perm (rows r.1) (rows_from 0 nodes)
        → KeysDistinct (rows_from 0 nodes)
        → Replaced nodes db r

  -- The commit of the replacement fails, that of a transaction that sees the new rows while the table
  -- has the old ones, and the replacement returns its error.
  abbrev pub CommitFails : List (Node Instant) → p.Db → Type 0
  CommitFails nodes db =
      (tx : p.Tx) × (last : p.Db) × (cause : SqlxError) × (rows last ≡ rows db)
      × Perm (view tx) (rows_from 0 nodes)
      × ((p.commit tx last).0 ≡ err cause)
      × (replace_all p nodes db ≡ (err (database cause), (p.commit tx last).1))

  module _ (nodes : List (Node Instant)) (db : p.Db) where
    counted : Result (Unit {0}) StorageError × p.Db → Result ℕ StorageError × p.Db
    counted r = and_then p r λ _ later. (ok (length nodes), later)

    counted-Replaced :
        (r : Result (Unit {0}) StorageError × p.Db)
        → Written p laws (rows_from 0 nodes) db r
        → Replaced nodes db (counted r)
    unfolding counted
    counted-Replaced (ok _, later) (written e same distinct) = stored refl same distinct
    counted-Replaced (ok _, later) (kept e failed same) = cc
    counted-Replaced (ok _, later) (unsure e tx last failed whole before viewed either distinct) =
        cc (ap (λ t. t.0) whole)
    counted-Replaced (err e', later) (written e same distinct) = cc
    counted-Replaced (err e', later) (kept e failed same) = undone e' refl same
    counted-Replaced (err e', later) (unsure e tx last failed whole before viewed either distinct) =
        in_doubt e tx last failed (ap counted whole) before viewed either distinct

    replace_all-Replaced : Replaced nodes db (replace_all p nodes db)
    unfolding replace_all counted
    replace_all-Replaced = elim (fit_cases 0 nodes) [
      | inl fit ↦
          let (columns, collected, rows_are) = collect_columns-ok nodes fit in
          rw (collected, replace_all)
            (counted-Replaced (write_columns p columns db) (
              subst (λ new. Written p laws new db (write_columns p columns db)) rows_are
                (write_columns-Written p laws columns db)))
      | inr (e, unfit) ↦
          rw (collect_columns-Unfit nodes e unfit, replace_all) (refused e unfit refl)
    ]

    -- Whichever statement fails, the committed table afterwards holds exactly the rows it held before,
    -- or exactly one row for each given node, with the node's place as rank: never a mixture.
    pub replace_all-atomic :
        Perm (rows (replace_all p nodes db).1) (rows db)
        ⊎ Perm (rows (replace_all p nodes db).1) (rows_from 0 nodes)
    replace_all-atomic = elim replace_all-Replaced [
      | refused e unfit whole ↦ inl (rw (ap (λ r. r.1) whole) (Perm.refl (rows db)))
      | stored e same distinct ↦ inr same
      | undone e failed same ↦ inl (rw same (Perm.refl (rows db)))
      | in_doubt e tx last failed whole before viewed either distinct ↦ either
    ]

    -- A replacement that succeeds returns the number of the given nodes, and the table then holds
    -- exactly one row for each of them, with its place as rank; their keys are all distinct.
    pub replace_all-ok :
        (n : ℕ)
        → (replace_all p nodes db).0 ≡ ok n
        → (n ≡ length nodes)
          × Perm (rows (replace_all p nodes db).1) (rows_from 0 nodes)
          × KeysDistinct (rows_from 0 nodes)
    replace_all-ok n done = elim replace_all-Replaced [
      | refused e unfit whole ↦ absurd (cc (ap (λ r. r.0) whole))
      | stored e same distinct ↦ (cc, same, distinct)
      | undone e failed same ↦ absurd (cc)
      | in_doubt e tx last failed whole before viewed either distinct ↦
          absurd (cc (ap (λ r. r.0) whole))
    ]

    -- If a replacement fails, either the rows of the table are unchanged, or it was the commit itself
    -- that failed.
    pub replace_all-err :
        (e : StorageError)
        → (replace_all p nodes db).0 ≡ err e
        → (rows (replace_all p nodes db).1 ≡ rows db)
          ⊎ ((tx : p.Tx) × (last : p.Db) × (cause : SqlxError) × ((p.commit tx last).0 ≡ err cause)
              × (e ≡ database cause))
    replace_all-err e failed = elim replace_all-Replaced [
      | refused e' unfit whole ↦ inl (ap (λ r. rows r.1) whole)
      | stored e' same distinct ↦ absurd (cc)
      | undone e' failed' same ↦ inl same
      | in_doubt cause tx last at_commit whole before viewed either distinct ↦
          inr (tx, last, cause, at_commit, cc (ap (λ r. r.0) whole))
    ]

    pub replace_all-failed :
        (e : StorageError)
        → (replace_all p nodes db).0 ≡ err e
        → Perm (rows (replace_all p nodes db).1) (rows db)
          ⊎ (CommitFails nodes db × Perm (rows (replace_all p nodes db).1) (rows_from 0 nodes))
    replace_all-failed e failed = elim replace_all-Replaced [
      | refused e' unfit whole ↦ inl (rw (ap (λ r. r.1) whole) (Perm.refl (rows db)))
      | stored e' same distinct ↦ absurd (cc)
      | undone e' failed' same ↦ inl (rw same (Perm.refl (rows db)))
      | in_doubt cause tx last at_commit whole before viewed either distinct ↦ elim either [
        | inl old ↦ inl old
        | inr new ↦ inr ((tx, last, cause, before, viewed, at_commit, whole), new)
      ]
    ]

    -- Two nodes with one key make the replacement fail with the table unchanged, whatever the database
    -- does.
    pub replace_all-duplicate :
        ¬ KeysDistinct (rows_from 0 nodes)
        → (e : StorageError) × ((replace_all p nodes db).0 ≡ err e)
          × (rows (replace_all p nodes db).1 ≡ rows db)
    replace_all-duplicate twice = elim replace_all-Replaced [
      | refused e unfit whole ↦ (e, ap (λ r. r.0) whole, ap (λ r. rows r.1) whole)
      | stored e same distinct ↦ absurd (twice distinct)
      | undone e failed same ↦ (e, failed, same)
      | in_doubt e tx last failed whole before viewed either distinct ↦ absurd (twice distinct)
    ]

    -- A capacity above the signed 64-bit range, or a place above the signed 32-bit range, is refused
    -- before any statement runs: the error is that of the first such node, and the database is untouched.
    pub replace_all-refused :
        (e : StorageError) → Unfit 0 nodes e → replace_all p nodes db ≡ (err e, db)
    unfolding replace_all
    replace_all-refused e unfit = rw (collect_columns-Unfit nodes e unfit, replace_all)
