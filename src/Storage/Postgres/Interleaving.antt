-- ===== src/Storage/Postgres/Interleaving.antt =====
-- `replace_all` one await at a time, with listings of other tasks in between. The statements of a
-- transaction reach the server one by one; what other tasks do between them are listings, since
-- nothing else writes. What a statement does to an open transaction no other connection sees, so it is one
-- step with the return of its await; a commit is seen from the moment at which the server processes it, and
-- its await returns in a later step.
use bipa_coding_challenge.Common.{
  ℕ, zero, suc, ◌≡◌, refl, inl, inr, List, length, Result, ok, err, Result-cases,
}
use bipa_coding_challenge.Domain.{Node}
use bipa_coding_challenge.Storage.{StorageError}
use bipa_coding_challenge.Storage.Postgres.{
  Columns, collect_columns, Postgres, and_then, run, or_rollback, write_columns, replace_all,
  list_nodes,
}

-- Where a replacement stands: before the conversion, or at one of its four awaits, or at the last of them
-- with the commit processed and its answer on the way, or returned.
pub data Phase {Instant : Type 0} (p : Postgres Instant) : Type 0 where
  converting : Phase p
  beginning : Columns Instant → Phase p
  deleting : Columns Instant → p.Tx → Phase p
  inserting : Columns Instant → p.Tx → Phase p
  committing : p.Tx → Phase p
  answering : Result (Unit {0}) StorageError → Phase p
  finished : Result ℕ StorageError → Phase p

module _ {Instant : Type 0} (p : Postgres Instant) (nodes : List (Node Instant)) where
  -- The phase after an await, or the return of its error.
  abbrev pub proceed : {A : Type 0} → Result A StorageError × p.Db → (A → Phase p) → Phase p × p.Db
  proceed (ok a, db) next = (next a, db)
  proceed (err e, db) next = (finished (err e), db)

  -- The code of `replace_all` up to the end of its next await, or to the commit on the server.
  unfoldable pub advance : Phase p → p.Db → Phase p × p.Db
  advance converting db = proceed (collect_columns nodes, db) beginning
  advance (beginning columns) db = proceed (run p p.begin db) (deleting columns)
  advance (deleting columns tx) db =
      proceed (or_rollback p tx (run p (p.delete_nodes tx) db)) (inserting columns)
  advance (inserting columns tx) db =
      proceed (or_rollback p tx (run p (p.insert_nodes columns tx) db)) committing
  advance (committing tx) db =
      let committed = run p (p.commit tx) db in (answering committed.0, committed.1)
  advance (answering result) db = proceed (result, db) (λ _. finished (ok (length nodes)))
  advance (finished result) db = (finished result, db)

  unfoldable pub advance_by : ℕ → Phase p × p.Db → Phase p × p.Db
  unfolding advance
  advance_by zero s = s
  advance_by (suc n) s = advance_by n (advance s.0 s.1)

  -- A turn of the replacement, or a listing by another task.
  pub data Step (s : Phase p × p.Db) : Phase p × p.Db → Type 0 where
    turn : Step s (advance s.0 s.1)
    listing : Step s (s.0, (list_nodes p s.1).1)

  pub data Steps (s : Phase p × p.Db) : Phase p × p.Db → Type 0 where
    here : Steps s s
    next : {t u : Phase p × p.Db} → Steps s t → Step t u → Steps s u

  abbrev pub returned_as : Result ℕ StorageError × p.Db → Phase p × p.Db
  returned_as (result, db) = (finished result, db)

  pub advance_by-finished :
      (n : ℕ) (result : Result ℕ StorageError) (db : p.Db)
      → advance_by n (finished result, db) ≡ (finished result, db)
  unfolding advance_by advance
  advance_by-finished zero result db = refl
  advance_by-finished (suc n) result db = advance_by-finished n result db

  abbrev count : Result (Unit {0}) StorageError × p.Db → Result ℕ StorageError × p.Db
  count r = and_then p r λ _ later. (ok (length nodes), later)

  from_commit :
      (tx : p.Tx) (db : p.Db)
      → advance_by 2 (committing tx, db) ≡ returned_as (count (run p (p.commit tx) db))
  unfolding advance_by advance
  from_commit tx db = elim (Result-cases (p.commit tx db).0) [
    | inl (done, e) ↦ rw e refl
    | inr (e, failed) ↦ rw failed refl
  ]

  from_insert :
      (columns : Columns Instant) (tx : p.Tx) (db : p.Db)
      → advance_by 3 (inserting columns tx, db)
        ≡ returned_as (
            count (
              and_then p
                (or_rollback p tx (run p (p.insert_nodes columns tx) db))
                λ tx' last. run p (p.commit tx') last))
  unfolding advance_by advance
  from_insert columns tx db = elim (Result-cases (p.insert_nodes columns tx db).0) [
    | inl (tx', e) ↦ rw e (from_commit tx' _)
    | inr (e, failed) ↦ rw failed refl
  ]

  from_delete :
      (columns : Columns Instant) (tx : p.Tx) (db : p.Db)
      → advance_by 4 (deleting columns tx, db)
        ≡ returned_as (
            count (
              and_then p (or_rollback p tx (run p (p.delete_nodes tx) db)) λ tx2 db2.
                and_then p
                  (or_rollback p tx2 (run p (p.insert_nodes columns tx2) db2))
                  λ tx3 db3. run p (p.commit tx3) db3))
  unfolding advance_by advance
  from_delete columns tx db = elim (Result-cases (p.delete_nodes tx db).0) [
    | inl (tx', e) ↦ rw e (from_insert columns tx' _)
    | inr (e, failed) ↦ rw failed refl
  ]

  from_begin :
      (columns : Columns Instant) (db : p.Db)
      → advance_by 5 (beginning columns, db) ≡ returned_as (count (write_columns p columns db))
  unfolding advance_by advance write_columns
  from_begin columns db = elim (Result-cases (p.begin db).0) [
    | inl (tx, e) ↦ rw e (from_delete columns tx _)
    | inr (e, failed) ↦ rw failed refl
  ]

  -- Six turns of a replacement that no other task interrupts are exactly `replace_all`.
  pub advance_by-replace_all :
      (db : p.Db) → advance_by 6 (converting, db) ≡ returned_as (replace_all p nodes db)
  unfolding advance_by advance replace_all
  advance_by-replace_all db = elim (Result-cases (collect_columns nodes)) [
    | inl (columns, e) ↦ rw (e, replace_all) (from_begin columns db)
    | inr (e, failed) ↦ rw (failed, replace_all) refl
  ]
