-- ===== src/Storage/Postgres/Replace.antt =====
-- What a replacement leaves in the table, whichever statement fails.
use mathlib.Core.List.{Perm}
use mathlib.Core.List.Perm
use bipa_coding_challenge.Common.{
  ◌≡◌, refl, ◌∙◌, subst, ap, map_err, ◌⊎◌, inl, inr, List, [], ◌++◌, Result, ok, err, Result-cases,
}
use bipa_coding_challenge.Storage.{SqlxError, StorageError, database}
use bipa_coding_challenge.Storage.Postgres.{
  StoredRow, Columns, unnest, KeysDistinct, Postgres, PostgresLaws, and_then, or_rollback, run,
  write_columns,
}

module _ {Instant : Type 0} (p : Postgres Instant) (laws : PostgresLaws p) where
  open laws use {
    rows, view, rows-begin, rows-delete, view-delete, rows-insert, view-insert, rows-commit,
    rows-commit_failed, rows-rollback,
  }

  -- How writing a table of new rows can end.
  pub data Written (new : List (StoredRow Instant)) (db : p.Db)
      (r : Result (Unit {0}) StorageError × p.Db) : Type 0 where
    written : r.0 ≡ ok tt → Perm (rows r.1) new → KeysDistinct new → Written new db r
    kept : (e : StorageError) → r.0 ≡ err e → rows r.1 ≡ rows db → Written new db r
    -- the commit failed, and may have taken effect
    unsure :
        (e : SqlxError) (tx : p.Tx) (last : p.Db)
        → (p.commit tx last).0 ≡ err e
        → r ≡ (err (database e), (p.commit tx last).1)
        → rows last ≡ rows db
        → Perm (view tx) new
        → Perm (rows r.1) (rows db) ⊎ Perm (rows r.1) new
        → KeysDistinct new
        → Written new db r

  commit-Written :
      (new : List (StoredRow Instant)) (db : p.Db) (tx : p.Tx) (last : p.Db)
      → rows last ≡ rows db
      → Perm (view tx) new
      → KeysDistinct new
      → Written new db (run p (p.commit tx) last)
  commit-Written new db tx last same viewed distinct = elim (Result-cases (p.commit tx last).0) [
    | inl (done, e) ↦
        written (ap (map_err database) e) (Perm.trans (rows-commit tx last e) viewed) distinct
    | inr (e, failed) ↦
        unsure e tx last failed (ap (λ r. (map_err database r, (p.commit tx last).1)) failed) same
          viewed
          (elim (rows-commit_failed tx last e failed) [
            | inl old ↦ inl (subst (Perm (rows (p.commit tx last).1)) same old)
            | inr new ↦ inr (Perm.trans new viewed)
          ])
          distinct
  ]

  module _ (columns : Columns Instant) (db : p.Db) where
    insert-Written :
        (tx : p.Tx) (later : p.Db)
        → rows later ≡ rows db
        → view tx ≡ []
        → Written (unnest columns) db (
            and_then p
              (or_rollback p tx (run p (p.insert_nodes columns tx) later))
              λ tx' last. run p (p.commit tx') last)
    insert-Written tx later same emptied = elim (Result-cases (p.insert_nodes columns tx later).0) [
      | inl (tx', e) ↦
          let (viewed, distinct) = view-insert columns tx tx' later e in
          rw e (
            commit-Written (unnest columns) db tx' _ (rows-insert columns tx later ∙ same)
              (subst (λ v. Perm (view tx') (v ++ unnest columns)) emptied viewed) distinct)
      | inr (e, failed) ↦
          rw failed
            (kept (database e) refl (rows-rollback tx _ ∙ rows-insert columns tx later ∙ same))
    ]

    delete-Written :
        (tx : p.Tx) (later : p.Db)
        → rows later ≡ rows db
        → Written (unnest columns) db (
            and_then p (or_rollback p tx (run p (p.delete_nodes tx) later)) λ tx2 db2.
              and_then p
                (or_rollback p tx2 (run p (p.insert_nodes columns tx2) db2))
                λ tx3 db3. run p (p.commit tx3) db3)
    delete-Written tx later same = elim (Result-cases (p.delete_nodes tx later).0) [
      | inl (tx', e) ↦
          rw e (insert-Written tx' _ (rows-delete tx later ∙ same) (view-delete tx tx' later e))
      | inr (e, failed) ↦
          rw failed (kept (database e) refl (rows-rollback tx _ ∙ rows-delete tx later ∙ same))
    ]

    pub write_columns-Written : Written (unnest columns) db (write_columns p columns db)
    unfolding write_columns
    write_columns-Written = elim (Result-cases (p.begin db).0) [
      | inl (tx, began) ↦ rw began (delete-Written tx _ (rows-begin db))
      | inr (e, failed) ↦ rw failed (kept (database e) refl (rows-begin db))
    ]
