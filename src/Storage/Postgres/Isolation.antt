-- ===== src/Storage/Postgres/Isolation.antt =====
-- What listings see while a replacement is under way: the old snapshot or the new one, whole.
use mathlib.Core.List.{Perm}
use mathlib.Core.List.Perm
use bipa_coding_challenge.Common.{
  ◌≡◌, ◌∙◌, subst, ◌⊎◌, inl, inr, List, [], ◌++◌, ok, err, Result-cases,
}
use bipa_coding_challenge.Domain.{Node}
use bipa_coding_challenge.Storage.Postgres.{StoredRow, unnest, Postgres, PostgresLaws, list_nodes}
use bipa_coding_challenge.Storage.Postgres.Encode.{
  rows_from, fit_cases, collect_columns-ok, collect_columns-Unfit,
}
use bipa_coding_challenge.Storage.Postgres.Repository.{Holds, snapshot_is, rows-list_nodes}
use bipa_coding_challenge.Storage.Postgres.Interleaving.{
  Phase, converting, beginning, deleting, inserting, committing, answering, finished, advance, Step,
  turn, listing, Steps, here, next,
}

module _ {Instant : Type 0} (eq : Discrete Instant) (p : Postgres Instant) (laws : PostgresLaws p)
    (nodes : List (Node Instant)) (old : List (StoredRow Instant)) where
  open laws use {
    rows, view, rows-begin, rows-delete, view-delete, rows-insert, view-insert, rows-commit,
    rows-commit_failed, rows-rollback,
  }

  abbrev pub new_rows : List (StoredRow Instant)
  new_rows = rows_from 0 nodes

  -- What is known of the database in each phase: the committed rows are the old ones until the server
  -- has processed the commit.
  abbrev pub Sound : Phase p × p.Db → Type 0
  Sound (converting, db) = Perm (rows db) old
  Sound (beginning columns, db) = Perm (rows db) old × (unnest columns ≡ new_rows)
  Sound (deleting columns tx, db) = Perm (rows db) old × (unnest columns ≡ new_rows)
  Sound (inserting columns tx, db) =
      Perm (rows db) old × (unnest columns ≡ new_rows) × (view tx ≡ [])
  Sound (committing tx, db) = Perm (rows db) old × Perm (view tx) new_rows
  Sound (answering (ok _), db) = Perm (rows db) new_rows
  Sound (answering (err e), db) = Perm (rows db) old ⊎ Perm (rows db) new_rows
  Sound (finished (ok n), db) = Perm (rows db) new_rows
  Sound (finished (err e), db) = Perm (rows db) old ⊎ Perm (rows db) new_rows

  kept : (db later : p.Db) → rows later ≡ rows db → Perm (rows db) old → Perm (rows later) old
  kept db later same h = rw same h

  pub turn-Sound :
      (phase : Phase p) (db : p.Db) → Sound (phase, db) → Sound (advance p nodes phase db)
  unfolding advance
  turn-Sound converting db h = elim (fit_cases 0 nodes) [
    | inl fit ↦
        let (columns, collected, rows_are) = collect_columns-ok nodes fit in
        rw collected (h, rows_are)
    | inr (e, unfit) ↦ rw (collect_columns-Unfit nodes e unfit) (inl h)
  ]
  turn-Sound (beginning columns) db (h, c) = elim (Result-cases (p.begin db).0) [
    | inl (tx, e) ↦ rw e (kept db _ (rows-begin db) h, c)
    | inr (e, failed) ↦ rw failed (inl (kept db _ (rows-begin db) h))
  ]
  turn-Sound (deleting columns tx) db (h, c) = elim (Result-cases (p.delete_nodes tx db).0) [
    | inl (tx', e) ↦ rw e (kept db _ (rows-delete tx db) h, c, view-delete tx tx' db e)
    | inr (e, failed) ↦ rw failed (inl (kept db _ (rows-rollback tx _ ∙ rows-delete tx db) h))
  ]
  turn-Sound (inserting columns tx) db (h, c, v) =
      elim (Result-cases (p.insert_nodes columns tx db).0) [
        | inl (tx', e) ↦
            let viewed = (view-insert columns tx tx' db e).0 in
            rw e (
              kept db _ (rows-insert columns tx db) h,
              subst (Perm (view tx')) c
                  (subst (λ t. Perm (view tx') (t ++ unnest columns)) v viewed),
            )
        | inr (e, failed) ↦
            rw failed (inl (kept db _ (rows-rollback tx _ ∙ rows-insert columns tx db) h))
      ]
  turn-Sound (committing tx) db (h, v) = elim (Result-cases (p.commit tx db).0) [
    | inl (done, e) ↦ rw e (Perm.trans (rows-commit tx db e) v)
    | inr (e, failed) ↦ rw failed (elim (rows-commit_failed tx db e failed) [
      | inl same ↦ inl (Perm.trans same h)
      | inr new ↦ inr (Perm.trans new v)
    ])
  ]
  turn-Sound (answering (ok _)) db h = h
  turn-Sound (answering (err e)) db h = h
  turn-Sound (finished result) db h = h

  listing-Sound :
      (phase : Phase p) (db later : p.Db)
      → rows later ≡ rows db
      → Sound (phase, db)
      → Sound (phase, later)
  listing-Sound converting db later same h = kept db later same h
  listing-Sound (beginning columns) db later same (h, c) = (kept db later same h, c)
  listing-Sound (deleting columns tx) db later same (h, c) = (kept db later same h, c)
  listing-Sound (inserting columns tx) db later same (h, c, v) = (kept db later same h, c, v)
  listing-Sound (committing tx) db later same (h, v) = (kept db later same h, v)
  listing-Sound (answering (ok _)) db later same h = rw same h
  listing-Sound (answering (err e)) db later same h = rw same h
  listing-Sound (finished (ok n)) db later same h = rw same h
  listing-Sound (finished (err e)) db later same h = rw same h

  Step-Sound : {s t : Phase p × p.Db} → Step p nodes s t → Sound s → Sound t
  Step-Sound {s} turn h = turn-Sound s.0 s.1 h
  Step-Sound {s} listing h = listing-Sound s.0 s.1 _ (rows-list_nodes eq p laws s.1) h

  pub Steps-Sound : {s t : Phase p × p.Db} → Steps p nodes s t → Sound s → Sound t
  Steps-Sound here h = h
  Steps-Sound (next steps step) h = Step-Sound step (Steps-Sound steps h)

module _ {Instant : Type 0} (eq : Discrete Instant) (p : Postgres Instant) (laws : PostgresLaws p)
    (nodes old : List (Node Instant)) where
  -- What a listing may give, where a replacement of `old` by `nodes` stands: the old nodes until the
  -- server has processed the commit; from then on the new ones, although the replacement may not have
  -- returned; and either where the commit, or the replacement, has failed.
  abbrev pub Visible : Phase p → List (Node Instant) → Type 0
  Visible (finished (ok n)) listed = listed ≡ nodes
  Visible (finished (err e)) listed = (listed ≡ old) ⊎ (listed ≡ nodes)
  Visible (answering (ok _)) listed = listed ≡ nodes
  Visible (answering (err e)) listed = (listed ≡ old) ⊎ (listed ≡ nodes)
  Visible converting listed = listed ≡ old
  Visible (beginning _) listed = listed ≡ old
  Visible (deleting _ _) listed = listed ≡ old
  Visible (inserting _ _) listed = listed ≡ old
  Visible (committing _) listed = listed ≡ old

  seen :
      (phase : Phase p) (db : p.Db) (listed : List (Node Instant))
      → Sound eq p laws nodes (rows_from 0 old) (phase, db)
      → (list_nodes p db).0 ≡ ok listed
      → Visible phase listed
  seen converting db listed h e = snapshot_is eq p laws db old listed h e
  seen (beginning _) db listed (h, _) e = snapshot_is eq p laws db old listed h e
  seen (deleting _ _) db listed (h, _) e = snapshot_is eq p laws db old listed h e
  seen (inserting _ _) db listed (h, _, _) e = snapshot_is eq p laws db old listed h e
  seen (committing _) db listed (h, _) e = snapshot_is eq p laws db old listed h e
  seen (answering (ok _)) db listed h e = snapshot_is eq p laws db nodes listed h e
  seen (answering (err x)) db listed (inl h) e = inl (snapshot_is eq p laws db old listed h e)
  seen (answering (err x)) db listed (inr h) e = inr (snapshot_is eq p laws db nodes listed h e)
  seen (finished (ok n)) db listed h e = snapshot_is eq p laws db nodes listed h e
  seen (finished (err x)) db listed (inl h) e = inl (snapshot_is eq p laws db old listed h e)
  seen (finished (err x)) db listed (inr h) e = inr (snapshot_is eq p laws db nodes listed h e)

  -- However listings of other tasks come between the statements of a replacement, a listing that
  -- succeeds returns exactly the old nodes in their order until the server has processed the commit,
  -- exactly the new ones from a commit that took place on, before and after the replacement returns, and
  -- one of the two where the commit has failed or the replacement has returned an error.
  pub list_nodes-Steps :
      (db : p.Db) (s : Phase p × p.Db) (listed : List (Node Instant))
      → Holds eq p laws db old
      → Steps p nodes (converting, db) s
      → (list_nodes p s.1).0 ≡ ok listed
      → Visible s.0 listed
  list_nodes-Steps db s listed held steps e =
      seen s.0 s.1 listed (Steps-Sound eq p laws nodes (rows_from 0 old) steps held) e
