-- ===== src/EndToEnd/Underway.antt =====
-- What is known while an import is under way: the table holds one snapshot, whole; the old one until
-- the server has processed the commit.
use bipa_coding_challenge.Common.{◌⊎◌, inl, inr, List, [], ◌∷◌, ok, err, Call-cases}
use bipa_coding_challenge.Domain.{Node}
use bipa_coding_challenge.Domain.Time.{Chrono}
use bipa_coding_challenge.Source.Dto.{SerdeJson}
use bipa_coding_challenge.Source.Mempool.{Reqwest, MempoolClient}
use bipa_coding_challenge.Storage.Postgres.{Postgres, PostgresLaws}
use bipa_coding_challenge.Storage.Postgres.Encode.{rows_from}
use bipa_coding_challenge.Storage.Postgres.Repository.{Holds}
use bipa_coding_challenge.Storage.Postgres.Interleaving.{
  Phase, converting, beginning, deleting, inserting, committing, answering, finished, advance,
}
use bipa_coding_challenge.Storage.Postgres.Isolation.{Sound, turn-Sound}
use bipa_coding_challenge.EndToEnd.Task.{Importing, idle, replacing, resumed, take_turn}
use bipa_coding_challenge.EndToEnd.{node_source, Outside}
use bipa_coding_challenge.EndToEnd.Import.{fetched_records}
use bipa_coding_challenge.EndToEnd.History.{IsDelivered}

module _ (c : Chrono) (s : SerdeJson) (r : Reqwest) (p : Postgres c.Instant)
    (client : MempoolClient r) where
  module _ (eq : Discrete c.Instant) (laws : PostgresLaws p) where
    -- What is known of a replacement that has not returned, where the table holds a snapshot: the old
    -- snapshot before the commit is processed, and after it only that the table holds this one.
    abbrev pub Open : List (Node c.Instant) → List (Node c.Instant) → Phase p → p.Db → Type 0
    Open snapshot nodes (finished result) db = ⊥
    Open snapshot nodes (answering result) db = Holds eq p laws db snapshot
    Open snapshot nodes converting db =
        Sound eq p laws nodes (rows_from 0 snapshot) (converting, db)
    Open snapshot nodes (beginning columns) db =
        Sound eq p laws nodes (rows_from 0 snapshot) (beginning columns, db)
    Open snapshot nodes (deleting columns tx) db =
        Sound eq p laws nodes (rows_from 0 snapshot) (deleting columns tx, db)
    Open snapshot nodes (inserting columns tx) db =
        Sound eq p laws nodes (rows_from 0 snapshot) (inserting columns tx, db)
    Open snapshot nodes (committing tx) db =
        Sound eq p laws nodes (rows_from 0 snapshot) (committing tx, db)

    -- The table holds the snapshot, and what is being written was delivered.
    abbrev pub Underway : List (Node c.Instant) → Importing c s r p client → p.Db → Type 0
    Underway snapshot idle db = Holds eq p laws db snapshot
    Underway snapshot (replacing nodes phase) db =
        IsDelivered c s r p client nodes × Open snapshot nodes phase db

    pub Underway-Holds :
        (snapshot : List (Node c.Instant)) (importing : Importing c s r p client) (db : p.Db)
        → Underway snapshot importing db
        → Holds eq p laws db snapshot
    Underway-Holds snapshot idle db held = held
    Underway-Holds snapshot (replacing nodes converting) db (_, h) = h
    Underway-Holds snapshot (replacing nodes (beginning _)) db (_, (h, _)) = h
    Underway-Holds snapshot (replacing nodes (deleting _ _)) db (_, (h, _)) = h
    Underway-Holds snapshot (replacing nodes (inserting _ _)) db (_, (h, _, _)) = h
    Underway-Holds snapshot (replacing nodes (committing _)) db (_, (h, _)) = h
    Underway-Holds snapshot (replacing nodes (answering _)) db (_, h) = h
    Underway-Holds snapshot (replacing nodes (finished _)) db (_, ended) = absurd ended

    -- A request leaves the import where it is.
    pub Underway-read_only :
        (snapshot : List (Node c.Instant)) (importing : Importing c s r p client) (db later : p.Db)
        → Holds eq p laws later snapshot
        → Underway snapshot importing db
        → Underway snapshot importing later
    Underway-read_only snapshot idle db later held h = held
    Underway-read_only snapshot (replacing nodes converting) db later held (d, h) = (d, held)
    Underway-read_only snapshot (replacing nodes (beginning _)) db later held (d, (_, v)) =
        (d, (held, v))
    Underway-read_only snapshot (replacing nodes (deleting _ _)) db later held (d, (_, v)) =
        (d, (held, v))
    Underway-read_only snapshot (replacing nodes (inserting _ _)) db later held (d, (_, v, u)) =
        (d, (held, v, u))
    Underway-read_only snapshot (replacing nodes (committing _)) db later held (d, (_, v)) =
        (d, (held, v))
    Underway-read_only snapshot (replacing nodes (answering _)) db later held (d, _) = (d, held)
    Underway-read_only snapshot (replacing nodes (finished _)) db later held (_, ended) =
        absurd ended

    -- The replacement goes on, or its commit is processed and the table holds one of the two snapshots.
    resumed-Underway :
        (snapshot nodes : List (Node c.Instant)) (phase : Phase p) (db : p.Db)
        → IsDelivered c s r p client nodes
        → Sound eq p laws nodes (rows_from 0 snapshot) (phase, db)
        → Underway snapshot (resumed c s r p client nodes phase) db
          ⊎ Underway nodes (resumed c s r p client nodes phase) db
    resumed-Underway snapshot nodes converting db d h = inl (d, h)
    resumed-Underway snapshot nodes (beginning _) db d h = inl (d, h)
    resumed-Underway snapshot nodes (deleting _ _) db d h = inl (d, h)
    resumed-Underway snapshot nodes (inserting _ _) db d h = inl (d, h)
    resumed-Underway snapshot nodes (committing _) db d h = inl (d, h)
    resumed-Underway snapshot nodes (answering (ok _)) db d h = inr (d, h)
    resumed-Underway snapshot nodes (answering (err e)) db d (inl h) = inl (d, h)
    resumed-Underway snapshot nodes (answering (err e)) db d (inr h) = inr (d, h)
    resumed-Underway snapshot nodes (finished (ok n)) db d h = inr h
    resumed-Underway snapshot nodes (finished (err e)) db d h = h

    Underway-or_new :
        (snapshot nodes : List (Node c.Instant)) (importing : Importing c s r p client) (db : p.Db)
        → IsDelivered c s r p client nodes
        → Underway snapshot importing db ⊎ Underway nodes importing db
        → Underway snapshot importing db
          ⊎ ((nodes : List (Node c.Instant)) × IsDelivered c s r p client nodes
              × Underway nodes importing db)
    Underway-or_new snapshot nodes importing db d (inl same) = inl same
    Underway-or_new snapshot nodes importing db d (inr new) = inr (nodes, d, new)

    turned :
        (snapshot nodes : List (Node c.Instant)) (phase : Phase p) (db : p.Db)
        → IsDelivered c s r p client nodes
        → Sound eq p laws nodes (rows_from 0 snapshot) (phase, db)
        → let moved = advance p nodes phase db in
          let importing = resumed c s r p client nodes moved.0 in
          Underway snapshot importing moved.1
          ⊎ ((written : List (Node c.Instant)) × IsDelivered c s r p client written
              × Underway written importing moved.1)
    turned snapshot nodes phase db delivered sound =
        let moved = advance p nodes phase db in
        Underway-or_new snapshot nodes (resumed c s r p client nodes moved.0) moved.1 delivered (
          resumed-Underway snapshot nodes moved.0 moved.1 delivered
            (turn-Sound eq p laws nodes (rows_from 0 snapshot) phase db sound))

    pub take_turn-Underway :
        (snapshot : List (Node c.Instant)) (importing : Importing c s r p client)
        (w : Outside c s r p client)
        → Underway snapshot importing w.store
        → let next = take_turn c s r p client importing w in
          Underway snapshot next.importing next.outside.store
          ⊎ ((nodes : List (Node c.Instant)) × IsDelivered c s r p client nodes
              × Underway nodes next.importing next.outside.store)
    unfolding take_turn advance
    take_turn-Underway snapshot idle w held =
        elim (Call-cases ((node_source c s r p client).fetch_nodes w.upstream).0) [
          | inl ([], e) ↦ rw e (inl held)
          | inl (node ∷ nodes, e) ↦
              let (records, delivers, same) =
                fetched_records c s r p client w.upstream (node ∷ nodes) e in
              rw e (inl ((λ none. cc, w.upstream, records, delivers, same), held))
          | inr (inl (x, e)) ↦ rw e (inl held)
          | inr (inr (m, e)) ↦ rw e (inl held)
        ]
    take_turn-Underway snapshot (replacing nodes converting) w (delivered, sound) =
        turned snapshot nodes converting w.store delivered sound
    take_turn-Underway snapshot (replacing nodes (beginning columns)) w (delivered, sound) =
        turned snapshot nodes (beginning columns) w.store delivered sound
    take_turn-Underway snapshot (replacing nodes (deleting columns tx)) w (delivered, sound) =
        turned snapshot nodes (deleting columns tx) w.store delivered sound
    take_turn-Underway snapshot (replacing nodes (inserting columns tx)) w (delivered, sound) =
        turned snapshot nodes (inserting columns tx) w.store delivered sound
    take_turn-Underway snapshot (replacing nodes (committing tx)) w (delivered, sound) =
        turned snapshot nodes (committing tx) w.store delivered sound
    take_turn-Underway snapshot (replacing nodes (answering (ok _))) w (delivered, held) = inl held
    take_turn-Underway snapshot (replacing nodes (answering (err e))) w (delivered, held) = inl held
    take_turn-Underway snapshot (replacing nodes (finished _)) w (_, ended) = absurd ended
