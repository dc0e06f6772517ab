-- ===== src/EndToEnd/Task.antt =====
-- src/importer.rs and src/storage/postgres.rs: the importer's task from one await to the next.
use bipa_coding_challenge.Common.{List, [], ◌∷◌, Result, ok, err, Call, returned, panicked}
use bipa_coding_challenge.Domain.{Node}
use bipa_coding_challenge.Domain.Time.{Chrono}
use bipa_coding_challenge.Source.{SourceError}
use bipa_coding_challenge.Source.Dto.{SerdeJson}
use bipa_coding_challenge.Source.Mempool.{Reqwest, MempoolClient}
use bipa_coding_challenge.Storage.Postgres.{Postgres}
use bipa_coding_challenge.Storage.Postgres.Interleaving.{
  Phase, converting, beginning, deleting, inserting, committing, answering, finished, advance,
}
use bipa_coding_challenge.EndToEnd.{node_source, Outside}

module _ (c : Chrono) (s : SerdeJson) (r : Reqwest) (p : Postgres c.Instant)
    (client : MempoolClient r) where
  -- Where the importer's task stands: it waits for a tick, or replaces the snapshot by some nodes.
  pub data Importing : Type 0 where
    idle : Importing
    replacing : List (Node c.Instant) → Phase p → Importing

  pub record System : Type 0 where
    pub importing : Importing
    pub outside : Outside c s r p client

  -- After the fetch.
  abbrev pub after_fetch : Call (Result (List (Node c.Instant)) SourceError) → Importing
  after_fetch (returned (ok [])) = idle
  after_fetch (returned (ok (node ∷ nodes))) = replacing (node ∷ nodes) converting
  after_fetch (returned (err e)) = idle
  after_fetch (panicked m) = idle

  -- After an await of the replacement.
  abbrev pub resumed : List (Node c.Instant) → Phase p → Importing
  resumed nodes (finished result) = idle
  resumed nodes converting = replacing nodes converting
  resumed nodes (beginning columns) = replacing nodes (beginning columns)
  resumed nodes (deleting columns tx) = replacing nodes (deleting columns tx)
  resumed nodes (inserting columns tx) = replacing nodes (inserting columns tx)
  resumed nodes (committing tx) = replacing nodes (committing tx)
  resumed nodes (answering result) = replacing nodes (answering result)

  -- The importer's task up to its next await.
  unfoldable pub take_turn : Importing → Outside c s r p client → System
  unfolding advance
  take_turn idle w =
      let fetched = (node_source c s r p client).fetch_nodes w.upstream in
      record { importing = after_fetch fetched.0; outside = record w { upstream = fetched.1 } }
  take_turn (replacing nodes phase) w =
      let moved = advance p nodes phase w.store in
      record { importing = resumed nodes moved.0; outside = record w { store = moved.1 } }
