-- ===== src/EndToEnd/Concurrent.antt =====
-- The importer's task and the requests at the same time: between any two awaits of an import other
-- tasks may answer requests.
use bipa_coding_challenge.Common.{inl, inr, List, [], ◌∷◌, Call}
use bipa_coding_challenge.Domain.{Node}
use bipa_coding_challenge.Domain.Time.{Chrono}
use bipa_coding_challenge.Source.Dto.{SerdeJson}
use bipa_coding_challenge.Source.Mempool.{Reqwest, MempoolClient}
use bipa_coding_challenge.Storage.Postgres.{Postgres, PostgresLaws}
use bipa_coding_challenge.Storage.Postgres.Repository.{Holds, pg_repository-laws}
use bipa_coding_challenge.Http.Response.{HttpResponse}
use bipa_coding_challenge.Http.Router.{Axum, TowerHttp, respond}
use bipa_coding_challenge.Http.Router.Safety.{respond-read_only}
use bipa_coding_challenge.EndToEnd.Task.{idle, System, take_turn}
use bipa_coding_challenge.EndToEnd.Underway.{
  Underway, Underway-Holds, Underway-read_only, take_turn-Underway,
}
use bipa_coding_challenge.EndToEnd.{node_repository, Outside, answer}
use bipa_coding_challenge.EndToEnd.History.{
  Event, import_event, request_event, Explained, over, kept, imported, answered, answer-Fits,
}

module _ (c : Chrono) (s : SerdeJson) (r : Reqwest) (p : Postgres c.Instant)
    (client : MempoolClient r) where
  module _ (axum : Axum) (tower : TowerHttp) where
    -- The responses to the requests, where an `import_event` is a turn of the importer's task.
    unfoldable pub concurrent_responses :
        List Event → System c s r p client → List (Call HttpResponse)
    unfolding take_turn
    concurrent_responses [] now = []
    concurrent_responses (import_event ∷ events) now =
        concurrent_responses events (take_turn c s r p client now.importing now.outside)
    concurrent_responses (request_event request seconds ∷ events) now =
        answer c s r p client axum tower request seconds now.outside
        ∷ concurrent_responses events (record {
          importing = now.importing;
          outside = record now.outside {
            store =
                (respond axum tower c (node_repository c s r p client) request seconds
                  now.outside.store).1;
          };
        })

    module _ (eq : Discrete c.Instant) (laws : PostgresLaws p) where
      Underway-Explained :
          (events : List Event) (now : System c s r p client) (snapshot : List (Node c.Instant))
          → Underway c s r p client eq laws snapshot now.importing now.outside.store
          → Explained c s r p client snapshot events (concurrent_responses events now)
      unfolding concurrent_responses
      Underway-Explained [] now snapshot h = over
      Underway-Explained (import_event ∷ events) now snapshot h =
          elim (take_turn-Underway c s r p client eq laws snapshot now.importing now.outside h) [
            | inl same ↦ kept (Underway-Explained events _ snapshot same)
            | inr (nodes, delivered, new) ↦
                imported nodes delivered (Underway-Explained events _ nodes new)
          ]
      Underway-Explained (request_event request seconds ∷ events) now snapshot h =
          let contract = pg_repository-laws eq p laws in
          let store = now.outside.store in
          let held = Underway-Holds c s r p client eq laws snapshot now.importing store h in
          answered request seconds _
            (answer-Fits c s r p client axum tower eq laws request seconds now.outside snapshot
              held)
            (Underway-Explained events _ snapshot (
              Underway-read_only c s r p client eq laws snapshot now.importing store _
                (respond-read_only axum tower c (node_repository c s r p client) (Holds eq p laws)
                  contract request seconds store snapshot held)
                h))

      -- However requests come between the awaits of imports, from a table that holds a snapshot and no
      -- import under way: the responses are explained by a register that holds one snapshot. Every
      -- request is answered, and `GET /nodes` within the time limit by exactly the register's snapshot
      -- or the generic 500. A turn of the importer keeps the snapshot, or replaces it as a whole by the
      -- acceptable records, at least one, of an array that the network delivered; no request sees a part
      -- of an import.
      pub concurrent_responses-Explained :
          (events : List Event) (w : Outside c s r p client) (snapshot : List (Node c.Instant))
          → Holds eq p laws w.store snapshot
          → Explained c s r p client snapshot events
              (concurrent_responses events (record { importing = idle; outside = w }))
      concurrent_responses-Explained events w snapshot held =
          Underway-Explained events (record { importing = idle; outside = w }) snapshot held
