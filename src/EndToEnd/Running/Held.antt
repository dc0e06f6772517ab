-- ===== src/EndToEnd/Running/Held.antt =====
-- What the table holds between two steps of `serve`.
use bipa_coding_challenge.Common.{ℕ, ◌≡◌, refl, ◌⊎◌, inl, inr, List}
use bipa_coding_challenge.Domain.{Node}
use bipa_coding_challenge.Domain.Time.{Chrono}
use bipa_coding_challenge.Source.Dto.{SerdeJson}
use bipa_coding_challenge.Source.Mempool.{Reqwest, MempoolClient}
use bipa_coding_challenge.Storage.Postgres.{Postgres, PostgresLaws}
use bipa_coding_challenge.Storage.Postgres.Repository.{Holds, pg_repository-laws}
use bipa_coding_challenge.Http.Router.{Request, Axum, TowerHttp}
use bipa_coding_challenge.Http.Router.Safety.{respond-read_only}
use bipa_coding_challenge.EndToEnd.{node_repository}
use bipa_coding_challenge.EndToEnd.History.{IsDelivered}
use bipa_coding_challenge.EndToEnd.Task.{Importing, idle, replacing, take_turn}
use bipa_coding_challenge.EndToEnd.Underway.{
  Underway, Underway-Holds, Underway-read_only, take_turn-Underway,
}
use bipa_coding_challenge.EndToEnd.Running.{
  Label, import_turn, Task, waiting, ended, running, back_to_loop, State, after_request, Step, tick,
  turn, stop, signal, serve_request, drained, server_failed, joined, closed,
}

module _ (c : Chrono) (s : SerdeJson) (r : Reqwest) (p : Postgres c.Instant)
    (client : MempoolClient r) where
  -- The import of the task, if one is under way.
  abbrev importing_of : Task c s r p client → Importing c s r p client
  importing_of waiting = idle
  importing_of ended = idle
  importing_of (running importing) = importing

  module _ (eq : Discrete c.Instant) (laws : PostgresLaws p) where
    -- The table holds the snapshot, and what the task is writing was delivered.
    abbrev pub Held : List (Node c.Instant) → State c s r p client → Type 0
    Held snapshot t = Underway c s r p client eq laws snapshot (importing_of t.task) t.outside.store

    pub Held-Holds :
        (snapshot : List (Node c.Instant)) (t : State c s r p client)
        → Held snapshot t
        → Holds eq p laws t.outside.store snapshot
    Held-Holds snapshot t h =
        Underway-Holds c s r p client eq laws snapshot (importing_of t.task) t.outside.store h

    importing_of-back_to_loop :
        (importing : Importing c s r p client)
        → importing_of (back_to_loop c s r p client importing) ≡ importing
    importing_of-back_to_loop idle = refl
    importing_of-back_to_loop (replacing nodes phase) = refl

    module _ (axum : Axum) (tower : TowerHttp) where
      request-Held :
          (snapshot : List (Node c.Instant)) (t : State c s r p client) (request : Request)
          (seconds : ℕ)
          → Held snapshot t
          → Held snapshot (record t {
            outside = after_request c s r p client axum tower request seconds t.outside;
          })
      request-Held snapshot t request seconds h =
          Underway-read_only c s r p client eq laws snapshot (importing_of t.task) t.outside.store _
            (respond-read_only axum tower c (node_repository c s r p client) (Holds eq p laws)
              (pg_repository-laws eq p laws) request seconds t.outside.store snapshot
              (Held-Holds snapshot t h))
            h

      -- Only a turn of the importer puts another snapshot in the table, one that was delivered.
      pub Step-Held :
          (snapshot : List (Node c.Instant)) (t u : State c s r p client) (label : Label)
          → Step c s r p client axum tower t label u
          → Held snapshot t
          → Held snapshot u
            ⊎ ((label ≡ import_turn)
                × (nodes : List (Node c.Instant)) × IsDelivered c s r p client nodes
                × Held nodes u)
      Step-Held snapshot t u label tick h = inl h
      Step-Held snapshot t u label (turn importing) h =
          let next = take_turn c s r p client importing t.outside in
          rw (importing_of-back_to_loop next.importing)
            (elim (take_turn-Underway c s r p client eq laws snapshot importing t.outside h) [
              | inl same ↦ inl same
              | inr (nodes, delivered, new) ↦ inr (refl, nodes, delivered, new)
            ])
      Step-Held snapshot t u label stop h = inl h
      Step-Held snapshot t u label signal h = inl h
      Step-Held snapshot t u label (serve_request request seconds) h =
          inl (request-Held snapshot t request seconds h)
      Step-Held snapshot t u label drained h = inl h
      Step-Held snapshot t u label (server_failed m) h = inl h
      Step-Held snapshot t u label joined h = inl h
      Step-Held snapshot t u label closed h = inl h
