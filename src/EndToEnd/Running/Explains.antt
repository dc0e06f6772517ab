-- ===== src/EndToEnd/Running/Explains.antt =====
-- What the clients of a running service see, and a register that holds one snapshot.
use bipa_coding_challenge.Common.{ℕ, inl, inr, List, [], ◌∷◌, Call}
use bipa_coding_challenge.Domain.{Node}
use bipa_coding_challenge.Domain.Time.{Chrono}
use bipa_coding_challenge.Source.Dto.{SerdeJson}
use bipa_coding_challenge.Source.Mempool.{Reqwest, MempoolClient}
use bipa_coding_challenge.Storage.Postgres.{Postgres, PostgresLaws}
use bipa_coding_challenge.Storage.Postgres.Repository.{Holds}
use bipa_coding_challenge.Http.Response.{HttpResponse}
use bipa_coding_challenge.Http.Router.{Request, Axum, TowerHttp}
use bipa_coding_challenge.EndToEnd.{Outside}
use bipa_coding_challenge.EndToEnd.History.{
  Event, import_event, request_event, Fits, Explained, over, kept, imported, answered, answer-Fits,
}
use bipa_coding_challenge.EndToEnd.Running.{
  Label, import_turn, quiet, signalled, server_ended, request_label, State, spawned, Step,
  serve_request, Steps, here, go,
}
use bipa_coding_challenge.EndToEnd.Running.Held.{Held, Held-Holds, Step-Held}

-- The turns of imports and the requests among the steps.
abbrev pub events_of : List Label → List Event
events_of [] = []
events_of (import_turn ∷ labels) = import_event ∷ events_of labels
events_of (request_label request seconds answer ∷ labels) =
    request_event request seconds ∷ events_of labels
events_of (quiet ∷ labels) = events_of labels
events_of (signalled ∷ labels) = events_of labels
events_of (server_ended _ ∷ labels) = events_of labels

-- The answers the steps show.
abbrev pub answers_of : List Label → List (Call HttpResponse)
answers_of [] = []
answers_of (request_label request seconds answer ∷ labels) = answer ∷ answers_of labels
answers_of (import_turn ∷ labels) = answers_of labels
answers_of (quiet ∷ labels) = answers_of labels
answers_of (signalled ∷ labels) = answers_of labels
answers_of (server_ended _ ∷ labels) = answers_of labels

module _ (c : Chrono) (s : SerdeJson) (r : Reqwest) (p : Postgres c.Instant)
    (client : MempoolClient r) where
  module _ (axum : Axum) (tower : TowerHttp) where
    module _ (eq : Discrete c.Instant) (laws : PostgresLaws p) where
      Step-Fits :
          (snapshot : List (Node c.Instant)) (request : Request) (seconds : ℕ)
          (given : Call HttpResponse) (t u : State c s r p client)
          → Step c s r p client axum tower t (request_label request seconds given) u
          → Held c s r p client eq laws snapshot t
          → Fits c s r p client snapshot request seconds given
      Step-Fits snapshot request seconds given t u (serve_request _ _) h =
          answer-Fits c s r p client axum tower eq laws request seconds t.outside snapshot
            (Held-Holds c s r p client eq laws snapshot t h)

      Steps-Explained :
          (snapshot : List (Node c.Instant)) (t u : State c s r p client) (labels : List Label)
          → Steps c s r p client axum tower t labels u
          → Held c s r p client eq laws snapshot t
          → Explained c s r p client snapshot (events_of labels) (answers_of labels)
      Steps-Explained snapshot t u labels here h = over
      Steps-Explained snapshot t u (import_turn ∷ labels) (go {u = next} step steps) h =
          elim (Step-Held c s r p client eq laws axum tower snapshot t next import_turn step h) [
            | inl same ↦ kept (Steps-Explained snapshot next u labels steps same)
            | inr (_, nodes, delivered, new) ↦
                imported nodes delivered (Steps-Explained nodes next u labels steps new)
          ]
      Steps-Explained snapshot t u (quiet ∷ labels) (go {u = next} step steps) h =
          elim (Step-Held c s r p client eq laws axum tower snapshot t next quiet step h) [
            | inl same ↦ Steps-Explained snapshot next u labels steps same
            | inr (e, _, _, _) ↦ absurd (cc)
          ]
      Steps-Explained snapshot t u (signalled ∷ labels) (go {u = next} step steps) h =
          elim (Step-Held c s r p client eq laws axum tower snapshot t next signalled step h) [
            | inl same ↦ Steps-Explained snapshot next u labels steps same
            | inr (e, _, _, _) ↦ absurd (cc)
          ]
      Steps-Explained snapshot t u (server_ended served ∷ labels) (go {u = next} step steps) h =
          elim (Step-Held c s r p client eq laws axum tower snapshot t next (server_ended served)
            step h) [
              | inl same ↦ Steps-Explained snapshot next u labels steps same
              | inr (e, _, _, _) ↦ absurd (cc)
            ]
      Steps-Explained snapshot t u (request_label request seconds given ∷ labels)
            (go {u = next} step steps) h =
          elim (Step-Held c s r p client eq laws axum tower snapshot t next
            (request_label request seconds given) step h) [
              | inl same ↦
                  answered request seconds given
                    (Step-Fits snapshot request seconds given t next step h)
                    (Steps-Explained snapshot next u labels steps same)
              | inr (e, _, _, _) ↦ absurd (cc)
            ]

      -- From the spawn of the importer on a table that holds a snapshot, however the steps of the
      -- importer, the server and the signal follow each other, to any moment up to the end of `serve`:
      -- the answers are explained by a register that holds one snapshot. Every request is answered, and
      -- `GET /nodes` within the time limit by exactly the register's snapshot or the generic 500. A turn
      -- of an import keeps the snapshot, or replaces it as a whole by the acceptable records, at least
      -- one, of an array that the network delivered; no other step changes it.
      pub serve-Explained :
          (snapshot : List (Node c.Instant)) (w : Outside c s r p client) (u : State c s r p client)
          (labels : List Label)
          → Holds eq p laws w.store snapshot
          → Steps c s r p client axum tower (spawned c s r p client w) labels u
          → Explained c s r p client snapshot (events_of labels) (answers_of labels)
      serve-Explained snapshot w u labels held steps =
          Steps-Explained snapshot (spawned c s r p client w) u labels steps held
