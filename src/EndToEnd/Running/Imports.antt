-- ===== src/EndToEnd/Running/Imports.antt =====
-- An import of the running service that no other task interrupts.
use bipa_coding_challenge.Common.{
  ℕ, zero, suc, ◌≡◌, refl, sym, ap, subst, ◌∙◌, ◌⊎◌, inl, inr, Bool, false, List, [], ◌∷◌, ◌++◌,
  All, Result, ok, err, Call, returned, panicked,
}
use bipa_coding_challenge.Domain.{Node}
use bipa_coding_challenge.Domain.Time.{Chrono}
use bipa_coding_challenge.Source.{SourceError}
use bipa_coding_challenge.Source.Dto.{SerdeJson}
use bipa_coding_challenge.Source.Mempool.{Reqwest, MempoolClient}
use bipa_coding_challenge.Storage.{StorageError}
use bipa_coding_challenge.Storage.Postgres.{Postgres, replace_all}
use bipa_coding_challenge.Storage.Postgres.Interleaving.{
  Phase, converting, beginning, deleting, inserting, committing, answering, finished, advance_by,
  advance_by-finished, advance_by-replace_all,
}
use bipa_coding_challenge.Importer.{stored, import_fetched, run_once}
use bipa_coding_challenge.Http.Router.{Axum, TowerHttp}
use bipa_coding_challenge.EndToEnd.{node_source, node_repository, Outside, import_once}
use bipa_coding_challenge.EndToEnd.Task.{idle, replacing, after_fetch, resumed, take_turn}
use bipa_coding_challenge.EndToEnd.Running.{
  Stage, Label, import_turn, quiet, Task, waiting, running, back_to_loop, State, at, Step, tick,
  turn, Steps, here, go,
}

-- A step of the importer.
abbrev pub IsOwn : Label → Type 0
IsOwn label = (label ≡ quiet) ⊎ (label ≡ import_turn)

module _ (c : Chrono) (s : SerdeJson) (r : Reqwest) (p : Postgres c.Instant)
    (client : MempoolClient r) where
  stored-world :
      (done : Result ℕ StorageError × p.Db) (network : r.Network)
      → (stored
          (node_source c s r p client)
          (node_repository c s r p client)
          (returned done.0, done.1)
          network).1
        ≡ (record { upstream = network; store = done.1 })
  stored-world (ok n, db) network = refl
  stored-world (err e, db) network = refl

  module _ (axum : Axum) (tower : TowerHttp) where
    pub Steps-append :
        (t u v : State c s r p client) (labels more : List Label)
        → Steps c s r p client axum tower t labels u
        → Steps c s r p client axum tower u more v
        → Steps c s r p client axum tower t (labels ++ more) v
    Steps-append t u v labels more here steps = steps
    Steps-append t u v (label ∷ labels) more (go {u = next} step first) steps =
        go step (Steps-append next u v labels more first steps)

    -- The importer takes steps of its own from one state to the other.
    abbrev pub Goes : State c s r p client → State c s r p client → Type 0
    Goes t u = (labels : List Label) × All IsOwn labels × Steps c s r p client axum tower t labels u

    Goes-step :
        (t u v : State c s r p client) (label : Label)
        → IsOwn label
        → Step c s r p client axum tower t label u
        → Goes u v
        → Goes t v
    Goes-step t u v label own step (labels, all, steps) =
        (label ∷ labels, (own, all), go step steps)

    module _ (stage : Stage) (cancelled : Bool) where
      -- The task after an await of the replacement.
      abbrev resumes : List (Node c.Instant) → Phase p → Task c s r p client
      resumes nodes phase = back_to_loop c s r p client (resumed c s r p client nodes phase)

      abbrev Ends : Task c s r p client → Outside c s r p client → p.Db → Type 0
      Ends task w db =
          Goes (at c s r p client task stage cancelled w)
            (at c s r p client waiting stage cancelled (record w { store = db }))

      a_turn :
          (nodes : List (Node c.Instant)) (phase : Phase p) (w : Outside c s r p client) (db : p.Db)
          → Ends
              (back_to_loop c s r p client
                (take_turn c s r p client (replacing nodes phase) w).importing)
              (take_turn c s r p client (replacing nodes phase) w).outside
              db
          → Ends (running (replacing nodes phase)) w db
      unfolding take_turn
      a_turn nodes phase w db rest =
          Goes-step _ _ _ import_turn (inr refl) (turn (replacing nodes phase)) rest

      replacement-Ends :
          (n : ℕ) (nodes : List (Node c.Instant)) (phase : Phase p) (w : Outside c s r p client)
          (result : Result ℕ StorageError) (db : p.Db)
          → advance_by p nodes n (phase, w.store) ≡ (finished result, db)
          → Ends (resumes nodes phase) w db
      unfolding advance_by take_turn
      replacement-Ends n nodes (finished x) w result db e =
          subst (λ store. Ends waiting w store)
            (ap (λ t. t.1) (sym (advance_by-finished p nodes n x w.store) ∙ e)) ([], tt, here)
      replacement-Ends zero nodes converting w result db e = absurd (cc)
      replacement-Ends zero nodes (beginning _) w result db e = absurd (cc)
      replacement-Ends zero nodes (deleting _ _) w result db e = absurd (cc)
      replacement-Ends zero nodes (inserting _ _) w result db e = absurd (cc)
      replacement-Ends zero nodes (committing _) w result db e = absurd (cc)
      replacement-Ends zero nodes (answering _) w result db e = absurd (cc)
      replacement-Ends (suc n) nodes converting w result db e =
          a_turn nodes _ w db (replacement-Ends n nodes _ _ result db e)
      replacement-Ends (suc n) nodes (beginning _) w result db e =
          a_turn nodes _ w db (replacement-Ends n nodes _ _ result db e)
      replacement-Ends (suc n) nodes (deleting _ _) w result db e =
          a_turn nodes _ w db (replacement-Ends n nodes _ _ result db e)
      replacement-Ends (suc n) nodes (inserting _ _) w result db e =
          a_turn nodes _ w db (replacement-Ends n nodes _ _ result db e)
      replacement-Ends (suc n) nodes (committing _) w result db e =
          a_turn nodes _ w db (replacement-Ends n nodes _ _ result db e)
      replacement-Ends (suc n) nodes (answering _) w result db e =
          a_turn nodes _ w db (replacement-Ends n nodes _ _ result db e)

      fetched-Goes :
          (fetched : Call (Result (List (Node c.Instant)) SourceError)) (w : Outside c s r p client)
          → Goes
              (at c s r p client
                (back_to_loop c s r p client (after_fetch c s r p client fetched))
                stage
                cancelled
                w)
              (at c s r p client waiting stage cancelled
                (import_fetched
                  (node_source c s r p client)
                  (node_repository c s r p client)
                  fetched
                  w).1)
      fetched-Goes (returned (ok [])) w = ([], tt, here)
      fetched-Goes (returned (ok (node ∷ nodes))) w =
          let done = replace_all p (node ∷ nodes) w.store in
          subst
            (λ o.
              Goes
                (at c s r p client (running (replacing (node ∷ nodes) converting)) stage cancelled
                  w)
                (at c s r p client waiting stage cancelled o))
            (sym (stored-world done w.upstream))
            (replacement-Ends 6 (node ∷ nodes) converting w done.0 done.1
              (advance_by-replace_all p (node ∷ nodes) w.store))
      fetched-Goes (returned (err e)) w = ([], tt, here)
      fetched-Goes (panicked m) w = ([], tt, here)

      fetch-Goes :
          (w : Outside c s r p client)
          → Goes
              (at c s r p client (running idle) stage cancelled w)
              (at c s r p client waiting stage cancelled (import_once c s r p client w).1)
      unfolding take_turn run_once
      fetch-Goes w =
          let fetched = (node_source c s r p client).fetch_nodes w.upstream in
          Goes-step _ _ _ import_turn (inr refl) (turn idle)
            (fetched-Goes fetched.0 (record w { upstream = fetched.1 }))

    -- From any state in which the importer waits and the token is not cancelled, its own steps take it
    -- back to waiting, with the network and the database exactly as one import leaves them.
    pub serve-import_once :
        (stage : Stage) (w : Outside c s r p client)
        → Goes
            (at c s r p client waiting stage false w)
            (at c s r p client waiting stage false (import_once c s r p client w).1)
    serve-import_once stage w = Goes-step _ _ _ quiet (inl refl) tick (fetch-Goes stage false w)
