-- ===== src/EndToEnd/Running/Complete.antt =====
-- The end of `serve`, from the moment at which the pool is closed.
use bipa_coding_challenge.Common.{
  ◌≡◌, refl, sym, ap, subst, ◌∙◌, ◌⊎◌, inl, inr, true, Text, List, [], ◌∷◌, ◌++◌, Result, map_err,
}
use bipa_coding_challenge.Domain.{Node}
use bipa_coding_challenge.Domain.Time.{Chrono}
use bipa_coding_challenge.Source.Dto.{SerdeJson}
use bipa_coding_challenge.Source.Mempool.{Reqwest, MempoolClient}
use bipa_coding_challenge.Storage.Postgres.{Postgres, PostgresLaws}
use bipa_coding_challenge.Storage.Postgres.Repository.{Holds}
use bipa_coding_challenge.App.Service.{serve_failed}
use bipa_coding_challenge.Http.Router.{Axum, TowerHttp}
use bipa_coding_challenge.EndToEnd.{Outside}
use bipa_coding_challenge.EndToEnd.History.{IsDelivered}
use bipa_coding_challenge.EndToEnd.Running.{
  Stage, serving, joining, closing, returned_with, Label, server_ended, ended, State, spawned, Step,
  tick, turn, stop, signal, serve_request, drained, server_failed, joined, closed, Steps, here, go,
}
use bipa_coding_challenge.EndToEnd.Running.Ordered.{Steps-Ordered}
use bipa_coding_challenge.EndToEnd.Running.Held.{Held, Held-Holds, Step-Held}

-- How the steps that lead to `pool.close()` began, seen from the stage they start in.
abbrev pub ServedBy : Result (Unit {0}) Text → List Label → Stage → Type 0
ServedBy served labels serving =
    (before later : List Label) × (labels ≡ before ++ server_ended served ∷ later)
ServedBy served labels (joining kept) = kept ≡ served
ServedBy served labels (closing kept) = kept ≡ served
ServedBy served labels (returned_with _) = ⊥

module _ (c : Chrono) (s : SerdeJson) (r : Reqwest) (p : Postgres c.Instant)
    (client : MempoolClient r) where
  module _ (axum : Axum) (tower : TowerHttp) where
    later_ServedBy :
        (served : Result (Unit {0}) Text) (label : Label) (labels : List Label) (stage : Stage)
        → ServedBy served labels stage
        → ServedBy served (label ∷ labels) stage
    later_ServedBy served label labels serving (before, later, e) =
        (label ∷ before, later, ap (λ l. label ∷ l) e)
    later_ServedBy served label labels (joining kept) e = e
    later_ServedBy served label labels (closing kept) e = e
    later_ServedBy served label labels (returned_with _) h = h

    Step-ServedBy :
        (served : Result (Unit {0}) Text) (labels : List Label) (t u : State c s r p client)
        (label : Label)
        → Step c s r p client axum tower t label u
        → ServedBy served labels u.stage
        → ServedBy served (label ∷ labels) t.stage
    Step-ServedBy served labels t u label (tick {stage = stage}) h =
        later_ServedBy served label labels stage h
    Step-ServedBy served labels t u label (turn {stage = stage} _) h =
        later_ServedBy served label labels stage h
    Step-ServedBy served labels t u label (stop {stage = stage}) h =
        later_ServedBy served label labels stage h
    Step-ServedBy served labels t u label (signal {stage = stage}) h =
        later_ServedBy served label labels stage h
    Step-ServedBy served labels t u label (serve_request _ _) h =
        later_ServedBy served label labels serving h
    Step-ServedBy served labels t u label drained e =
        ([], labels, ap (λ x. server_ended x ∷ labels) e)
    Step-ServedBy served labels t u label (server_failed m) e =
        ([], labels, ap (λ x. server_ended x ∷ labels) e)
    Step-ServedBy served labels t u label joined h = h
    Step-ServedBy served labels t u label closed h = absurd h

    Steps-ServedBy :
        (served : Result (Unit {0}) Text) (t u : State c s r p client) (labels : List Label)
        → Steps c s r p client axum tower t labels u
        → u.stage ≡ closing served
        → ServedBy served labels t.stage
    Steps-ServedBy served t u labels here e = rw e refl
    Steps-ServedBy served t u (label ∷ labels) (go {u = next} step steps) e =
        Step-ServedBy served labels t next label step (Steps-ServedBy served next u labels steps e)

    -- `pool.close()` is awaited, or `serve` has returned the server's result.
    abbrev pub Closes : Result (Unit {0}) Text → State c s r p client → Type 0
    Closes served t =
        (t.task ≡ ended)
        × ((t.stage ≡ closing served) ⊎ (t.stage ≡ returned_with (map_err serve_failed served)))

    Step-Closes :
        (served : Result (Unit {0}) Text) (t u : State c s r p client) (label : Label)
        → Step c s r p client axum tower t label u
        → Closes served t
        → Closes served u × (u.outside ≡ t.outside)
    Step-Closes served t u label tick (e, _) = absurd (cc)
    Step-Closes served t u label (turn _) (e, _) = absurd (cc)
    Step-Closes served t u label stop (e, _) = absurd (cc)
    Step-Closes served t u label signal h = (h, refl)
    Step-Closes served t u label (serve_request _ _) (_, inl e) = absurd (cc)
    Step-Closes served t u label (serve_request _ _) (_, inr e) = absurd (cc)
    Step-Closes served t u label drained (_, inl e) = absurd (cc)
    Step-Closes served t u label drained (_, inr e) = absurd (cc)
    Step-Closes served t u label (server_failed _) (_, inl e) = absurd (cc)
    Step-Closes served t u label (server_failed _) (_, inr e) = absurd (cc)
    Step-Closes served t u label joined (_, inl e) = absurd (cc)
    Step-Closes served t u label joined (_, inr e) = absurd (cc)
    Step-Closes served t u label closed (over, inl e) = ((over, inr (cc)), refl)
    Step-Closes served t u label closed (over, inr e) = absurd (cc)

    Steps-Closes :
        (served : Result (Unit {0}) Text) (t u : State c s r p client) (labels : List Label)
        → Steps c s r p client axum tower t labels u
        → Closes served t
        → Closes served u × (u.outside ≡ t.outside)
    Steps-Closes served t u labels here h = (h, refl)
    Steps-Closes served t u (label ∷ labels) (go {u = next} step steps) h =
        let (closes, same) = Step-Closes served t next label step h in
        let (still, kept) = Steps-Closes served next u labels steps closes in (still, kept ∙ same)

    module _ (eq : Discrete c.Instant) (laws : PostgresLaws p) where
      -- The first snapshot, or one that was delivered.
      abbrev pub IsWhole : List (Node c.Instant) → List (Node c.Instant) → Type 0
      IsWhole initial snapshot = (snapshot ≡ initial) ⊎ IsDelivered c s r p client snapshot

      abbrev pub HeldWhole : List (Node c.Instant) → State c s r p client → Type 0
      HeldWhole initial t =
          (snapshot : List (Node c.Instant)) × IsWhole initial snapshot
          × Held c s r p client eq laws snapshot t

      pub Steps-HeldWhole :
          (initial : List (Node c.Instant)) (t u : State c s r p client) (labels : List Label)
          → Steps c s r p client axum tower t labels u
          → HeldWhole initial t
          → HeldWhole initial u
      Steps-HeldWhole initial t u labels here h = h
      Steps-HeldWhole initial t u (label ∷ labels) (go {u = next} step steps)
            (snapshot, whole, held) =
          Steps-HeldWhole initial next u labels steps
            (elim (Step-Held c s r p client eq laws axum tower snapshot t next label step held) [
              | inl same ↦ (snapshot, whole, same)
              | inr (_, nodes, delivered, new) ↦ (nodes, inr delivered, new)
            ])

      -- From the spawn of the importer on a table that holds a snapshot, however the steps follow each
      -- other, when `pool.close()` is awaited: the token is cancelled, the importer has ended and the
      -- server has stopped, with the result that is kept. From there to any later moment the network and
      -- the database stay as they are, `serve` returns nothing but that result, and the table holds the
      -- first snapshot or, whole, one that the network delivered.
      pub serve-Closes :
          (initial : List (Node c.Instant)) (w : Outside c s r p client)
          (served : Result (Unit {0}) Text) (t u : State c s r p client) (labels later : List Label)
          → Holds eq p laws w.store initial
          → Steps c s r p client axum tower (spawned c s r p client w) labels t
          → t.stage ≡ closing served
          → Steps c s r p client axum tower t later u
          → (t.cancelled ≡ true)
            × ServedBy served labels serving
            × Closes served u
            × (u.outside ≡ t.outside)
            × ((snapshot : List (Node c.Instant)) × IsWhole initial snapshot
                × Holds eq p laws u.outside.store snapshot)
      serve-Closes initial w served t u labels later held steps e more =
          let start = spawned c s r p client w in
          let (_, ordered) =
            Steps-Ordered c s r p client axum tower start t labels steps (tt, tt) in
          let (cancelled, over) : (t.cancelled ≡ true) × (t.task ≡ ended) = rw e at ordered in
          let (closes, same) = Steps-Closes served t u later more (over, inl e) in
          let (snapshot, whole, kept) =
            Steps-HeldWhole initial start t labels steps (initial, inl refl, held) in
          (
            cancelled,
            Steps-ServedBy served start t labels steps e,
            closes,
            same,
            (
              snapshot,
              whole,
              subst (λ o. Holds eq p laws o.store snapshot) (sym same)
                  (Held-Holds c s r p client eq laws snapshot t kept),
            ),
          )
