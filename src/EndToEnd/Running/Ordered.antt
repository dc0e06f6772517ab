-- ===== src/EndToEnd/Running/Ordered.antt =====
-- The order of the shutdown: the server stops first, then the importer, then the pool.
use bipa_coding_challenge.Common.{◌≡◌, ◌≢◌, refl, Bool, true, false, List, ◌∷◌}
use bipa_coding_challenge.Domain.Time.{Chrono}
use bipa_coding_challenge.Source.Dto.{SerdeJson}
use bipa_coding_challenge.Source.Mempool.{Reqwest, MempoolClient}
use bipa_coding_challenge.Storage.Postgres.{Postgres}
use bipa_coding_challenge.Http.Router.{Axum, TowerHttp}
use bipa_coding_challenge.EndToEnd.Task.{Importing, idle, replacing}
use bipa_coding_challenge.EndToEnd.Running.{
  Stage, serving, joining, closing, returned_with, Label, Task, waiting, ended, running,
  back_to_loop, State, Step, tick, turn, stop, signal, serve_request, drained, server_failed,
  joined, closed, Steps, here, go,
}

module _ (c : Chrono) (s : SerdeJson) (r : Reqwest) (p : Postgres c.Instant)
    (client : MempoolClient r) where
  -- The importer has ended only by the token.
  abbrev TaskOrdered : Task c s r p client → Bool → Type 0
  TaskOrdered waiting cancelled = Unit
  TaskOrdered (running _) cancelled = Unit
  TaskOrdered ended cancelled = cancelled ≡ true

  -- The server stops before the importer is awaited, and the importer before the pool is closed.
  abbrev StageOrdered : Stage → Task c s r p client → Bool → Type 0
  StageOrdered serving task cancelled = Unit
  StageOrdered (joining _) task cancelled = cancelled ≡ true
  StageOrdered (closing _) task cancelled = (cancelled ≡ true) × (task ≡ ended)
  StageOrdered (returned_with _) task cancelled = (cancelled ≡ true) × (task ≡ ended)

  abbrev Ordered : State c s r p client → Type 0
  Ordered t = TaskOrdered t.task t.cancelled × StageOrdered t.stage t.task t.cancelled

  stage_moves :
      (stage : Stage) (task later : Task c s r p client) (cancelled : Bool)
      → task ≢ ended
      → StageOrdered stage task cancelled
      → StageOrdered stage later cancelled
  stage_moves serving task later cancelled goes_on h = tt
  stage_moves (joining _) task later cancelled goes_on h = h
  stage_moves (closing _) task later cancelled goes_on (_, over) = absurd (goes_on over)
  stage_moves (returned_with _) task later cancelled goes_on (_, over) = absurd (goes_on over)

  stage_signalled :
      (stage : Stage) (task : Task c s r p client) (cancelled : Bool)
      → StageOrdered stage task cancelled
      → StageOrdered stage task true
  stage_signalled serving task cancelled h = tt
  stage_signalled (joining _) task cancelled h = refl
  stage_signalled (closing _) task cancelled (_, over) = (refl, over)
  stage_signalled (returned_with _) task cancelled (_, over) = (refl, over)

  task_signalled : (task : Task c s r p client) → TaskOrdered task true
  task_signalled waiting = tt
  task_signalled ended = refl
  task_signalled (running _) = tt

  back_to_loop-TaskOrdered :
      (importing : Importing c s r p client) (cancelled : Bool)
      → TaskOrdered (back_to_loop c s r p client importing) cancelled
  back_to_loop-TaskOrdered idle cancelled = tt
  back_to_loop-TaskOrdered (replacing _ _) cancelled = tt

  module _ (axum : Axum) (tower : TowerHttp) where
    Step-Ordered :
        (t u : State c s r p client) (label : Label)
        → Step c s r p client axum tower t label u
        → Ordered t
        → Ordered u
    Step-Ordered t u label (tick {stage = stage}) (_, h) =
        (tt, stage_moves stage _ _ false (λ e. cc) h)
    Step-Ordered t u label (turn {stage = stage} {cancelled = cancelled} importing) (_, h) =
        (back_to_loop-TaskOrdered _ cancelled, stage_moves stage _ _ cancelled (λ e. cc) h)
    Step-Ordered t u label (stop {stage = stage}) (_, h) =
        (refl, stage_moves stage _ _ true (λ e. cc) h)
    Step-Ordered t u label (signal {task = task} {stage = stage}) (_, h) =
        (task_signalled task, stage_signalled stage task _ h)
    Step-Ordered t u label (serve_request _ _) h = h
    Step-Ordered t u label drained (h, _) = (h, refl)
    Step-Ordered t u label (server_failed {task = task} _) (h, _) = (task_signalled task, refl)
    Step-Ordered t u label joined (h, cancelled) = (h, (cancelled, refl))
    Step-Ordered t u label closed h = h

    pub Steps-Ordered :
        (t u : State c s r p client) (labels : List Label)
        → Steps c s r p client axum tower t labels u
        → Ordered t
        → Ordered u
    Steps-Ordered t u labels here h = h
    Steps-Ordered t u (label ∷ labels) (go {u = next} step steps) h =
        Steps-Ordered next u labels steps (Step-Ordered t next label step h)
