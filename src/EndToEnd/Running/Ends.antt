-- ===== src/EndToEnd/Running/Ends.antt =====
-- What is left to do once the token is cancelled.
use bipa_coding_challenge.Common.{
  ℕ, suc, ◌+◌, ◌≤◌, ◌≡◌, refl, sym, subst, ◌⊎◌, inl, inr, true, List, [], ◌∷◌, length, Result, ok,
  err, Call-cases, arith,
}
use bipa_coding_challenge.Domain.{Node}
use bipa_coding_challenge.Domain.Time.{Chrono}
use bipa_coding_challenge.Source.Dto.{SerdeJson}
use bipa_coding_challenge.Source.Mempool.{Reqwest, MempoolClient}
use bipa_coding_challenge.Storage.{StorageError}
use bipa_coding_challenge.Storage.Postgres.{Postgres, collect_columns, run, or_rollback}
use bipa_coding_challenge.Storage.Postgres.Interleaving.{
  Phase, converting, beginning, deleting, inserting, committing, answering, finished, proceed,
  advance,
}
use bipa_coding_challenge.Http.Router.{Axum, TowerHttp}
use bipa_coding_challenge.EndToEnd.{node_source, Outside}
use bipa_coding_challenge.EndToEnd.Task.{Importing, idle, replacing, resumed, take_turn}
use bipa_coding_challenge.EndToEnd.Running.{
  Stage, serving, joining, closing, returned_with, Label, import_turn, quiet, signalled,
  server_ended, request_label, Task, waiting, ended, running, back_to_loop, State, at, Step, tick,
  turn, stop, signal, serve_request, drained, server_failed, joined, closed, Steps, here, go,
}

-- A step that a task makes of itself, and no request or signal.
abbrev pub work : Label → ℕ
work import_turn = 1
work quiet = 1
work (server_ended _) = 1
work signalled = 0
work (request_label _ _ _) = 0

abbrev pub works : List Label → ℕ
works [] = 0
works (label ∷ labels) = work label + works labels

suc_le : {m n : ℕ} → m ≤ n → suc m ≤ suc n
suc_le h = omega arith

abbrev stage_left : Stage → ℕ
stage_left serving = 3
stage_left (joining _) = 2
stage_left (closing _) = 1
stage_left (returned_with _) = 0

abbrev pub IsReturned : Stage → Type 0
IsReturned serving = ⊥
IsReturned (joining _) = ⊥
IsReturned (closing _) = ⊥
IsReturned (returned_with _) = Unit

module _ (c : Chrono) (s : SerdeJson) (r : Reqwest) (p : Postgres c.Instant)
    (client : MempoolClient r) where
  abbrev phase_left : Phase p → ℕ
  phase_left converting = 7
  phase_left (beginning _) = 6
  phase_left (deleting _ _) = 5
  phase_left (inserting _ _) = 4
  phase_left (committing _) = 3
  phase_left (answering _) = 2
  phase_left (finished _) = 2

  abbrev importing_left : Importing c s r p client → ℕ
  importing_left idle = 8
  importing_left (replacing nodes phase) = phase_left phase

  abbrev task_left : Task c s r p client → ℕ
  task_left ended = 0
  task_left waiting = 1
  task_left (running importing) = importing_left importing

  abbrev left : State c s r p client → ℕ
  left t = task_left t.task + stage_left t.stage

  -- What is left after an await of the replacement.
  abbrev rest : List (Node c.Instant) → Phase p → ℕ
  rest nodes phase = task_left (back_to_loop c s r p client (resumed c s r p client nodes phase))

  proceed-rest :
      (nodes : List (Node c.Instant)) {A : Type 0} (n : ℕ) (x : Result A StorageError × p.Db)
      (next : A → Phase p)
      → ((a : A) → rest nodes (next a) ≤ suc n)
      → rest nodes (proceed p nodes x next).0 ≤ suc n
  proceed-rest nodes n (ok a, db) next fits = fits a
  proceed-rest nodes n (err e, db) next fits = omega arith

  advance-rest :
      (nodes : List (Node c.Instant)) (phase : Phase p) (db : p.Db)
      → suc (rest nodes (advance p nodes phase db).0) ≤ phase_left phase
  unfolding advance
  advance-rest nodes converting db =
      suc_le (proceed-rest nodes 5 (collect_columns nodes, db) beginning λ _. omega arith)
  advance-rest nodes (beginning columns) db =
      suc_le (proceed-rest nodes 4 (run p p.begin db) (deleting columns) λ _. omega arith)
  advance-rest nodes (deleting columns tx) db = suc_le (
      proceed-rest nodes 3 (or_rollback p tx (run p (p.delete_nodes tx) db)) (inserting columns)
        λ _. omega arith)
  advance-rest nodes (inserting columns tx) db = suc_le (
      proceed-rest nodes 2 (or_rollback p tx (run p (p.insert_nodes columns tx) db)) committing
        λ _. omega arith)
  advance-rest nodes (committing tx) db = omega arith
  advance-rest nodes (answering result) db =
      suc_le
        (proceed-rest nodes 0 (result, db) (λ _. finished (ok (length nodes))) λ _. omega arith)
  advance-rest nodes (finished result) db = omega arith

  turn-left :
      (importing : Importing c s r p client) (w : Outside c s r p client)
      → suc
          (task_left (back_to_loop c s r p client (take_turn c s r p client importing w).importing))
        ≤ importing_left importing
  unfolding take_turn
  turn-left idle w = elim (Call-cases ((node_source c s r p client).fetch_nodes w.upstream).0) [
    | inl ([], e) ↦ rw e (omega arith)
    | inl (node ∷ nodes, e) ↦ rw e (omega arith)
    | inr (inl (x, e)) ↦ rw e (omega arith)
    | inr (inr (m, e)) ↦ rw e (omega arith)
  ]
  turn-left (replacing nodes phase) w = advance-rest nodes phase w.store

  task_left-le : (task : Task c s r p client) → task_left task ≤ 8
  task_left-le waiting = omega arith
  task_left-le ended = omega arith
  task_left-le (running idle) = omega arith
  task_left-le (running (replacing nodes phase)) = ground arith

  left-le : (t : State c s r p client) → left t ≤ 11
  left-le t =
      let a = task_left-le t.task in let b : stage_left t.stage ≤ 3 = ground arith in omega arith

  module _ (axum : Axum) (tower : TowerHttp) where
    Step-left :
        (t u : State c s r p client) (label : Label)
        → Step c s r p client axum tower t label u
        → t.cancelled ≡ true
        → (u.cancelled ≡ true) × (work label + left u ≤ left t)
    Step-left t u label tick e = absurd (cc)
    Step-left t u label (turn importing) e =
        let less = turn-left importing t.outside in (e, omega arith)
    Step-left t u label stop e = (e, omega arith)
    Step-left t u label signal e = (refl, omega arith)
    Step-left t u label (serve_request request seconds) e = (e, omega arith)
    Step-left t u label drained e = (refl, omega arith)
    Step-left t u label (server_failed m) e = (refl, omega arith)
    Step-left t u label joined e = (e, omega arith)
    Step-left t u label closed e = (e, omega arith)

    Steps-left :
        (t u : State c s r p client) (labels : List Label)
        → Steps c s r p client axum tower t labels u
        → t.cancelled ≡ true
        → (u.cancelled ≡ true) × (works labels + left u ≤ left t)
    Steps-left t u labels here e = (e, omega arith)
    Steps-left t u (label ∷ labels) (go {u = next} step steps) e =
        let (cancelled, less) = Step-left t next label step e in
        let (still, fewer) = Steps-left next u labels steps cancelled in (still, omega arith)

    -- A task can take a step of itself.
    abbrev pub CanWork : State c s r p client → Type 0
    CanWork t =
        (label : Label) × (u : State c s r p client) × Step c s r p client axum tower t label u
        × (work label ≡ 1)

    IsReturned-or_works :
        (task : Task c s r p client) (stage : Stage) (w : Outside c s r p client)
        → IsReturned stage ⊎ CanWork (at c s r p client task stage true w)
    IsReturned-or_works task serving w = inr (_, _, drained, refl)
    IsReturned-or_works waiting (joining served) w = inr (_, _, stop, refl)
    IsReturned-or_works (running importing) (joining served) w = inr (_, _, turn importing, refl)
    IsReturned-or_works ended (joining served) w = inr (_, _, joined, refl)
    IsReturned-or_works task (closing served) w = inr (_, _, closed, refl)
    IsReturned-or_works task (returned_with result) w = inl tt

    -- From any state of `serve` in which the token is cancelled, an import under way or not: however
    -- the steps of the tasks and further requests follow each other, the tasks take at most eleven steps,
    -- and until `serve` has returned some task can take one.
    pub serve-ends :
        (t u : State c s r p client) (labels : List Label)
        → t.cancelled ≡ true
        → Steps c s r p client axum tower t labels u
        → (works labels ≤ 11) × (IsReturned u.stage ⊎ CanWork u)
    serve-ends t u labels e steps =
        let (cancelled, less) = Steps-left t u labels steps e in
        let most = left-le t in
        (
          omega arith,
          subst (λ b. IsReturned u.stage ⊎ CanWork (at c s r p client u.task u.stage b u.outside))
              (sym cancelled) (IsReturned-or_works u.task u.stage u.outside),
        )
