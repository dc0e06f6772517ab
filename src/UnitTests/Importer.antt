-- ===== src/UnitTests/Importer.antt =====
-- The unit tests of src/importer.rs, over the fakes. With tokio's paused clock an import takes no time,
-- and the clock jumps to the next timer.
use Prim.Native.String.{String}
use bipa_coding_challenge.Common.{
  ℕ, ◌+◌, ◌*◌, ◌/◌, ◌≤◌, ◌≡◌, refl, true, false, leb, if◌then◌else◌, List, [], ◌∷◌, ◌++◌, codes,
  length, replicate, ok, err, returned, arith,
}
use bipa_coding_challenge.Common.Int.{ℤ, pos}
use bipa_coding_challenge.Domain.{Node}
use bipa_coding_challenge.Source.{status}
use bipa_coding_challenge.Storage.{StorageError}
use bipa_coding_challenge.Importer.{
  source, storage, empty_source, Wake, World, Looped, run_once, run_loop, run,
}
use bipa_coding_challenge.Importer.Timing.{TokioTime, starts}
use bipa_coding_challenge.TestSupport.{
  node, nodes_step, fail_step, panic_step, FakeSource, fake_source_new, fake_source, FakeRepository,
  with_nodes, set_failing, fake_replace_all, fake_repository,
}
use bipa_coding_challenge.Tests.Timing.{millis}

-- in milliseconds
abbrev interval : ℕ
interval = 60_000

abbrev tick : Wake
tick = record { cancelled = false; ticked = true; elapsed = 0 }

-- The token is cancelled while the loop waits for a tick, or before the first one.
abbrev cancel : Wake
cancel = record { cancelled = true; ticked = false; elapsed = 0 }

abbrev cancelled_first : Wake
cancelled_first = record { cancelled = true; ticked = true; elapsed = 0 }

abbrev count_until : ℕ → List ℕ → ℕ
count_until limit [] = 0
count_until limit (start ∷ more) =
    let rest = count_until limit more in if leb start limit then rest + 1 else rest

module _ (Instant : Type 0) (unwrapped : ℤ → Instant) where
  abbrev sample : String → String → ℕ → ℤ → Node Instant
  sample key alias = node Instant unwrapped (codes key) (codes alias)

  -- `importer(source, repo)`
  abbrev importer :
      FakeSource Instant
      → FakeRepository Instant
      → World (fake_source Instant) (fake_repository Instant)
  importer upstream store = record { upstream = upstream; store = store }

  abbrev one_node : List (Node Instant)
  one_node = sample "a" "A" 1 (pos 0) ∷ []

  abbrev previous : List (Node Instant)
  previous = sample "old" "Old" 1 (pos 0) ∷ []

  abbrev default_source : FakeSource Instant
  default_source = fake_source_new Instant []

  abbrev default_repository : FakeRepository Instant
  default_repository = with_nodes Instant []

  abbrev RunOnceStoresFetchedNodesInOrder : Type 0
  RunOnceStoresFetchedNodesInOrder =
      let nodes =
        sample "b" "B" 2 (pos 0) ∷ sample "a" "A" 1 (pos 0) ∷ sample "c" "C" 3 (pos 0) ∷ [] in
      let done =
        run_once (fake_source Instant) (fake_repository Instant)
          (importer (fake_source_new Instant (nodes_step nodes ∷ [])) default_repository) in
      (done.0 ≡ returned (ok (record { imported = 3 })))
      × (done.1.store.replace_calls ≡ nodes ∷ [])
      × (done.1.store.nodes ≡ nodes)

  abbrev RunOnceSourceErrorDoesNotTouchStorage : Type 0
  RunOnceSourceErrorDoesNotTouchStorage =
      let done =
        run_once (fake_source Instant) (fake_repository Instant)
          (importer (fake_source_new Instant (fail_step 500 ∷ [])) (with_nodes Instant previous)) in
      (done.0 ≡ returned (err (source (status 500))))
      × (done.1.store.replace_calls ≡ [])
      × (done.1.store.nodes ≡ previous)

  abbrev RunOnceEmptySourceKeepsPreviousSnapshot : Type 0
  RunOnceEmptySourceKeepsPreviousSnapshot =
      let done =
        run_once (fake_source Instant) (fake_repository Instant)
          (importer (fake_source_new Instant (nodes_step [] ∷ [])) (with_nodes Instant previous)) in
      (done.0 ≡ returned (err empty_source))
      × (done.1.store.replace_calls ≡ [])
      × (done.1.store.nodes ≡ previous)

  abbrev RunOnceReportsStorageError : Type 0
  RunOnceReportsStorageError =
      (e : StorageError) × ((run_once (fake_source Instant) (fake_repository Instant) (
          importer (fake_source_new Instant (nodes_step one_node ∷ []))
            (set_failing Instant true default_repository))).0
        ≡ returned (err (storage e)))

  -- `spawn_run(importer)`, as far as it has come after the wakes.
  abbrev spawn_run :
      World (fake_source Instant) (fake_repository Instant)
      → List Wake
      → Looped (fake_source Instant) (fake_repository Instant)
  spawn_run w wakes = run (fake_source Instant) (fake_repository Instant) interval wakes w

  module _ (t : TokioTime) where
    -- The first import starts within half an interval; then the token is cancelled.
    abbrev RunImportsImmediatelyOnStart : Type 0
    RunImportsImmediatelyOnStart =
        let spawned =
          spawn_run
            (importer (fake_source_new Instant (nodes_step one_node ∷ [])) default_repository) in
        (first : ℕ) × (starts t interval 0 (0 ∷ []) ≡ first ∷ [])
        × (first ≤ interval / 2)
        × ((spawned (tick ∷ [])).world.upstream.calls ≡ 1)
        × (length (spawned (tick ∷ [])).world.store.nodes ≡ 1)
        × ((spawned (tick ∷ cancel ∷ [])).ended ≡ true)

    -- The wakes are as many as imports start within three intervals and a second.
    abbrev RunImportsOnEveryTick : Type 0
    RunImportsOnEveryTick =
        let spawned = spawn_run (importer default_source default_repository) in
        let ticks =
          replicate (count_until (interval * 3 + 1_000) (starts t interval 0 (replicate 9 0)))
            tick in
        ((spawned ticks).world.upstream.calls ≡ 4) × ((spawned (ticks ++ cancel ∷ [])).ended ≡ true)

  abbrev RunRecoversAfterFailures : Type 0
  RunRecoversAfterFailures =
      let spawned = spawn_run (
        importer
          (fake_source_new Instant (fail_step 500 ∷ fail_step 503 ∷ nodes_step one_node ∷ []))
          default_repository) in
      ((spawned (tick ∷ tick ∷ tick ∷ [])).world.upstream.calls ≡ 3)
      × ((spawned (tick ∷ tick ∷ tick ∷ [])).world.store.nodes ≡ one_node)
      × ((spawned (tick ∷ tick ∷ tick ∷ cancel ∷ [])).ended ≡ true)

  abbrev RunSurvivesAPanickingIteration : Type 0
  RunSurvivesAPanickingIteration =
      let spawned = spawn_run (
        importer (fake_source_new Instant (panic_step ∷ nodes_step one_node ∷ []))
          default_repository) in
      ((spawned (tick ∷ tick ∷ [])).world.upstream.calls ≡ 2)
      × ((spawned (tick ∷ tick ∷ [])).world.store.nodes ≡ one_node)
      × ((spawned (tick ∷ tick ∷ [])).ended ≡ false)
      × ((spawned (tick ∷ tick ∷ cancel ∷ [])).ended ≡ true)

  abbrev RunStopsPromptlyWhenCancelledWhileWaiting : Type 0
  RunStopsPromptlyWhenCancelledWhileWaiting =
      let stopped = spawn_run (importer default_source default_repository) (tick ∷ cancel ∷ []) in
      (stopped.ended ≡ true) × (stopped.world.upstream.calls ≡ 1)

  abbrev RunDoesNotStartWhenAlreadyCancelled : Type 0
  RunDoesNotStartWhenAlreadyCancelled =
      let stopped = spawn_run (importer default_source default_repository) (cancelled_first ∷ []) in
      (stopped.ended ≡ true) × (stopped.world.upstream.calls ≡ 0)

module _ (Instant : Type 0) (unwrapped : ℤ → Instant) where
  run_once_passes :
      RunOnceStoresFetchedNodesInOrder Instant unwrapped
      × RunOnceSourceErrorDoesNotTouchStorage Instant unwrapped
      × RunOnceEmptySourceKeepsPreviousSnapshot Instant unwrapped
      × RunOnceReportsStorageError Instant unwrapped
  unfolding run_once fake_replace_all
  run_once_passes = ((refl, refl, refl), (refl, refl, refl), (refl, refl, refl), (_, refl))

  run_passes :
      RunImportsImmediatelyOnStart Instant unwrapped millis
      × RunImportsOnEveryTick Instant unwrapped millis
      × RunRecoversAfterFailures Instant unwrapped
      × RunSurvivesAPanickingIteration Instant unwrapped
      × RunStopsPromptlyWhenCancelledWhileWaiting Instant unwrapped
      × RunDoesNotStartWhenAlreadyCancelled Instant unwrapped
  unfolding run run_loop run_once fake_replace_all starts
  run_passes = (
    (0, refl, omega arith, refl, refl, refl),
    (refl, refl),
    (refl, refl, refl),
    (refl, refl, refl, refl),
    (refl, refl),
    (refl, refl),
  )
