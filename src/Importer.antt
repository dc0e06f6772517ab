-- ===== src/Importer.antt =====
-- src/importer.rs: one import, and the loop that repeats it until shutdown. The source and the
-- repository are the interfaces of `Source` and `Storage`; tokio's timer, tasks and cancellation token
-- appear as what the loop sees of them, one `Wake` for each time it is woken.
pub mod RunOnce
pub mod Loop
pub mod Timing
pub mod Pace
use bipa_coding_challenge.Common.{
  ℕ, Bool, true, false, Text, List, [], ◌∷◌, is_empty, if◌then◌else◌, Result, ok, err, Call,
  returned, panicked,
}
use bipa_coding_challenge.Domain.{Node}
use bipa_coding_challenge.Source.{SourceError, NodeSource}
use bipa_coding_challenge.Storage.{StorageError, NodeRepository}

pub record ImportOutcome : Type 0 where
  pub imported : ℕ

pub data ImportError : Type 0 where
  source : SourceError → ImportError
  storage : StorageError → ImportError
  empty_source : ImportError
  panicked_with : Text → ImportError

pub data Level : Type 0 where
  info warn error : Level

-- A line of the log, with what its fields hold; times are in the log as the source passes them.
pub data LogLine : Type 0 where
  started : ℕ → LogLine
  succeeded : ℕ → ℕ → LogLine
  failed : Level → ImportError → ℕ → LogLine
  stopped : LogLine

-- `log_result`
unfoldable pub log_result : Result ImportOutcome ImportError → ℕ → LogLine
log_result (ok outcome) elapsed = succeeded outcome.imported elapsed
log_result (err (source e)) elapsed = failed warn (source e) elapsed
log_result (err empty_source) elapsed = failed warn empty_source elapsed
log_result (err (storage e)) elapsed = failed error (storage e) elapsed
log_result (err (panicked_with m)) elapsed = failed error (panicked_with m) elapsed

-- What one wake of the loop finds: whether the token is cancelled, whether a tick is due, and how
-- long the import takes if one runs.
pub record Wake : Type 0 where
  pub cancelled : Bool
  pub ticked : Bool
  pub elapsed : ℕ

module _ {Instant : Type 0} (s : NodeSource Instant) (r : NodeRepository Instant) where
  -- What lies behind the two `Arc`s.
  pub record World : Type 0 where
    pub upstream : s.State
    pub store : r.State

  abbrev pub stored :
      Call (Result ℕ StorageError) × r.State
      → s.State
      → Call (Result ImportOutcome ImportError) × World
  stored (returned (ok n), store) upstream =
      (returned (ok (record { imported = n })), record { upstream = upstream; store = store })
  stored (returned (err e), store) upstream =
      (returned (err (storage e)), record { upstream = upstream; store = store })
  stored (panicked m, store) upstream = (panicked m, record { upstream = upstream; store = store })

  -- `run_once` after the fetch
  abbrev pub import_fetched :
      Call (Result (List (Node Instant)) SourceError)
      → World
      → Call (Result ImportOutcome ImportError) × World
  import_fetched (panicked m) w = (panicked m, w)
  import_fetched (returned (err e)) w = (returned (err (source e)), w)
  import_fetched (returned (ok nodes)) w =
      if is_empty nodes
      then (returned (err empty_source), w)
      else stored (r.replace_all nodes w.store) w.upstream

  unfoldable pub run_once : World → Call (Result ImportOutcome ImportError) × World
  run_once w =
      let fetched = s.fetch_nodes w.upstream in
      import_fetched fetched.0 (record w { upstream = fetched.1 })

  -- `tokio::spawn(…).await`: a panic of the task is an error to the loop. Its message stands for the
  -- text of the join error, which is tokio's.
  unfoldable pub joined : Call (Result ImportOutcome ImportError) → Result ImportOutcome ImportError
  joined (returned result) = result
  joined (panicked m) = err (panicked_with m)

  -- Where the loop stands after some wakes: whether it has ended, what it logged, and the world.
  pub record Looped : Type 0 where
    pub ended : Bool
    pub log : List LogLine
    pub world : World

  abbrev pub logged : LogLine → Looped → Looped
  logged line l = record l { log = line ∷ l.log }

  -- The loop, over the wakes that are still to come. The `select!` is biased: the token is looked at
  -- before the tick, and with neither ready the loop goes on waiting.
  unfoldable pub run_loop : List Wake → World → Looped
  unfolding run_once joined
  run_loop [] w = record { ended = false; log = []; world = w }
  run_loop (wake ∷ wakes) w =
      let waits = run_loop wakes w in
      let imports =
        logged (log_result (joined (run_once w).0) wake.elapsed) (run_loop wakes (run_once w).1) in
      if wake.cancelled
      then (record { ended = true; log = stopped ∷ []; world = w })
      else if wake.ticked
      then imports
      else waits

  -- `run`
  unfoldable pub run : ℕ → List Wake → World → Looped
  unfolding run_loop
  run interval wakes w = logged (started interval) (run_loop wakes w)
