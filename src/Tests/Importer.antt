-- ===== src/Tests/Importer.antt =====
-- The loop over a scripted source and the database in memory.
use mathlib.Core.List.Perm
use bipa_coding_challenge.Common.{
  ◌≡◌, ◌≢◌, ◌↔◌, refl, true, false, List, [], ◌∷◌, ◌++◌, Text, codes, ok, err, returned, panicked,
}
use bipa_coding_challenge.Common.Int.{ℤ}
use bipa_coding_challenge.Domain.{Node}
use bipa_coding_challenge.Source.{SourceError, status}
use bipa_coding_challenge.Storage.Postgres.{replace_all, collect_columns, unnest}
use bipa_coding_challenge.Storage.Postgres.Encode.{rows_from}
use bipa_coding_challenge.Importer.{
  source, empty_source, panicked_with, Wake, World, run_once, run_loop, run,
}
use bipa_coding_challenge.Importer.RunOnce.{run_once-errors}
use bipa_coding_challenge.Importer.Loop.{
  any_cancelled, run-ended, HoldsGood, run-never_empty, run-recovers,
}
use bipa_coding_challenge.Tests.Outside.{Answer, scripted_source}
use bipa_coding_challenge.Tests.Nodes.{
  river, ranking, empty_db, river_db, memory_repository, memory_repository-laws, Stores,
}

abbrev tick : Wake
tick = record { cancelled = false; ticked = true; elapsed = 3 }

abbrev shutdown : Wake
shutdown = record { cancelled = true; ticked = true; elapsed = 0 }

-- A panic, an answer of 500, an answer with no nodes and one with two.
abbrev script : List Answer
script =
    panicked (codes "boom")
    ∷ returned (err (status 500))
    ∷ returned (ok [])
    ∷ returned (ok ranking)
    ∷ []

abbrev stormy : World scripted_source memory_repository
stormy = record { upstream = script; store = river_db }

abbrev fair : World scripted_source memory_repository
fair = record { upstream = returned (ok ranking) ∷ []; store = empty_db }

abbrev dry : World scripted_source memory_repository
dry = record { upstream = returned (ok []) ∷ []; store = river_db }

run-never_empty_example :
    HoldsGood scripted_source memory_repository Stores memory_repository-laws
      (λ held. held ≢ [])
      (run scripted_source memory_repository 60 (tick ∷ tick ∷ tick ∷ tick ∷ []) stormy).world
run-never_empty_example =
    run-never_empty scripted_source memory_repository Stores memory_repository-laws 60
      (tick ∷ tick ∷ tick ∷ tick ∷ []) stormy (river ∷ []) (Perm.refl (rows_from 0 (river ∷ [])))
      (λ e. cc)

-- Three imports that fail, and one that succeeds.
run-recovers_example :
    (nodes : List (Node ℤ)) × ((scripted_source.fetch_nodes
        (run_loop scripted_source memory_repository
          (tick ∷ tick ∷ tick ∷ [])
          stormy).world.upstream).0
      ≡ returned (ok nodes))
    × Stores
        (run scripted_source memory_repository 60
          ((tick ∷ tick ∷ tick ∷ []) ++ tick ∷ [])
          stormy).world.store
        nodes
unfolding run_loop run_once replace_all collect_columns unnest
run-recovers_example =
    run-recovers scripted_source memory_repository Stores memory_repository-laws 60
      (tick ∷ tick ∷ tick ∷ []) tick stormy (record { imported = 2 }) refl refl refl refl

run-ended_example :
    (run scripted_source memory_repository 60 (tick ∷ shutdown ∷ tick ∷ []) stormy).ended
    ≡ any_cancelled (tick ∷ shutdown ∷ tick ∷ [])
run-ended_example =
    run-ended scripted_source memory_repository 60 (tick ∷ shutdown ∷ tick ∷ []) stormy

run_once-errors_example :
    ((e : SourceError)
      → ((run_once scripted_source memory_repository dry).0 ≡ returned (err (source e)))
        ↔ ((scripted_source.fetch_nodes dry.upstream).0 ≡ returned (err e)))
    × (((run_once scripted_source memory_repository dry).0 ≡ returned (err empty_source))
        ↔ ((scripted_source.fetch_nodes dry.upstream).0 ≡ returned (ok [])))
    × ((m : Text)
        → (run_once scripted_source memory_repository dry).0 ≢ returned (err (panicked_with m)))
run_once-errors_example = run_once-errors scripted_source memory_repository dry
