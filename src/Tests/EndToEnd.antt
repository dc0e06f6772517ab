-- ===== src/Tests/EndToEnd.antt =====
-- Imports from a network that has its answers ready into the database in memory, and what is served.
use mathlib.Core.List.Perm
use bipa_coding_challenge.Common.{
  ◌^◌, ◌≤◌, ◌≡◌, ◌≢◌, refl, ◌⊎◌, true, false, List, [], ◌∷◌, length, map, filter_map, All, ok, err,
  returned, arith,
}
use bipa_coding_challenge.Common.Int.{ℤ}
use bipa_coding_challenge.Domain.{Node}
use bipa_coding_challenge.Source.Dto.{try_from}
use bipa_coding_challenge.Source.Dto.Records.{accepted}
use bipa_coding_challenge.Source.Mempool.Fetch.{Delivers}
use bipa_coding_challenge.Storage.{StorageError}
use bipa_coding_challenge.Storage.Postgres.{KeysDistinct, unnest}
use bipa_coding_challenge.Storage.Postgres.Encode.{rows_from, columns_of}
use bipa_coding_challenge.Storage.Postgres.Progress.{Runs}
use bipa_coding_challenge.Storage.Postgres.Repository.{Holds, ℤ-discrete}
use bipa_coding_challenge.Importer.{storage, Wake}
use bipa_coding_challenge.Http.Response.{NodeResponse, internal_error_response, from_node}
use bipa_coding_challenge.EndToEnd.{Outside, import_once, import_loop, answer}
use bipa_coding_challenge.EndToEnd.Import.{import_once-total, import_once-duplicate}
use bipa_coding_challenge.EndToEnd.Served.{
  get_nodes, nodes_response, IsPublic, answer-import_once, answer-IsPublic,
}
use bipa_coding_challenge.EndToEnd.Running.{waiting, serving, at}
use bipa_coding_challenge.EndToEnd.Running.Imports.{Goes}
use bipa_coding_challenge.EndToEnd.Running.Publishes.{serve_publishes}
use bipa_coding_challenge.Tests.Outside.{
  seconds_chrono, bytes_json, bytes_laws, scripted_reqwest, table_axum, plain_tower,
}
use bipa_coding_challenge.Tests.Database.{memory, memory_laws}
use bipa_coding_challenge.Tests.Fetches.{
  client, good, bad, records, delivers, doubled, doubled_records, doubled-Delivers,
}
use bipa_coding_challenge.Tests.Nodes.{river, empty_db, river_db}

abbrev State : Type 0
State = Outside seconds_chrono bytes_json scripted_reqwest memory client

abbrev fresh : State
fresh = record { upstream = ok good ∷ []; store = empty_db }

abbrev twins : State
twins = record { upstream = ok doubled ∷ []; store = river_db }

abbrev unlucky : State
unlucky = record { upstream = ok bad ∷ ok good ∷ []; store = river_db }

abbrev found : List (Node ℤ)
found = filter_map (accepted seconds_chrono bytes_json) records

some_found : found ≢ []
unfolding accepted try_from
some_found e = cc

few_found : length found ≤ 2 ^ 31
unfolding accepted try_from
few_found = omega arith

runs : Runs memory (columns_of (rows_from 0 found)) empty_db
unfolding unnest accepted try_from
runs = record {
  begun = [];
  emptied = [];
  filled = rows_from 0 found;
  begins = refl;
  deletes = refl;
  inserts = refl;
  commits = refl;
}

import_once-total_example :
    (import_once seconds_chrono bytes_json scripted_reqwest memory client fresh).0
    ≡ returned (ok (record { imported = length found }))
import_once-total_example =
    import_once-total seconds_chrono bytes_json scripted_reqwest memory client bytes_laws fresh
      records delivers some_found few_found runs

twice :
    ¬ KeysDistinct (rows_from 0 (filter_map (accepted seconds_chrono bytes_json) doubled_records))
unfolding accepted try_from
twice (distinct, _) = distinct.0 refl

import_once-duplicate_example :
    (e : StorageError) × ((import_once seconds_chrono bytes_json scripted_reqwest memory client
        twins).0
      ≡ returned (err (storage e)))
    × ((import_once seconds_chrono bytes_json scripted_reqwest memory client twins).1.store.0
        ≡ river_db.0)
import_once-duplicate_example =
    import_once-duplicate seconds_chrono bytes_json scripted_reqwest memory client memory_laws twins
      doubled_records doubled-Delivers twice

abbrev imported_now : State
imported_now = (import_once seconds_chrono bytes_json scripted_reqwest memory client fresh).1

answer-import_once_example :
    (received : List bytes_json.Value) × Delivers scripted_reqwest seconds_chrono bytes_json client
      fresh.upstream received
    × ((answer seconds_chrono bytes_json scripted_reqwest memory client table_axum plain_tower
            get_nodes 1 imported_now
          ≡ returned (
              nodes_response (
                map
                  (from_node seconds_chrono)
                  (filter_map (accepted seconds_chrono bytes_json) received))))
        ⊎ (answer seconds_chrono bytes_json scripted_reqwest memory client table_axum plain_tower
              get_nodes 1 imported_now
            ≡ returned internal_error_response))
answer-import_once_example =
    answer-import_once seconds_chrono bytes_json scripted_reqwest memory client ℤ-discrete
      memory_laws table_axum plain_tower fresh (record { imported = length found }) 1 (omega arith)
      import_once-total_example

abbrev tick : Wake
tick = record { cancelled = false; ticked = true; elapsed = 3 }

abbrev later : State
later =
    (import_loop seconds_chrono bytes_json scripted_reqwest memory client 60 (tick ∷ tick ∷ [])
      unlucky).world

answer-IsPublic_example :
    ((shown : List NodeResponse) × All IsPublic shown
      × (answer seconds_chrono bytes_json scripted_reqwest memory client table_axum plain_tower
            get_nodes 1 later
          ≡ returned (nodes_response shown)))
    ⊎ (answer seconds_chrono bytes_json scripted_reqwest memory client table_axum plain_tower
          get_nodes 1 later
        ≡ returned internal_error_response)
answer-IsPublic_example =
    answer-IsPublic seconds_chrono bytes_json scripted_reqwest memory client ℤ-discrete memory_laws
      table_axum plain_tower bytes_laws 60 (tick ∷ tick ∷ []) unlucky (river ∷ []) 1
      (Perm.refl (rows_from 0 (river ∷ []))) ((λ e. cc, omega arith), tt) (omega arith)

serve_publishes_example :
    (later : State) × Goes seconds_chrono bytes_json scripted_reqwest memory client table_axum
      plain_tower
      (at seconds_chrono bytes_json scripted_reqwest memory client waiting serving false fresh)
      (at seconds_chrono bytes_json scripted_reqwest memory client waiting serving false later)
    × Holds ℤ-discrete memory memory_laws later.store found
    × ((answer seconds_chrono bytes_json scripted_reqwest memory client table_axum plain_tower
            get_nodes 1 later
          ≡ returned (nodes_response (map (from_node seconds_chrono) found)))
        ⊎ (answer seconds_chrono bytes_json scripted_reqwest memory client table_axum plain_tower
              get_nodes 1 later
            ≡ returned internal_error_response))
serve_publishes_example =
    serve_publishes seconds_chrono bytes_json scripted_reqwest memory client table_axum plain_tower
      ℤ-discrete memory_laws bytes_laws fresh records 1 delivers some_found few_found runs
      (omega arith)
